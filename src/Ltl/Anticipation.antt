-- ===== src/Ltl/Anticipation.antt =====
-- What a settled verdict promises of every extension of the stream, for every compiled rule.
use ooptdd.Base.{◌≡◌, ap, ◌∙◌, Bool, true, false, List, ok, Returns-eq, Option, length, ◌≢◌}
use ooptdd.Value.{Event, Fields}
use ooptdd.Builtins.{Builtins}
use ooptdd.Ontology.{Ontology}
use ooptdd.Monitor.{
  Monitor, count, present, absent, duration, heartbeat, order, ratio, invariant, metamorphic,
  conforms, latched, passed, run_from,
}
use ooptdd.Monitor.Compile.{compile_check}
use ooptdd.Ltl.Compiled.{compile_check-IsSound}
use ooptdd.Monitor.Verdicts.{Latch, sat, viol, pend}
use ooptdd.Ltl.Sound.{IsSound, Advances, run_from-Advances}
use ooptdd.Ltl.Count as CountLaws
use ooptdd.Ltl.Present as PresentLaws
use ooptdd.Ltl.Offenders
use ooptdd.Ltl.Heartbeat as HeartbeatLaws
use ooptdd.Ltl.Order as OrderLaws

-- A sound `sat` passes.
pub sat_passes :
    (py : Builtins) (m : Monitor)
    → IsSound py m
    → (latched m).verdict ≡ sat
    → passed py m true ≡ ok true
unfolding passed
sat_passes py (count m) h e = CountLaws.passed_of_sat m h e
sat_passes py (present m) h e = ap ok (PresentLaws.passed_of_sat m h e)
sat_passes py (absent m) h e = absurd (Offenders.never_sat m.offenders h e)
sat_passes py (duration m) h e = absurd (Offenders.never_sat m.offenders h e)
sat_passes py (heartbeat m) h e = absurd (HeartbeatLaws.never_sat py m h e)
sat_passes py (order m) h e = ap ok (OrderLaws.passed_of_sat py m h e)
sat_passes py (ratio m) h e = cc
sat_passes py (invariant m) h e = cc
sat_passes py (metamorphic m) h e = cc
sat_passes py (conforms m) h e = absurd (Offenders.never_sat m.violations h e)

-- Every class but `OrderMonitor`
abbrev pub IsUnordered : Monitor → Type 0
IsUnordered (order m) = ⊥
IsUnordered (count m) = Unit
IsUnordered _ = Unit

pub viol_fails :
    (py : Builtins) (m : Monitor) (r : Bool)
    → IsSound py m
    → IsUnordered m
    → (latched m).verdict ≡ viol
    → passed py m r ≡ ok false
unfolding passed
viol_fails py (count m) r h u e = CountLaws.passed_of_viol m r h e
viol_fails py (present m) r h u e = absurd (PresentLaws.never_viol m h e)
viol_fails py (absent m) r h u e = ap ok (Offenders.absent_viol m r h e)
viol_fails py (duration m) r h u e = ap ok (Offenders.duration_viol m r h e)
viol_fails py (heartbeat m) r h u e = ap ok (HeartbeatLaws.passed_of_viol py m r h e)
viol_fails py (order m) r h u e = absurd u
viol_fails py (ratio m) r h u e = cc
viol_fails py (invariant m) r h u e = cc
viol_fails py (metamorphic m) r h u e = cc
viol_fails py (conforms m) r h u e = ap ok (Offenders.conforms_viol m r h e)

module _ (py : Builtins) (rule indicators : Fields) (ontology : Option Ontology)
    (allow : List Fields) {m₀ m m' : Monitor} (seen later : List Event)
    (compiled : compile_check py rule indicators ontology allow ≡ ok m₀)
    (before : run_from py m₀ 0 seen ≡ ok m)
    (after : run_from py m (length seen) later ≡ ok m') where
  prefix-IsSound : IsSound py m
  prefix-IsSound =
      (Returns-eq (Advances py m₀) before (
        run_from-Advances py m₀ 0 seen (
          Returns-eq (IsSound py) compiled
            (compile_check-IsSound py rule indicators ontology allow)))).0

  extension-Advances : Advances py m m'
  extension-Advances =
      Returns-eq (Advances py m) after (run_from-Advances py m (length seen) later prefix-IsSound)

  -- The latch of a monitor that a rule compiles to is permanent: a verdict that is settled over a
  -- prefix, and the index at which it settled, are those of every extension on which no step raises.
  pub settled_for_good : (latched m).verdict ≢ pend → latched m' ≡ latched m
  settled_for_good h = extension-Advances.1 h

  -- A `sat` over a prefix is irrevocable: whatever events follow, if no step raises on them, the
  -- check of a reachable stream collapses to a pass, for every rule that compiles.
  pub sat_irrevocable : (latched m).verdict ≡ sat → passed py m' true ≡ ok true
  sat_irrevocable h =
      sat_passes py m' extension-Advances.0
        (ap (λ (l : Latch). l.verdict) (extension-Advances.1 (λ e. cc)) ∙ h)

  -- A `viol` over a prefix is irrevocable for every rule that compiles but `must_order`: whatever
  -- events follow, if no step raises on them, the check collapses without an error and not to a
  -- pass, on a reachable stream or not.
  pub viol_irrevocable :
      IsUnordered m' → (latched m).verdict ≡ viol → (r : Bool) → passed py m' r ≡ ok false
  viol_irrevocable u h r =
      viol_fails py m' r extension-Advances.0 u
        (ap (λ (l : Latch). l.verdict) (extension-Advances.1 (λ e. cc)) ∙ h)
