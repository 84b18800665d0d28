-- ===== src/Ltl/Compiled.antt =====
-- What `compile_check` builds has settled only what the empty stream decides.
use ooptdd.Base.{
  ◌≡◌, refl, true, Option, String, List, Result, ok, Returns, returned, Returns-intro, subst, sym,
  Returns-if, Returns-bind,
}
use ooptdd.Value.{Value, Fields, get}
use ooptdd.Builtins.{Builtins}
use ooptdd.Ontology.{Ontology}
use ooptdd.Match.{Matcher, resolve_matcher, ops}
use ooptdd.Monitor.{
  latched, Monitor, count, present, absent, duration, heartbeat, order, ratio, invariant,
  metamorphic, conforms,
}
use ooptdd.Monitor.Compile.{
  compile_check, compile_heartbeat, compile_order, compile_absent, compile_present, compile_ratio,
  compile_conforms, compile_invariant, compile_metamorphic, compile_duration, compile_count,
  validate_count_rule, build_duration, duration_op, duration_target, nested, num_target,
}
use ooptdd.Monitor.Heartbeat
use ooptdd.Monitor.Ratio
use ooptdd.Monitor.Conforms
use ooptdd.Monitor.Present
use ooptdd.Monitor.Absent
use ooptdd.Monitor.Duration
use ooptdd.Monitor.Duration.{DurationMonitor}
use ooptdd.Monitor.Order
use ooptdd.Ltl.Sound.{IsSound}
use ooptdd.Monitor.Verdicts.{pend}
use native.Mathlib.Omega.{arith}
use ooptdd.Ltl.Count as CountLaws
use ooptdd.Ltl.Present as PresentLaws
use ooptdd.Ltl.Offenders
use ooptdd.Ltl.Heartbeat as HeartbeatLaws
use ooptdd.Ltl.Order as OrderLaws

pend-IsSound : (py : Builtins) (m : Monitor) → (latched m).verdict ≡ pend → IsSound py m
pend-IsSound py (count m) e =
    subst (λ v. CountLaws.settled (ops m.op) m.want m.got v ≡ true) (sym e) refl
pend-IsSound py (present m) e = subst (λ v. PresentLaws.settled v m.hits ≡ true) (sym e) refl
pend-IsSound py (absent m) e = subst (λ v. Offenders.settled v m.offenders ≡ true) (sym e) refl
pend-IsSound py (duration m) e = subst (λ v. Offenders.settled v m.offenders ≡ true) (sym e) refl
pend-IsSound py (heartbeat m) e =
    subst (λ v. HeartbeatLaws.settled v m.max_gap_us (Heartbeat.bound py m.every_s) ≡ true) (sym e)
      refl
pend-IsSound py (order m) e =
    subst (λ v. OrderLaws.settled v (OrderLaws.complete py m) ≡ true) (sym e) refl
pend-IsSound py (ratio m) e = e
pend-IsSound py (invariant m) e = e
pend-IsSound py (metamorphic m) e = e
pend-IsSound py (conforms m) e = subst (λ v. Offenders.settled v m.violations ≡ true) (sym e) refl

duration_new-fresh :
    (py : Builtins) (m : Matcher) (name : Value) (op : String) (target : Value)
    (d : DurationMonitor)
    → Duration.new py m name op target ≡ ok d
    → d.latched.verdict ≡ pend
unfolding Duration.new
duration_new-fresh py m name op target d h = ground arith

module _ (py : Builtins) (rule indicators : Fields) where
  heartbeat_fresh : (m : Monitor) → compile_heartbeat py rule ≡ ok m → (latched m).verdict ≡ pend
  unfolding compile_heartbeat Heartbeat.new
  heartbeat_fresh m h = ground arith

  order_fresh : (m : Monitor) → compile_order rule ≡ ok m → (latched m).verdict ≡ pend
  unfolding compile_order Order.new
  order_fresh m h = ground arith

  absent_fresh :
      (allow : List Fields) (m : Monitor)
      → compile_absent py rule indicators allow ≡ ok m
      → (latched m).verdict ≡ pend
  unfolding compile_absent Absent.new
  absent_fresh allow m h = ground arith

  present_fresh :
      (m : Monitor) → compile_present py rule indicators ≡ ok m → (latched m).verdict ≡ pend
  unfolding compile_present Present.new
  present_fresh m h = ground arith

  ratio_fresh : (m : Monitor) → compile_ratio py rule indicators ≡ ok m → (latched m).verdict ≡ pend
  unfolding compile_ratio Ratio.new
  ratio_fresh m h = ground arith

  conforms_fresh :
      (ontology : Option Ontology) (m : Monitor)
      → compile_conforms rule ontology ≡ ok m
      → (latched m).verdict ≡ pend
  unfolding compile_conforms Conforms.new
  conforms_fresh ontology m h = ground arith

  invariant_fresh :
      (m : Monitor) → compile_invariant py rule indicators ≡ ok m → (latched m).verdict ≡ pend
  unfolding compile_invariant
  invariant_fresh m h = ground arith

  metamorphic_fresh :
      (m : Monitor) → compile_metamorphic py rule indicators ≡ ok m → (latched m).verdict ≡ pend
  unfolding compile_metamorphic
  metamorphic_fresh m h = ground arith

  build_duration-IsSound :
      (spec : Fields) → Returns (IsSound py) (build_duration py rule indicators spec)
  unfolding build_duration
  build_duration-IsSound spec =
      Returns-bind (IsSound py) (resolve_matcher spec indicators) _ (λ m _.
        Returns-bind (IsSound py)
          (Duration.new py m (get "field" spec) (duration_op rule spec) (duration_target rule spec))
          (λ d. ok (duration d))
          (λ d e. returned (pend-IsSound py (duration d) (duration_new-fresh py m _ _ _ d e))))

  duration-IsSound : Returns (IsSound py) (compile_duration py rule indicators)
  unfolding compile_duration
  duration-IsSound =
      Returns-bind (IsSound py) (nested (get "duration" rule)) (build_duration py rule indicators)
        (λ spec _. build_duration-IsSound spec)

  count-IsSound : Returns (IsSound py) (compile_count py rule indicators)
  unfolding compile_count
  count-IsSound = Returns-bind (IsSound py) (validate_count_rule rule) _ (λ v _.
      Returns-bind (IsSound py) (resolve_matcher rule indicators) _ (λ m _.
        Returns-bind (IsSound py) (num_target py rule) _
          (λ w _. returned (CountLaws.new-IsSound m _ w))))

  unsettled :
      (r : Result Monitor)
      → ((m : Monitor) → r ≡ ok m → (latched m).verdict ≡ pend)
      → Returns (IsSound py) r
  unsettled r h = Returns-intro (IsSound py) r (λ m e. pend-IsSound py m (h m e))

  pub compile_check-IsSound :
      (ontology : Option Ontology) (allow : List Fields)
      → Returns (IsSound py) (compile_check py rule indicators ontology allow)
  unfolding compile_check
  compile_check-IsSound ontology allow = Returns-if _ _ _ _ (unsettled _ (absent_fresh allow)) (
      Returns-if _ _ _ _ (unsettled _ heartbeat_fresh) (
        Returns-if _ _ _ _ (unsettled _ order_fresh) (
          Returns-if _ _ _ _ (unsettled _ present_fresh) (
            Returns-if _ _ _ _ (unsettled _ ratio_fresh) (
              Returns-if _ _ _ _ (unsettled _ (conforms_fresh ontology)) (
                Returns-if _ _ _ _ (unsettled _ invariant_fresh) (
                  Returns-if _ _ _ _ (unsettled _ metamorphic_fresh)
                    (Returns-if _ _ _ _ duration-IsSound count-IsSound))))))))
