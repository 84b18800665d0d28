-- ===== src/Ltl/Sound.antt =====
-- The latched verdict of every monitor rests on what the monitor has seen, and each step keeps both.
use ooptdd.Base.{
  ◌≡◌, refl, ℕ, suc, ℤ, pos, List, [], ◌∷◌, Result, ok, Returns, returned, raised, Returns-bind,
  Returns-eq, Option, none, some, String, raise, any, Bool-cases, inl, inr, Returns-map,
}
use ooptdd.Value.{Event, get, text?, value_eq}
use ooptdd.Builtins.{Builtins}
use ooptdd.Match.{matches}
use ooptdd.Monitor.{
  Monitor, count, present, absent, duration, heartbeat, order, ratio, invariant, metamorphic,
  conforms, latched, lift, step, run_from,
}
use ooptdd.Monitor.Verdicts.{pend, Keeps, Keeps-trans}
use ooptdd.Monitor.Count
use ooptdd.Monitor.Count.{CountMonitor}
use ooptdd.Monitor.Present
use ooptdd.Monitor.Present.{PresentMonitor}
use ooptdd.Monitor.Absent
use ooptdd.Monitor.Absent.{AbsentMonitor}
use ooptdd.Monitor.Duration
use ooptdd.Monitor.Duration.{DurationMonitor}
use ooptdd.Monitor.Stream.{timestamp, sequence}
use ooptdd.Monitor.Heartbeat
use ooptdd.Monitor.Heartbeat.{HeartbeatMonitor}
use ooptdd.Monitor.Order
use ooptdd.Monitor.Order.{OrderMonitor}
use ooptdd.Monitor.Ratio
use ooptdd.Monitor.Ratio.{RatioMonitor}
use ooptdd.Monitor.Reduce.{take_event}
use ooptdd.Monitor.Relation
use ooptdd.Monitor.Relation.{InvariantMonitor, MetamorphicMonitor}
use ooptdd.Ltl.Count as CountLaws
use ooptdd.Ltl.Present as PresentLaws
use ooptdd.Ltl.Offenders
use ooptdd.Ltl.Heartbeat as HeartbeatLaws
use ooptdd.Ltl.Order as OrderLaws

abbrev pub IsSound : Builtins → Monitor → Type 0
IsSound py (count m) = CountLaws.IsSound m
IsSound py (present m) = PresentLaws.IsSound m
IsSound py (absent m) = Offenders.AbsentSound m
IsSound py (duration m) = Offenders.DurationSound m
IsSound py (heartbeat m) = HeartbeatLaws.IsSound py m
IsSound py (order m) = OrderLaws.IsSound py m
IsSound py (ratio m) = m.latched.verdict ≡ pend
IsSound py (invariant m) = m.latched.verdict ≡ pend
IsSound py (metamorphic m) = m.latched.verdict ≡ pend
IsSound py (conforms m) = Offenders.ConformsSound m

abbrev pub Advances : Builtins → Monitor → Monitor → Type 0
Advances py m m' = IsSound py m' × Keeps (latched m) (latched m')

lift-Returns {ℓ} :
    {A : Type ℓ} (P : Monitor → Type 0) (f : A → Monitor) (r : Result A)
    → Returns (λ a. P (f a)) r
    → Returns P (lift f r)
lift-Returns P f (ok a) h = returned (Returns-eq (λ a. P (f a)) refl h)
lift-Returns P f (raise e) h = raised

count_step :
    (py : Builtins) (m : CountMonitor) (ev : Event) (idx : ℤ)
    → IsSound py (count m)
    → Returns (λ m'. Advances py (count m) (count m')) (Count.step m ev idx)
unfolding Count.step
count_step py m ev idx h =
    Returns-bind _ (matches ev m.matcher) (λ hit. ok (Count.advance m idx hit))
      (λ hit _. returned (CountLaws.advance-IsSound m idx hit h, CountLaws.advance-Keeps m idx hit))

present_step :
    (py : Builtins) (m : PresentMonitor) (ev : Event) (idx : ℤ)
    → IsSound py (present m)
    → Returns (λ m'. Advances py (present m) (present m')) (Present.step m ev idx)
unfolding Present.step
present_step py m ev idx h =
    Returns-bind _ (Present.mark ev m.resolved m.hits) (λ hits. ok (Present.advance m idx hits))
      (λ hits e. returned (
        PresentLaws.advance-IsSound m idx hits h
            (Returns-eq _ e (PresentLaws.mark-Grows ev m.resolved m.hits)),
        PresentLaws.advance-Keeps m idx hits,
      ))

absent_step :
    (py : Builtins) (m : AbsentMonitor) (ev : Event) (idx : ℤ)
    → IsSound py (absent m)
    → Returns (λ m'. Advances py (absent m) (absent m')) (Absent.step m ev idx)
unfolding Absent.step
absent_step py m ev idx h =
    Returns-bind _ (Absent.offends m.allow m.resolved ev) (λ bad. ok (Absent.advance m ev idx bad))
      (λ bad _. returned (Offenders.absent-advance m ev idx bad h))

duration_step :
    (py : Builtins) (m : DurationMonitor) (ev : Event) (idx : ℤ)
    → IsSound py (duration m)
    → Returns (λ m'. Advances py (duration m) (duration m')) (Duration.step m ev idx)
unfolding Duration.step
duration_step py m ev idx h =
    Returns-bind _ (matches ev m.matcher) (λ hit. ok (Duration.advance m ev idx hit))
      (λ hit _. returned (Offenders.duration-advance m ev idx hit h))

heartbeat_step :
    (py : Builtins) (m : HeartbeatMonitor) (ev : Event) (idx : ℤ)
    → IsSound py (heartbeat m)
    → Returns (λ m'. Advances py (heartbeat m) (heartbeat m')) (Heartbeat.step py m ev idx)
unfolding Heartbeat.step
heartbeat_step py m ev idx h =
    Returns-bind _ (timestamp ev)
      (λ ts. ok (Heartbeat.advance py m (value_eq (get "event" ev) m.name) ts idx))
      (λ ts _.
        returned (HeartbeatLaws.advance-Sound py m (value_eq (get "event" ev) m.name) ts idx h))

order_timed :
    (py : Builtins) (m : OrderMonitor) (ev : Event) (n : String) (ts : Option ℤ) (idx : ℤ)
    → IsSound py (order m)
    → Returns (λ m'. Advances py (order m) (order m')) (Order.step_timed py m ev n ts idx)
unfolding Order.step_timed Order.step_at
order_timed py m ev n none idx h = returned (h, λ _. refl)
order_timed py m ev n (some ts) idx h =
    Returns-bind _ (sequence ev) _ (λ s _. returned (OrderLaws.advance-Sound py m n _ idx h))

order_named :
    (py : Builtins) (m : OrderMonitor) (ev : Event) (n : Option String) (idx : ℤ)
    → IsSound py (order m)
    → Returns (λ m'. Advances py (order m) (order m')) (Order.step_named py m ev n idx)
unfolding Order.step_named
order_named py m ev none idx h = returned (h, λ _. refl)
order_named py m ev (some n) idx h = elim (Bool-cases (any (Order.named n) m.slots)) [
  | inl e ↦ rw e (
      Returns-bind _ (timestamp ev) (λ ts. Order.step_timed py m ev n ts idx)
        (λ ts _. order_timed py m ev n ts idx h))
  | inr e ↦ rw e (returned (h, λ _. refl))
]

ratio_step :
    (py : Builtins) (m : RatioMonitor) (ev : Event) (idx : ℤ)
    → IsSound py (ratio m)
    → Returns (λ m'. Advances py (ratio m) (ratio m')) (Ratio.step m ev idx)
unfolding Ratio.step
ratio_step py m ev idx h =
    Returns-bind _ (matches ev m.good_matcher) _
      (λ g _. Returns-bind _ (matches ev m.total_matcher) _ (λ t _. returned (h, λ _. refl)))

invariant_step :
    (py : Builtins) (m : InvariantMonitor) (ev : Event) (idx : ℤ)
    → IsSound py (invariant m)
    → Returns (λ m'. Advances py (invariant m) (invariant m')) (Relation.step_invariant m ev idx)
unfolding Relation.step_invariant
invariant_step py m ev idx h =
    Returns-bind _ (take_event m.left ev) _
      (λ l _. Returns-bind _ (take_event m.right ev) _ (λ r _. returned (h, λ _. refl)))

metamorphic_step :
    (py : Builtins) (m : MetamorphicMonitor) (ev : Event) (idx : ℤ)
    → IsSound py (metamorphic m)
    → Returns
        (λ m'. Advances py (metamorphic m) (metamorphic m'))
        (Relation.step_metamorphic m ev idx)
unfolding Relation.step_metamorphic
metamorphic_step py m ev idx h =
    Returns-bind _ (take_event m.a ev) _
      (λ l _. Returns-bind _ (take_event m.b ev) _ (λ r _. returned (h, λ _. refl)))

pub step-Advances :
    (py : Builtins) (m : Monitor) (ev : Event) (idx : ℤ)
    → IsSound py m
    → Returns (Advances py m) (step py m ev idx)
unfolding step Order.step
step-Advances py (count m) ev idx h =
    lift-Returns (Advances py (count m)) count (Count.step m ev idx) (count_step py m ev idx h)
step-Advances py (present m) ev idx h =
    lift-Returns (Advances py (present m)) present (Present.step m ev idx)
      (present_step py m ev idx h)
step-Advances py (absent m) ev idx h =
    lift-Returns (Advances py (absent m)) absent (Absent.step m ev idx) (absent_step py m ev idx h)
step-Advances py (duration m) ev idx h =
    lift-Returns (Advances py (duration m)) duration (Duration.step m ev idx)
      (duration_step py m ev idx h)
step-Advances py (heartbeat m) ev idx h =
    lift-Returns (Advances py (heartbeat m)) heartbeat (Heartbeat.step py m ev idx)
      (heartbeat_step py m ev idx h)
step-Advances py (order m) ev idx h =
    lift-Returns (Advances py (order m)) order
      (Order.step_named py m ev (text? (get "event" ev)) idx)
      (order_named py m ev (text? (get "event" ev)) idx h)
step-Advances py (ratio m) ev idx h =
    lift-Returns (Advances py (ratio m)) ratio (Ratio.step m ev idx) (ratio_step py m ev idx h)
step-Advances py (invariant m) ev idx h =
    lift-Returns (Advances py (invariant m)) invariant (Relation.step_invariant m ev idx)
      (invariant_step py m ev idx h)
step-Advances py (metamorphic m) ev idx h =
    lift-Returns (Advances py (metamorphic m)) metamorphic (Relation.step_metamorphic m ev idx)
      (metamorphic_step py m ev idx h)
step-Advances py (conforms m) ev idx h = returned (Offenders.conforms-step m ev idx h)

pub run_from-Advances :
    (py : Builtins) (m : Monitor) (i : ℕ) (evs : List Event)
    → IsSound py m
    → Returns (Advances py m) (run_from py m i evs)
unfolding run_from
run_from-Advances py m i [] h = returned (h, λ _. refl)
run_from-Advances py m i (ev ∷ evs) h =
    Returns-bind _ (step py m ev (pos i)) (λ m'. run_from py m' (suc i) evs)
      (λ m' e.
        let (s, k) = Returns-eq (Advances py m) e (step-Advances py m ev (pos i) h) in
        Returns-map (Advances py m') (Advances py m) (λ m'' a. (a.0, Keeps-trans k a.1))
          (run_from-Advances py m' (suc i) evs s))
