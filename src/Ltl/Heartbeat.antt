-- ===== src/Ltl/Heartbeat.antt =====
-- A gap that was too long stays in the largest gap, so `viol` of `HeartbeatMonitor` is final.
use ooptdd.Base.{
  ◌≡◌, refl, Bool, true, false, ℕ, ◌+◌, ◌*◌, ◌^◌, ◌≤◌, pos_part, neg_part, ℤ, Option, none, some,
  subst, ◌≤ℤ◌, max_ℤ, if◌then◌else◌, arith, Bool-cases, inl, inr, ◌-ℤ◌,
}
use ooptdd.Value.{finite, inf, neg_inf, nan, Number, int, float, gt, le, apply_op, compare_number}
use ooptdd.Builtins.{Builtins}
use ooptdd.Monitor.Verdicts.{
  Verdict, sat, viol, pend, Latch, latch, Keeps, latch-Keeps, Keeps-trans,
}
use ooptdd.Monitor.Heartbeat.{
  HeartbeatMonitor, bound, widen, close_gap, beat, advance, effective, edge_gap, within, passed,
}

mul_mono : (x y p : ℕ) → x ≤ y → x * p ≤ y * p
mul_mono x y p h = grind arith

-- A number above a bound excludes that a larger one lies within it.
gt_mono :
    (a b : ℤ) (w : Number) → a ≤ℤ b → apply_op gt (int a) w ≡ true → apply_op gt (int b) w ≡ true
unfolding apply_op compare_number
gt_mono a b (int z) h g = ground arith
gt_mono a b (float (finite z e)) h g =
    ground (arith, mul_mono (pos_part a + neg_part b) (pos_part b + neg_part a) (2 ^ e) h)
gt_mono a b (float inf) h g = ground arith
gt_mono a b (float neg_inf) h g = ground arith
gt_mono a b (float nan) h g = ground arith

gt-not-le : (a : ℤ) (w : Number) → apply_op gt (int a) w ≡ true → apply_op le (int a) w ≡ false
unfolding apply_op
gt-not-le a w h = ground arith

abbrev pub settled : Verdict → ℤ → Number → Bool
settled sat gap w = false
settled viol gap w = apply_op gt (int gap) w
settled pend gap w = true

abbrev pub IsSound : Builtins → HeartbeatMonitor → Type 0
IsSound py m = settled m.latched.verdict m.max_gap_us (bound py m.every_s) ≡ true

le-max_left : (a b : ℤ) → a ≤ℤ max_ℤ a b
le-max_left a b = ground arith

le-max_right : (a b : ℤ) → b ≤ℤ max_ℤ a b
le-max_right a b = ground arith

pub widen-same :
    (m : HeartbeatMonitor) (ts : ℤ)
    → ((widen m ts).latched ≡ m.latched)
      × ((widen m ts).max_gap_us ≡ m.max_gap_us)
      × ((widen m ts).every_s ≡ m.every_s)
unfolding widen
widen-same m ts = ground arith

settle_gap :
    (v : Verdict) (at : Option ℤ) (old gap : ℤ) (w : Number) (idx : ℤ)
    → settled v old w ≡ true
    → settled
        (if apply_op gt (int gap) w
          then latch viol idx (record { verdict = v; settled_at = at })
          else record { verdict = v; settled_at = at }).verdict
        (max_ℤ old gap)
        w
      ≡ true
unfolding latch
settle_gap v at old gap w idx h = ground (
  arith,
  gt_mono old (max_ℤ old gap) w (le-max_left old gap),
  gt_mono gap (max_ℤ old gap) w (le-max_right old gap),
)

keep_if : (b : Bool) (idx : ℤ) (l : Latch) → Keeps l (if b then latch viol idx l else l)
keep_if true idx l = latch-Keeps viol idx l
keep_if false idx l = λ _. refl

abbrev Advances : Builtins → HeartbeatMonitor → HeartbeatMonitor → Type 0
Advances py m m' = IsSound py m' × Keeps m.latched m'.latched

close_gap-Sound :
    (py : Builtins) (last : Option ℤ) (m : HeartbeatMonitor) (ts idx : ℤ)
    → IsSound py m
    → Advances py m (close_gap py last m ts idx)
unfolding close_gap
close_gap-Sound py none m ts idx h = (h, λ _. refl)
close_gap-Sound py (some last) m ts idx h = (
  settle_gap m.latched.verdict m.latched.settled_at m.max_gap_us (ts -ℤ last) (bound py m.every_s)
      idx h,
  keep_if _ idx m.latched,
)

beat-Sound :
    (py : Builtins) (m : HeartbeatMonitor) (ts idx : ℤ)
    → IsSound py m
    → Advances py m (beat py m ts idx)
unfolding beat
beat-Sound py m ts idx h = close_gap-Sound py m.last_ts _ ts idx h

widen-Sound :
    (py : Builtins) (m : HeartbeatMonitor) (ts : ℤ) → IsSound py m → Advances py m (widen m ts)
unfolding widen
widen-Sound py m ts h = elim (Bool-cases m.edge_silence) [
  | inl e ↦ simp e (h, λ _. refl)
  | inr e ↦ simp e (h, λ _. refl)
]

pub advance-Sound :
    (py : Builtins) (m : HeartbeatMonitor) (named : Bool) (ts : Option ℤ) (idx : ℤ)
    → IsSound py m
    → Advances py m (advance py m named ts idx)
unfolding advance
advance-Sound py m named none idx h = (h, λ _. refl)
advance-Sound py m false (some ts) idx h = widen-Sound py m ts h
advance-Sound py m true (some ts) idx h =
    let (s, k) = widen-Sound py m ts h in
    let (s', k') = beat-Sound py (widen m ts) ts idx s in (s', Keeps-trans k k')

pub never_sat : (py : Builtins) (m : HeartbeatMonitor) → IsSound py m → m.latched.verdict ≡ sat → ⊥
never_sat py m h e = cc (subst (λ v. settled v m.max_gap_us (bound py m.every_s) ≡ true) e h)

too_long :
    (py : Builtins) (m : HeartbeatMonitor)
    → apply_op gt (int m.max_gap_us) (bound py m.every_s) ≡ true
    → within py m ≡ false
unfolding within effective
too_long py m g = gt-not-le (max_ℤ m.max_gap_us (edge_gap m)) (bound py m.every_s) (
    gt_mono m.max_gap_us (max_ℤ m.max_gap_us (edge_gap m)) (bound py m.every_s)
      (le-max_left m.max_gap_us (edge_gap m)) g)

pub passed_of_viol :
    (py : Builtins) (m : HeartbeatMonitor) (r : Bool)
    → IsSound py m
    → m.latched.verdict ≡ viol
    → passed py m r ≡ false
unfolding passed
passed_of_viol py m r h e =
    ground
      (arith, too_long py m (subst (λ v. settled v m.max_gap_us (bound py m.every_s) ≡ true) e h))
