-- ===== src/Ltl/Count.antt =====
-- When a settled count is right: what the latched verdict of `CountMonitor` says of the count.
use ooptdd.Base.{
  String, ap, subst, ℕ, suc, ◌≡◌, Bool, true, false, Option, none, some, ℤ, ok, arith, refl,
}
use ooptdd.Value.{Number, Op, ge, gt, eq, ne, le, lt, apply_op}
use ooptdd.Match.{Matcher, ops}
use ooptdd.Monitor.Verdicts.{Verdict, sat, viol, pend, Latch, latch, Keeps}
use ooptdd.Monitor.Count.{CountMonitor, nat, initial, new, test_op, settle, advance, passed}
use ooptdd.Ltl.Numbers.{ge_up, gt_up, gt-excludes, ge-excludes-lt, zero_reached}

-- A settled verdict rests on the count: `sat` on a target that is reached, `viol` on one that is
-- passed; `!=` never settles.
abbrev pub settled : Option Op → Number → ℕ → Verdict → Bool
settled _ w n pend = true
settled (some ge) w n sat = apply_op ge (nat n) w
settled (some gt) w n sat = apply_op gt (nat n) w
settled (some eq) w n viol = apply_op gt (nat n) w
settled (some le) w n viol = apply_op gt (nat n) w
settled (some lt) w n viol = apply_op ge (nat n) w
settled _ _ _ _ = false

abbrev pub IsSound : CountMonitor → Type 0
IsSound m = settled (ops m.op) m.want m.got m.latched.verdict ≡ true

settle-settled :
    (o : Option Op) (w : Number) (n : ℕ) (idx : ℤ) (v : Verdict) (at : Option ℤ)
    → settled o w n v ≡ true
    → settled o w (suc n) (settle o (suc n) w idx (record { verdict = v; settled_at = at })).verdict
      ≡ true
unfolding settle latch
settle-settled none w n idx v at h = ground arith
settle-settled (some ge) w n idx v at h = ground (arith, ge_up n w)
settle-settled (some gt) w n idx v at h = ground (arith, gt_up n w)
settle-settled (some eq) w n idx v at h = ground (arith, gt_up n w)
settle-settled (some ne) w n idx v at h = ground arith
settle-settled (some le) w n idx v at h = ground (arith, gt_up n w)
settle-settled (some lt) w n idx v at h = ground (arith, ge_up n w)

initial-settled : (o : Option Op) (w : Number) → settled o w 0 (initial o w).verdict ≡ true
unfolding initial latch
initial-settled none w = refl
initial-settled (some ge) w = ground (arith, zero_reached w)
initial-settled (some _) w = refl

pub new-IsSound : (m : Matcher) (op : String) (w : Number) → IsSound (new m op w)
unfolding new
new-IsSound m op w = initial-settled (ops op) w

pub advance-IsSound :
    (m : CountMonitor) (idx : ℤ) (hit : Bool) → IsSound m → IsSound (advance m idx hit)
unfolding advance
advance-IsSound m idx true h =
    settle-settled (ops m.op) m.want m.got idx m.latched.verdict m.latched.settled_at h
advance-IsSound m idx false h = h

settle-Keeps :
    (o : Option Op) (w : Number) (n : ℕ) (idx : ℤ) (l : Latch) → Keeps l (settle o n w idx l)
unfolding settle latch
settle-Keeps none w n idx l h = refl
settle-Keeps (some ge) w n idx l h = ground arith
settle-Keeps (some gt) w n idx l h = ground arith
settle-Keeps (some eq) w n idx l h = ground arith
settle-Keeps (some ne) w n idx l h = refl
settle-Keeps (some le) w n idx l h = ground arith
settle-Keeps (some lt) w n idx l h = ground arith

pub advance-Keeps :
    (m : CountMonitor) (idx : ℤ) (hit : Bool) → Keeps m.latched (advance m idx hit).latched
unfolding advance
advance-Keeps m idx true h = settle-Keeps (ops m.op) m.want (suc m.got) idx m.latched h
advance-Keeps m idx false h = refl

test_sat : (o : Option Op) (w : Number) (n : ℕ) → settled o w n sat ≡ true → test_op o n w ≡ ok true
test_sat none w n h = cc
test_sat (some ge) w n h = ap ok h
test_sat (some gt) w n h = ap ok h
test_sat (some eq) w n h = cc
test_sat (some ne) w n h = cc
test_sat (some le) w n h = cc
test_sat (some lt) w n h = cc

test_viol :
    (o : Option Op) (w : Number) (n : ℕ) → settled o w n viol ≡ true → test_op o n w ≡ ok false
test_viol none w n h = cc
test_viol (some ge) w n h = cc
test_viol (some gt) w n h = cc
test_viol (some eq) w n h = ap ok (gt-excludes n w h).0
test_viol (some ne) w n h = cc
test_viol (some le) w n h = ap ok (gt-excludes n w h).1
test_viol (some lt) w n h = ap ok (ge-excludes-lt n w h)

pub passed_of_sat :
    (m : CountMonitor) → IsSound m → m.latched.verdict ≡ sat → passed m true ≡ ok true
unfolding passed
passed_of_sat m s e =
    test_sat (ops m.op) m.want m.got (subst (λ v. settled (ops m.op) m.want m.got v ≡ true) e s)

pub passed_of_viol :
    (m : CountMonitor) (r : Bool) → IsSound m → m.latched.verdict ≡ viol → passed m r ≡ ok false
unfolding passed
passed_of_viol m true s e =
    test_viol (ops m.op) m.want m.got (subst (λ v. settled (ops m.op) m.want m.got v ≡ true) e s)
passed_of_viol m false s e = refl
