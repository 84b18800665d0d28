-- ===== src/Ltl/Numbers.antt =====
-- Laws of the comparison operators between a count and a target.
use ooptdd.Base.{ℕ, suc, ◌≡◌, true, false, arith}
use ooptdd.Monitor.Count.{nat}
use ooptdd.Value.{
  finite, inf, neg_inf, nan, Number, int, float, ge, gt, eq, le, lt, compare_number, apply_op,
}

-- A count that has reached the target stays there when it grows.
pub ge_up : (n : ℕ) (w : Number) → apply_op ge (nat n) w ≡ true → apply_op ge (nat (suc n)) w ≡ true
unfolding apply_op compare_number
ge_up n (int z) h = ground arith
ge_up n (float (finite z e)) h = ground arith
ge_up n (float inf) h = ground arith
ge_up n (float neg_inf) h = ground arith
ge_up n (float nan) h = ground arith

-- A count that has passed the target stays past it when it grows.
pub gt_up : (n : ℕ) (w : Number) → apply_op gt (nat n) w ≡ true → apply_op gt (nat (suc n)) w ≡ true
unfolding apply_op compare_number
gt_up n (int z) h = ground arith
gt_up n (float (finite z e)) h = ground arith
gt_up n (float inf) h = ground arith
gt_up n (float neg_inf) h = ground arith
gt_up n (float nan) h = ground arith

-- What lies above the target neither equals it nor lies at or below it.
pub gt-excludes :
    (n : ℕ) (w : Number)
    → apply_op gt (nat n) w ≡ true
    → (apply_op eq (nat n) w ≡ false) × (apply_op le (nat n) w ≡ false)
unfolding apply_op
gt-excludes n w h = ground arith

pub ge-excludes-lt :
    (n : ℕ) (w : Number) → apply_op ge (nat n) w ≡ true → apply_op lt (nat n) w ≡ false
unfolding apply_op
ge-excludes-lt n w h = ground arith

-- A target at or below nothing is reached by every count.
pub zero_reached : (w : Number) → apply_op le w (nat 0) ≡ true → apply_op ge (nat 0) w ≡ true
unfolding apply_op compare_number
zero_reached (int z) h = ground arith
zero_reached (float (finite z e)) h = ground arith
zero_reached (float inf) h = ground arith
zero_reached (float neg_inf) h = ground arith
zero_reached (float nan) h = ground arith
