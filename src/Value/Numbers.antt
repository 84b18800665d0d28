-- ===== src/Value/Numbers.antt =====
-- Python numbers as the comparison operators see them: an `int` is exact, a finite `float` is a
-- dyadic fraction m / 2^e, and Python compares the two exactly.
use Prim.Native.Nat.{compare, Ordering}
use ooptdd.Base.{◌+◌, ◌*◌, ◌^◌, ℕ, Bool, true, false, Option, none, some, ℤ, pos_part, neg_part}

pub data Float : Type 0 where
  finite : ℤ → ℕ → Float
  inf neg_inf nan : Float

pub data Number : Type 0 where
  int : ℤ → Number
  float : Float → Number

abbrev pub exact : Number → Float
exact (int z) = finite z 0
exact (float f) = f

-- The order of two floats; `none` where one is not a number.
abbrev pub compare_float : Float → Float → Option Ordering
compare_float (finite m e) (finite n f) =
    some
      (compare (pos_part m * 2 ^ f + neg_part n * 2 ^ e) (pos_part n * 2 ^ e + neg_part m * 2 ^ f))
compare_float (finite m e) inf = some Ordering.lt
compare_float (finite m e) neg_inf = some Ordering.gt
compare_float (finite m e) nan = none
compare_float inf inf = some Ordering.eq
compare_float inf nan = none
compare_float inf _ = some Ordering.gt
compare_float neg_inf neg_inf = some Ordering.eq
compare_float neg_inf nan = none
compare_float neg_inf _ = some Ordering.lt
compare_float nan _ = none

unfoldable pub compare_number : Number → Number → Option Ordering
compare_number a b = compare_float (exact a) (exact b)

-- The keys of `_OPS`.
pub data Op : Type 0 where
  ge gt eq ne le lt : Op

-- The operator applied to two numbers whose order is known; no order holds of a nan.
abbrev pub holds : Op → Option Ordering → Bool
holds ge (some Ordering.lt) = false
holds ge (some _) = true
holds gt (some Ordering.gt) = true
holds gt (some _) = false
holds eq (some Ordering.eq) = true
holds eq (some _) = false
holds ne (some Ordering.eq) = false
holds ne _ = true
holds le (some Ordering.gt) = false
holds le (some _) = true
holds lt (some Ordering.lt) = true
holds lt (some _) = false
holds _ none = false

-- `_OPS[op](a, b)`
unfoldable pub apply_op : Op → Number → Number → Bool
unfolding compare_number
apply_op op a b = holds op (compare_number a b)
