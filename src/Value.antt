-- ===== src/Value.antt =====
-- The values that events, specs and results are made of: what JSON can say, with Python's rules of
-- equality and truth. A dictionary keeps its insertion order and never holds a key twice.
mod Numbers
pub mod Keys
pub use Numbers.{
  Float, finite, inf, neg_inf, nan, Number, int, float, exact, compare_float, Op, ge, gt, eq, ne,
  le, lt, holds,
}
unfoldable pub use Numbers.{compare_number, apply_op}
use ooptdd.Base.{
  ℕ, zero, suc, Bool, true, false, ◌&&◌, ◌||◌, Option, none, some, ℤ, pos, String, str_eq, ◌==◌,
  if◌then◌else◌, not, Result, ok, raise, Error, ◌>>=◌,
}

mutual
  pub data Value : Type 0 where
    null : Value
    bool : Bool → Value
    num : Number → Value
    str : String → Value
    list : Items → Value
    dict : Fields → Value

  pub data Items : Type 0 where
    nil : Items
    cons : Value → Items → Items

  pub data Fields : Type 0 where
    end : Fields
    field : String → Value → Fields → Fields

-- An event envelope is a dictionary.
abbrev pub Event : Type 0
Event = Fields

-- `d[k]`, and `none` for a missing key
unfoldable pub find_key : String → Fields → Option Value
find_key k end = none
find_key k (field j v fs) = if str_eq j k then some v else find_key k fs

abbrev pub or_null : Option Value → Value
or_null none = null
or_null (some v) = v

-- `d.get(k)`
unfoldable pub get : String → Fields → Value
unfolding find_key
get k fs = or_null (find_key k fs)

-- `k in d`
unfoldable pub has_key : String → Fields → Bool
unfolding find_key
has_key k fs = elim (find_key k fs) [ none ↦ false | some _ ↦ true ]

-- `d[k] = v`
unfoldable pub set_key : String → Value → Fields → Fields
set_key k v end = field k v end
set_key k v (field j w fs) = if str_eq j k then field j v fs else field j w (set_key k v fs)

-- `{**a, **b}`
unfoldable pub merge : Fields → Fields → Fields
unfolding set_key
merge a end = a
merge a (field k v fs) = merge (set_key k v a) fs

-- `len(d)`
abbrev pub size : Fields → ℕ
size end = 0
size (field k v fs) = suc (size fs)

abbrev pub is_null : Value → Bool
is_null null = true
is_null _ = false

abbrev pub is_bool : Value → Bool
is_bool (bool _) = true
is_bool _ = false

-- `isinstance(v, (int, float)) and not isinstance(v, bool)`
abbrev pub number? : Value → Option Number
number? (num n) = some n
number? _ = none

abbrev pub text? : Value → Option String
text? (str s) = some s
text? _ = none

abbrev pub fields? : Value → Option Fields
fields? (dict fs) = some fs
fields? _ = none

-- `v.items()`, `v.get(…)`: only a dictionary has them.
abbrev pub items_of : Value → Result Fields
items_of (dict fs) = ok fs
items_of _ = raise Error.attribute_error

-- The number that arithmetic sees: `True` is 1 and `False` is 0.
abbrev pub numeric? : Value → Option Number
numeric? (num n) = some n
numeric? (bool true) = some (int (pos 1))
numeric? (bool false) = some (int (pos 0))
numeric? _ = none

-- `bool(v)`
unfoldable pub truthy : Value → Bool
unfolding apply_op
truthy null = false
truthy (bool b) = b
truthy (num n) = apply_op ne n (int (pos 0))
truthy (str s) = not (str_eq s "")
truthy (list nil) = false
truthy (list (cons _ _)) = true
truthy (dict end) = false
truthy (dict (field _ _ _)) = true

abbrev same_number : Number → Option Number → Bool
same_number a none = false
same_number a (some b) = apply_op eq a b

abbrev same_text : String → Option String → Bool
same_text s none = false
same_text s (some t) = str_eq s t

-- `a == b`
unfoldable mutual
  unfolding apply_op find_key

  pub value_eq : Value → Value → Bool
  value_eq null w = is_null w
  value_eq (bool true) w = same_number (int (pos 1)) (numeric? w)
  value_eq (bool false) w = same_number (int (pos 0)) (numeric? w)
  value_eq (num n) w = same_number n (numeric? w)
  value_eq (str s) w = same_text s (text? w)
  value_eq (list xs) (list ys) = items_eq xs ys
  value_eq (list xs) _ = false
  value_eq (dict fs) (dict gs) = (size fs == size gs) && fields_in fs gs
  value_eq (dict fs) _ = false

  pub items_eq : Items → Items → Bool
  items_eq nil nil = true
  items_eq nil (cons _ _) = false
  items_eq (cons x xs) nil = false
  items_eq (cons x xs) (cons y ys) = value_eq x y && items_eq xs ys

  -- Every entry of the one is an entry of the other.
  pub fields_in : Fields → Fields → Bool
  fields_in end gs = true
  fields_in (field k v fs) gs =
      (elim (find_key k gs) [ none ↦ false | some w ↦ value_eq v w ]) && fields_in fs gs

-- `x in xs` for a list
unfoldable pub item_in : Value → Items → Bool
item_in v nil = false
item_in v (cons x xs) = value_eq x v || item_in v xs
