-- ===== src/Gate/Handlers/Aggregate.antt =====
-- `_check_aggregate` of src/ooptdd/engine/gate.py: a numeric rollup of one field.
use Prim.Native.String.{◌++◌ as ◌++ₛ◌}
use ooptdd.Base.{
  ℕ, Bool, true, false, ◌||◌, not, Option, none, some, String, str_eq, List, [], ◌∷◌, length,
  if◌then◌else◌, Result, ok, raise, raise_if, Error, ◌>>=◌, ◌>>◌, pos,
}
use ooptdd.Value.{
  Float, finite, Number, int, float, Op, lt, gt, apply_op, Value, Fields, Event, null, bool, num,
  str, dict, end, field, get, has_key, is_null, value_eq,
}
use ooptdd.Builtins.{Builtins}
use ooptdd.Match.{ops}
use ooptdd.Monitor.Compile.{get_or, op_text}
use ooptdd.Gate.Values.{CheckFn}
use ooptdd.Gate.Rules.{finite_gate_number, zero_f}

-- `_AGGREGATES`
pub data Rollup : Type 0 where
  sum max min avg : Rollup

unfoldable pub rollup_of : Value → Option Rollup
rollup_of (str s) =
    if str_eq s "sum"
    then some sum
    else if str_eq s "max"
    then some max
    else if str_eq s "min"
    then some min
    else if str_eq s "avg"
    then some avg
    else none
rollup_of _ = none

-- `math.isfinite`
abbrev finite? : Number → Option Number
finite? (int z) = some (int z)
finite? (float (finite m e)) = some (float (finite m e))
finite? (float _) = none

abbrev parsed : Result Float → Option Number
parsed (ok f) = finite? (float f)
parsed (raise e) = none

-- The number of a field, a text that `float` takes included
unfoldable pub sample : Builtins → Value → Option Number
sample py (str s) = parsed (py.to_float (str s))
sample py (num n) = finite? n
sample py _ = none

abbrev wanted : Value → Event → Bool
wanted name ev = is_null name || value_eq (get "event" ev) name

abbrev attribute : Value → Event → Value
attribute (str k) ev = get k ev
attribute _ ev = null

abbrev prepend : Option Number → List Number → List Number
prepend none xs = xs
prepend (some x) xs = x ∷ xs

-- The loop over the events
unfoldable pub samples : Builtins → Value → Value → List Event → List Number
unfolding sample get value_eq
samples py name attr [] = []
samples py name attr (ev ∷ evs) =
    let rest = samples py name attr evs in
    if wanted name ev then prepend (sample py (attribute attr ev)) rest else rest

abbrev largest : Number → List Number → Number
largest m [] = m
largest m (x ∷ xs) = largest (if apply_op gt x m then x else m) xs

abbrev smallest : Number → List Number → Number
smallest m [] = m
smallest m (x ∷ xs) = smallest (if apply_op lt x m then x else m) xs

-- The rollup of a list that is not empty
unfoldable pub roll : Builtins → Rollup → Number → List Number → Number
roll py sum x xs = py.total (x ∷ xs)
roll py max x xs = largest x xs
roll py min x xs = smallest x xs
roll py avg x xs = float (py.quotient (py.total (x ∷ xs)) (int (pos (length (x ∷ xs)))))

abbrev pub is_sum : Rollup → Bool
is_sum sum = true
is_sum _ = false

abbrev base_entries : Builtins → Value → Value → String → Float → ℕ → Fields → Fields
base_entries py fn attr op target n rest =
    field "label" (str ("aggregate:" ++ₛ (py.show fn ++ₛ ("(" ++ₛ (py.show attr ++ₛ ")"))))) (
      field "aggregate" fn (
        field "attr" attr (
          field "op" (str op) (
            field "target" (num (float target))
              (field "n" (num (int (pos n))) (field "charged" (bool (not (no_samples n))) rest))))))
  where
    no_samples : ℕ → Bool
    no_samples n = ooptdd.Base.◌==◌ n 0

unfoldable pub finish : Builtins → Rollup → Op → Float → List Number → Fields
unfolding roll
finish py fn op target [] =
    if is_sum fn
    then field "value" (num (float zero_f)) (
        field "passed" (bool (apply_op op (float zero_f) (float target)))
          (field "reason" (str "aggregate_no_values") end))
    else field "value" null
        (field "passed" (bool false) (field "reason" (str "aggregate_no_values") end))
finish py fn op target (x ∷ xs) =
    field "value" (num (roll py fn x xs))
      (field "passed" (bool (apply_op op (roll py fn x xs) (float target))) end)

abbrev pub or_raise {ℓ} : {A : Type ℓ} → Option A → Result A
or_raise none = raise Error.value_error
or_raise (some a) = ok a

abbrev pub spec_of : Value → Result Fields
spec_of (dict fs) = ok fs
spec_of _ = raise Error.value_error

-- `_check_aggregate`
unfoldable pub check_aggregate : Builtins → CheckFn
unfolding get has_key get_or rollup_of samples ops finite_gate_number finish
check_aggregate py events rule ctx = do
  spec ← spec_of (get "aggregate" rule)
  fn ← or_raise (rollup_of (get_or "fn" (str "sum") spec))
  raise_if (not (has_key "attr" spec) || not (has_key "target" spec)) Error.value_error
  op ← or_raise (ops (op_text (get_or "op" (str "<=") spec)))
  target ← finite_gate_number py (get "target" spec) none none
  let values = samples py (get "event" spec) (get "attr" spec) events
  ok (
      dict (
        base_entries py (get_or "fn" (str "sum") spec) (get "attr" spec)
          (op_text (get_or "op" (str "<=") spec)) target (length values)
          (finish py fn op target values)))
