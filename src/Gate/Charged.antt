-- ===== src/Gate/Charged.antt =====
-- `check_charged` of src/ooptdd/engine/gate_rules.py: did a check see evidence?
use Prim.Native.String.{◌∷◌ as ◌∷ₛ◌, [] as empty}
use ooptdd.Base.{
  ℕ, suc, Bool, false, ◌&&◌, ◌||◌, none, some, String, str_eq, ltb, not, if◌then◌else◌, pos, Result,
  ok, raise, Error, ◌>>=◌,
}
use ooptdd.Value.{
  int, gt, apply_op, Value, Items, Fields, bool, num, str, list, dict, nil, cons, end, field, get,
  has_key, is_null, numeric?, truthy, size,
}
use ooptdd.Monitor.Compile.{get_or}

-- `v > 0`
abbrev pub positive : Value → Result Bool
positive v = elim (numeric? v) [
  | none ↦ raise Error.type_error
  | some n ↦ ok (apply_op gt n (int (pos 0)))
]

abbrev count_items : Items → ℕ
count_items nil = 0
count_items (cons x xs) = suc (count_items xs)

abbrev count_letters : String → ℕ
count_letters empty = 0
count_letters (c ∷ₛ s) = suc (count_letters s)

-- `len(v)`
abbrev pub len : Value → Result ℕ
len (list xs) = ok (count_items xs)
len (dict fs) = ok (size fs)
len (str s) = ok (count_letters s)
len _ = raise Error.type_error

abbrev any_value : Fields → Bool
any_value end = false
any_value (field k v fs) = not (is_null v) || any_value fs

-- `any(v is not None for v in d.values())`
abbrev some_value : Value → Result Bool
some_value (dict fs) = ok (any_value fs)
some_value _ = raise Error.attribute_error

-- `v is True`
abbrev pub exactly_true : Value → Bool
exactly_true (bool b) = b
exactly_true _ = false

abbrev pub is_word : Value → String → Bool
is_word (str s) w = str_eq s w
is_word _ w = false

abbrev zero_value : Value
zero_value = num (int (pos 0))

unfoldable pub some_missing : Fields → Result Bool
unfolding get_or
some_missing check = do
  missing ← len (get_or "missing" (list nil) check)
  wanted ← len (get_or "present" (list nil) check)
  ok (ltb missing wanted)

unfoldable pub conforms_charged : Fields → Result Bool
unfolding get_or get truthy
conforms_charged check = do
  p ← positive (get_or "checked" zero_value check)
  ok (p || truthy (get "unknown" check))

-- `check_charged`: the first key of the ladder decides.
unfoldable pub check_charged : Fields → Result Bool
unfolding has_key get truthy get_or some_missing conforms_charged
check_charged check =
    if has_key "charged" check
    then ok (truthy (get "charged" check))
    else if has_key "got" check
    then positive (get "got" check)
    else if has_key "present" check
    then some_missing check
    else if has_key "must_order" check
    then some_value (get_or "firsts" (dict end) check)
    else if has_key "ratio" check
    then positive (get_or "total" zero_value check)
    else if has_key "invariant" check
    then ok (not (is_word (get "reason" check) "invariant_no_evidence"))
    else if has_key "metamorphic" check
    then ok (not (is_word (get "reason" check) "metamorphic_no_evidence"))
    else if has_key "external" check
    then ok (exactly_true (get "probe_reachable" check) && not (is_null (get "value" check)))
    else if has_key "heartbeat" check
    then positive (get_or "beats" zero_value check)
    else if has_key "conforms" check
    then conforms_charged check
    else if has_key "absent" check
    then positive (get_or "violations" zero_value check)
    else ok false
