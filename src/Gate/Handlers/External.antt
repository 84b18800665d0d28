-- ===== src/Gate/Handlers/External.antt =====
-- `_check_external` of src/ooptdd/engine/gate.py: a check against an observation of another source.
use ooptdd.Base.{
  ℕ, zero, suc, ◌*◌, ◌^◌, Bool, true, false, ◌&&◌, ◌||◌, not, Option, none, some, ℤ, pos, negsuc,
  pos_part, ltb_ℤ, leb_ℤ, abs_diff, leb, String, str_eq, if◌then◌else◌, Result, ok, raise, raise_if,
  Error, ◌>>=◌, ◌>>◌,
}
use ooptdd.Value.{
  finite, int, float, Value, Fields, null, bool, num, str, dict, end, field, get, is_null, value_eq,
}
use ooptdd.Builtins.{Builtins}
use ooptdd.Monitor.Compile.{get_or, op_text, zero_float}
use ooptdd.Gate.Values.{CheckFn, ExternalObservation}

-- A numerator and a denominator
abbrev pub Fraction : Type 0
Fraction = ℤ × ℕ

-- `_exact_external_number`
unfoldable pub exact_external_number : Builtins → Value → Result Fraction
exact_external_number py (num (int z)) = ok (z, 1)
exact_external_number py (num (float (finite m e))) = ok (m, 2 ^ e)
exact_external_number py (str s) = elim (py.parse_fraction s) [
  | none ↦ raise Error.value_error
  | some q ↦ ok q
]
exact_external_number py _ = raise Error.value_error

abbrev negated : ℕ → ℤ
negated zero = pos 0
negated (suc n) = negsuc n

-- `z * d` for a denominator
abbrev scaled : ℤ → ℕ → ℤ
scaled (pos n) d = pos (n * d)
scaled (negsuc n) d = negated (suc n * d)

abbrev less : Fraction → Fraction → Bool
less a b = ltb_ℤ (scaled a.0 b.1) (scaled b.0 a.1)

abbrev at_most : Fraction → Fraction → Bool
at_most a b = leb_ℤ (scaled a.0 b.1) (scaled b.0 a.1)

-- `_compare_exact_external`
unfoldable pub compare_exact_external : String → Fraction → Fraction → Result Bool
compare_exact_external op a b =
    if str_eq op ">="
    then ok (at_most b a)
    else if str_eq op ">"
    then ok (less b a)
    else if str_eq op "<="
    then ok (at_most a b)
    else if str_eq op "<"
    then ok (less a b)
    else if str_eq op "=="
    then ok (at_most a b && at_most b a)
    else raise Error.value_error

-- `abs(observed - expected) <= tolerance`, for a tolerance that is not negative
abbrev within : Fraction → Fraction → Fraction → Bool
within a b t = leb (abs_diff (scaled a.0 b.1) (scaled b.0 a.1) * t.1) (pos_part t.0 * (a.1 * b.1))

abbrev is_number : Value → Bool
is_number (num n) = true
is_number _ = false

-- The branch of `==` and `!=`
unfoldable pub compare_equal : Builtins → Fields → String → Value → Value → Result Bool
unfolding exact_external_number get_or value_eq
compare_equal py spec op value want = do
  tolerance ← exact_external_number py (get_or "tol" zero_float spec)
  raise_if (ltb_ℤ tolerance.0 (pos 0)) Error.value_error
  if str_eq op "!="
      then ok (not (value_eq value want))
      else if is_number value && is_number want
      then (exact_external_number py value >>= λ a.
          exact_external_number py want >>= λ b. ok (within a b tolerance))
      else ok (value_eq value want)

unfoldable pub compare_ordered : Builtins → String → Value → Value → Result Bool
unfolding exact_external_number compare_exact_external
compare_ordered py op value want =
    if str_eq op ">=" || str_eq op ">" || str_eq op "<=" || str_eq op "<"
    then (exact_external_number py value >>= λ a.
        exact_external_number py want >>= λ b. compare_exact_external op a b)
    else raise Error.value_error

unfoldable pub external_holds : Builtins → Fields → String → Value → Result Bool
unfolding get compare_equal compare_ordered
external_holds py spec op value =
    if is_null (get "want" spec)
    then ok (not (is_null value))
    else if str_eq op "==" || str_eq op "!="
    then compare_equal py spec op value (get "want" spec)
    else compare_ordered py op value (get "want" spec)

abbrev text_value : Option String → Value
text_value none = null
text_value (some s) = str s

abbrev external_entries : Fields → String → Fields → Fields
external_entries spec op rest = field "external" (get_or "kind" (str "?") spec) (
    field "op" (str op)
      (field "want" (get "want" spec) (field "selector" (get "selector" spec) rest)))

-- The three ways in which the observation decides
unfoldable pub observed : Builtins → Fields → String → Option ExternalObservation → Result Fields
unfolding external_holds
observed py spec op none = ok (
    field "passed" (bool false)
      (field "probe_reachable" null (field "reason" (str "no_external_probe_configured") end)))
observed py spec op (some o) =
    if not o.reachable || not o.complete
    then ok (
        field "passed" (bool false) (
          field "probe_reachable" (bool false)
            (field "value" null (field "reason" (str "external_probe_unreachable") end))))
    else (external_holds py spec op o.value >>= λ p. ok (
        field "value" o.value (
          field "probe_reachable" (bool true) (
            field "separate_source" (bool o.separate_source) (
              field "derived_identity" (text_value o.derived_identity)
                (field "passed" (bool p) end))))))

abbrev pub spec_of : Value → Result Fields
spec_of (dict fs) = ok fs
spec_of _ = raise Error.attribute_error

-- `_check_external`
unfoldable pub check_external : Builtins → CheckFn
unfolding get get_or observed
check_external py events rule ctx = do
  spec ← spec_of (get "external" rule)
  rest ← observed py spec (op_text (get_or "op" (str "==") spec)) ctx.external_observation
  ok (dict (external_entries spec (op_text (get_or "op" (str "==") spec)) rest))
