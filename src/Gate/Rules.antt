-- ===== src/Gate/Rules.antt =====
-- src/ooptdd/engine/gate_rules.py: the numbers of a gate, the key of a rule, its strength, and the
-- expansion of a spec into rules.
use Prim.Native.String.{◌∷◌ as ◌∷ₛ◌, [] as empty, ◌++◌ as ◌++ₛ◌}
use ooptdd.Base.{
  Bool, false, ◌||◌, Option, none, some, String, str_eq, List, [], ◌∷◌, ◌++◌, any, any_m, not,
  if◌then◌else◌, map, map_m, Result, ok, raise, raise_if, Error, ◌>>=◌, ◌>>◌, pos,
}
use ooptdd.Value.{
  Float, finite, float, lt, le, gt, apply_op, Value, Items, Fields, str, list, dict, nil, cons, end,
  field, get, has_key, is_bool, is_null, truthy,
}
use ooptdd.Builtins.{Builtins}
use ooptdd.Monitor.Compile.{get_or, op_text, as_value_error, validate_count_rule}
use ooptdd.Gate.Values.{Handler, GatePolicy}

abbrev pub elements : Items → List Value
elements nil = []
elements (cons x xs) = x ∷ elements xs

abbrev pub keys_of : Fields → List Value
keys_of end = []
keys_of (field k v fs) = str k ∷ keys_of fs

abbrev pub letters : String → List Value
letters empty = []
letters (c ∷ₛ s) = str (c ∷ₛ "") ∷ letters s

-- `for x in v`
unfoldable pub iterate : Value → Result (List Value)
iterate (list xs) = ok (elements xs)
iterate (dict fs) = ok (keys_of fs)
iterate (str s) = ok (letters s)
iterate _ = raise Error.type_error

-- `v or default`
abbrev pub or_else : Value → Value → Value
or_else v default = if truthy v then v else default

abbrev pub below : Float → Option Float → Bool
below x none = false
below x (some b) = apply_op lt (float x) (float b)

abbrev pub above : Float → Option Float → Bool
above x none = false
above x (some b) = apply_op gt (float x) (float b)

abbrev pub finite_only : Float → Result Float
finite_only (finite m e) = ok (finite m e)
finite_only _ = raise Error.value_error

-- `finite_gate_number`
unfoldable pub finite_gate_number : Builtins → Value → Option Float → Option Float → Result Float
finite_gate_number py v minimum maximum = do
  raise_if (is_bool v) Error.value_error
  x ← as_value_error (py.to_float v)
  y ← finite_only x
  raise_if (below y minimum) Error.value_error
  raise_if (above y maximum) Error.value_error
  ok y

abbrev pub zero_f : Float
zero_f = finite (pos 0) 0

abbrev pub one_f : Float
one_f = finite (pos 1) 0

-- `gate_threshold`
unfoldable pub gate_threshold : Builtins → Value → Result Float
unfolding finite_gate_number
gate_threshold py v = do
  t ← finite_gate_number py v (some zero_f) (some one_f)
  raise_if (apply_op le (float t) (float zero_f)) Error.value_error
  ok t

-- `_KEY_PROBES`
abbrev pub key_probes : List (String × String)
key_probes =
    ("absent", "absent")
    ∷ ("forbid", "absent")
    ∷ ("heartbeat", "heartbeat")
    ∷ ("must_order", "must_order")
    ∷ ("present", "present")
    ∷ ("ratioMetric", "ratioMetric")
    ∷ ("conforms", "conforms")
    ∷ ("invariant", "invariant")
    ∷ ("metamorphic", "metamorphic")
    ∷ ("duration", "duration")
    ∷ ("external", "external")
    ∷ []

abbrev pub probe_rule : List (String × String) → Fields → Option String
probe_rule [] rule = none
probe_rule ((k, canonical) ∷ ps) rule =
    if has_key k rule then some canonical else probe_rule ps rule

abbrev pub registered : List Handler → Fields → Option String
registered [] rule = none
registered (h ∷ hs) rule = if has_key h.key rule then some h.key else registered hs rule

abbrev pub or_registered : Option String → Option String → Option String
or_registered none k = k
or_registered (some k) _ = some k

-- The key of a rule, before the test of a count rule
unfoldable pub key_of : Fields → List Handler → Option String
unfolding has_key
key_of rule registry = or_registered (probe_rule key_probes rule) (registered registry rule)

-- `detect_check_key`
unfoldable pub detect_check_key : Fields → List Handler → Result (Option String)
unfolding key_of validate_count_rule
detect_check_key rule registry = elim (key_of rule registry) [
  | none ↦ validate_count_rule rule >> ok none
  | some k ↦ ok (some k)
]

abbrev pub lookup_text : String → List (String × String) → Option String
lookup_text k [] = none
lookup_text k ((j, v) ∷ ps) = if str_eq j k then some v else lookup_text k ps

-- `item.get("where")`, as a test
abbrev has_where : Value → Result Bool
has_where (dict fs) = ok (truthy (get "where" fs))
has_where _ = raise Error.attribute_error

abbrev tight : String → Bool
tight op = str_eq op "==" || str_eq op "!=" || str_eq op "<=" || str_eq op "<"

-- The strength of a rule that no table names
unfoldable pub strength_of_rule : Fields → String
unfolding truthy get get_or
strength_of_rule rule =
    if truthy (get "where" rule)
    then "value-pinned"
    else if not (is_null (get "threshold" rule))
    then "threshold"
    else if tight (op_text (get_or "op" (str ">=") rule))
    then "bounded"
    else "existence-only"

unfoldable pub strength_of_present : Fields → Result String
unfolding iterate truthy get
strength_of_present rule = do
  ms ← iterate (or_else (get "present" rule) (list nil))
  pinned ← any_m has_where ms
  ok (if pinned then "value-pinned" else "existence-only")

abbrev pub is_text : Option String → String → Bool
is_text none s = false
is_text (some t) s = str_eq t s

abbrev tabled : Option String → List (String × String) → Option String
tabled none table = none
tabled (some k) table = lookup_text k table

unfoldable pub strength_by : Fields → Option String → List (String × String) → Result String
unfolding strength_of_present strength_of_rule
strength_by rule key table = elim (tabled key table) [
  | some s ↦ ok s
  | none ↦ if is_text key "present" then strength_of_present rule else ok (strength_of_rule rule)
]

abbrev declared_strength : Value → Option String
declared_strength (str s) = if str_eq s "" then none else some s
declared_strength _ = none

-- `strength`
unfoldable pub strength : Fields → List Handler → List (String × String) → Result String
unfolding get detect_check_key strength_by
strength rule registry table = elim (declared_strength (get "strength" rule)) [
  | some s ↦ ok s
  | none ↦ detect_check_key rule registry >>= λ key. strength_by rule key table
]

abbrev allowed_names : Value → Bool
allowed_names (dict fs) = truthy (get "event" fs) || truthy (get "where" fs)
allowed_names _ = false

abbrev dictionaries : List Value → Result (List Fields)
dictionaries [] = ok []
dictionaries (dict fs ∷ vs) = dictionaries vs >>= λ ds. ok (fs ∷ ds)
dictionaries (_ ∷ vs) = raise Error.value_error

-- `validate_allow_errors`, with the entries that it accepts
unfoldable pub allowed_errors : Fields → Result (List Fields)
unfolding get truthy iterate
allowed_errors spec = do
  vs ← iterate (or_else (get "allow_errors" spec) (list nil))
  raise_if (any (λ v. not (allowed_names v)) vs) Error.value_error
  dictionaries vs

abbrev default_levels : Value
default_levels = list (cons (str "ERROR") (cons (str "CRITICAL") nil))

abbrev pub level_matcher : Value → Value
level_matcher level = dict (field "where" (dict (field "level" level end)) end)

abbrev pub item_list : List Value → Items
item_list [] = nil
item_list (v ∷ vs) = cons v (item_list vs)

-- The rule that `forbid_errors` appends
abbrev pub forbid_rule : List Value → Fields
forbid_rule levels =
    field "absent" (list (item_list (map level_matcher levels)))
      (field "_auto" (str "forbid_errors") end)

unfoldable pub forbid_rules : Fields → GatePolicy → Result (List Fields)
unfolding get truthy iterate
forbid_rules spec policy =
    if policy.forbid_errors
    then (iterate (or_else (get "error_levels" spec) default_levels) >>= λ levels.
        ok (forbid_rule levels ∷ []))
    else ok []

-- The rule that `pin_service` appends
unfoldable pub pin_rules : Builtins → Fields → List Fields
unfolding get truthy
pin_rules py spec =
    if truthy (get "pin_service" spec)
    then field "invariant"
        (dict (
          field "left" (dict (field "reduce" (str "count") end)) (
            field "right"
              (dict (
                field "where" (dict (field "service" (get "pin_service" spec) end))
                  (field "reduce" (str "count") end)))
              (field "op" (str "==") end))))
        (field "label" (str ("pin_service=" ++ₛ py.show (get "pin_service" spec)))
          (field "_auto" (str "pin_service") end))
      ∷ []
    else []

-- A rule that is no dictionary has no `get`.
abbrev pub rule_of : Value → Result Fields
rule_of (dict fs) = ok fs
rule_of _ = raise Error.attribute_error

-- `expand_rules`
unfoldable pub expand_rules : Builtins → Fields → GatePolicy → Result (List Fields)
unfolding allowed_errors get_or iterate forbid_rules pin_rules
expand_rules py spec policy = do
  allowed ← allowed_errors spec
  expected ← iterate (get_or "expect" (list nil) spec)
  rules ← map_m rule_of expected
  forbidden ← forbid_rules spec policy
  ok (rules ++ (forbidden ++ pin_rules py spec))
