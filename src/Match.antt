-- ===== src/Match.antt =====
-- src/ooptdd/engine/gate_primitives.py and the matching primitives of
-- src/ooptdd/engine/monitor.py: operator names, op-dicts, matchers.
pub mod Label
use text.Mathlib.Text.{find?}
use ooptdd.Base.{
  Bool, true, false, ◌&&◌, ◌||◌, Option, none, some, String, str_eq, if◌then◌else◌, not, Result, ok,
  raise, Error, ◌>>=◌,
}
use ooptdd.Value.{
  Number, Op, ge, gt, eq, ne, le, lt, apply_op, Value, Fields, dict, list, str, end, field, Event,
  find_key, get, has_key, merge, is_null, number?, text?, fields?, items_of, truthy, value_eq,
  item_in,
}

-- `_norm_op` with the table `_OP_ALIASES`
unfoldable pub norm_op : String → String
norm_op op =
    if str_eq op "gte" || str_eq op "ge"
    then ">="
    else if str_eq op "gt"
    then ">"
    else if str_eq op "eq"
    then "=="
    else if str_eq op "ne"
    then "!="
    else if str_eq op "lte" || str_eq op "le"
    then "<="
    else if str_eq op "lt"
    then "<"
    else op

-- The table `_OPS`
unfoldable pub ops : String → Option Op
ops op =
    if str_eq op ">="
    then some ge
    else if str_eq op ">"
    then some gt
    else if str_eq op "=="
    then some eq
    else if str_eq op "!="
    then some ne
    else if str_eq op "<="
    then some le
    else if str_eq op "<"
    then some lt
    else none

-- `_is_op_dict`
abbrev only_op_and_value : Fields → Bool
only_op_and_value end = true
only_op_and_value (field k v fs) = (str_eq k "op" || str_eq k "value") && only_op_and_value fs

unfoldable pub is_op_dict : Value → Bool
unfolding has_key
is_op_dict (dict fs) = has_key "op" fs && only_op_and_value fs
is_op_dict _ = false

-- The ordering operators want real numbers on both sides.
abbrev pub ordered : Op → Option Number → Option Number → Bool
ordered op (some a) (some b) = apply_op op a b
ordered op _ _ = false

abbrev pub compare_op : Op → Value → Value → Bool
compare_op eq a w = value_eq a w
compare_op ne a w = not (value_eq a w)
compare_op op a w = ordered op (number? a) (number? w)

-- `want in actual`; `none` stands for the `TypeError`. The keys of a dictionary are texts, and a list or
-- a dictionary is no key that could be looked up.
unfoldable pub contains : Value → Value → Option Bool
unfolding item_in has_key
contains (str s) (str t) = some (elim (find? s t) [ none ↦ false | some _ ↦ true ])
contains (list xs) w = some (item_in w xs)
contains (dict fs) (str k) = some (has_key k fs)
contains (dict fs) (list _) = none
contains (dict fs) (dict _) = none
contains (dict fs) _ = some false
contains _ _ = none

abbrev pub or_false : Option Bool → Bool
or_false none = false
or_false (some b) = b

abbrev pub negated : Option Bool → Option Bool
negated none = none
negated (some b) = some (not b)

abbrev compare_known : String → Option Op → Value → Value → Result Bool
compare_known sym (some op) actual want = ok (compare_op op actual want)
compare_known sym none actual want =
    if str_eq sym "contains"
    then ok (or_false (contains actual want))
    else if str_eq sym "not_contains"
    then ok (or_false (negated (contains actual want)))
    else raise Error.value_error

-- No operator is the name of a value that is not a text.
abbrev compare_named : Option String → Value → Value → Result Bool
compare_named (some op) actual want = compare_known (norm_op op) (ops (norm_op op)) actual want
compare_named none actual want = raise Error.value_error

-- `_compare`
unfoldable pub compare : Value → Value → Value → Result Bool
unfolding norm_op ops contains
compare op actual want = if is_null actual then ok false else compare_named (text? op) actual want

-- One entry of a `where`, against the event's value under that key
unfoldable pub entry_matches : Event → String → Value → Result Bool
unfolding compare get is_op_dict
entry_matches ev k v =
    if is_op_dict v
    then elim (fields? v) [
      | none ↦ ok false
      | some o ↦ compare (get "op" o) (get k ev) (get "value" o)
    ]
    else ok (value_eq (get k ev) v)

unfoldable pub all_match : Event → Fields → Result Bool
unfolding entry_matches
all_match ev end = ok true
all_match ev (field k v fs) =
    entry_matches ev k v >>= elim [ true ↦ all_match ev fs | false ↦ ok false ]

-- The pair that `_resolve_matcher` returns. Either part is whatever the spec holds there.
pub record Matcher : Type 0 where
  pub event : Value
  pub where_ : Value

-- `_matches`
unfoldable pub matches : Event → Matcher → Result Bool
unfolding all_match get
matches ev m =
    if not (is_null m.event) && not (value_eq (get "event" ev) m.event)
    then ok false
    else items_of m.where_ >>= all_match ev

-- `m.get("where") or {}`
abbrev or_empty : Value → Value
or_empty v = if truthy v then v else dict end

-- `{**(a or {}), **(b or {})}`: `**` wants a mapping.
abbrev mapping : Value → Result Fields
mapping (dict fs) = ok fs
mapping _ = raise Error.type_error

-- `indicators.get(m["indicatorRef"], {})`
abbrev indicator : Value → Fields → Result Fields
indicator (str k) indicators = elim (find_key k indicators) [ none ↦ ok end | some v ↦ items_of v ]
indicator (list _) _ = raise Error.type_error
indicator (dict _) _ = raise Error.type_error
indicator _ _ = ok end

-- `m.get("event", base.get("event"))`
abbrev event_of : Fields → Fields → Value
event_of m base = elim (find_key "event" m) [ none ↦ get "event" base | some v ↦ v ]

-- The branch of `_resolve_matcher` that expands an `indicatorRef`
resolve_indicator : Fields → Fields → Result Matcher
unfolding find_key get merge truthy
resolve_indicator m indicators = do
  base ← indicator (get "indicatorRef" m) indicators
  a ← mapping (or_empty (get "where" base))
  b ← mapping (or_empty (get "where" m))
  ok (record { event = event_of m base; where_ = dict (merge a b) })

-- `_resolve_matcher`
unfoldable pub resolve_matcher : Fields → Fields → Result Matcher
unfolding resolve_indicator get has_key truthy
resolve_matcher m indicators =
    if has_key "indicatorRef" m
    then resolve_indicator m indicators
    else ok (record { event = get "event" m; where_ = or_empty (get "where" m) })
