-- ===== src/Gate/Names.antt =====
-- `rule_event_names` of src/ooptdd/engine/gate_rules.py: the event names that a rule asserts. A set of
-- names is a list without repetitions, in the order of its additions.
use ooptdd.Base.{
  Bool, Option, none, some, String, str_eq, List, [], ◌∷◌, ◌++◌, any, map, if◌then◌else◌, Result,
  ok, ◌>>=◌,
}
use ooptdd.Value.{Value, Fields, null, str, list, dict, nil, get, truthy}
use ooptdd.Gate.Values.{Handler}
use ooptdd.Gate.Rules.{elements, iterate, or_else, detect_check_key}

abbrev pub member : String → List String → Bool
member x xs = any (str_eq x) xs

abbrev pub add_name : String → List String → List String
add_name n ns = if member n ns then ns else ns ++ (n ∷ [])

-- `_add_event_name`
abbrev pub add_event_name : List String → Value → List String
add_event_name ns (str s) = if str_eq s "" then ns else add_name s ns
add_event_name ns _ = ns

abbrev pub add_all : List String → List Value → List String
add_all ns [] = ns
add_all ns (v ∷ vs) = add_all (add_event_name ns v) vs

abbrev event_of : Value → Value
event_of (dict fs) = get "event" fs
event_of _ = null

abbrev matchers_of : Value → List Value
matchers_of (list xs) = elements xs
matchers_of (dict fs) = dict fs ∷ []
matchers_of _ = []

-- `_add_matcher_event_names`
unfoldable pub add_matcher_names : Fields → List String → List String
unfolding get
add_matcher_names rule ns =
    add_all
      (add_all (add_all ns (map event_of (matchers_of (get "present" rule))))
        (map event_of (matchers_of (get "absent" rule))))
      (map event_of (matchers_of (get "forbid" rule)))

abbrev part_name : Value → Value
part_name (str s) = str s
part_name v = event_of v

-- `_add_ordered_event_names`
unfoldable pub add_ordered_names : Fields → List String → Result (List String)
unfolding get truthy iterate
add_ordered_names rule ns = iterate (or_else (get "must_order" rule) (list nil)) >>= λ parts.
    ok (add_all ns (map part_name parts))

-- The event of a nested side, if there is one
abbrev side_event : Value → String → Value
side_event (dict fs) side = event_of (get side fs)
side_event _ side = null

abbrev text_only : Value → Value
text_only (str s) = str s
text_only _ = null

-- `_add_nested_event_names`
unfoldable pub add_nested_names : Fields → List String → Result (List String)
unfolding get truthy iterate
add_nested_names rule ns = iterate (or_else (get "events" rule) (list nil)) >>= λ es. ok (
    add_all ns (
      side_event (get "ratioMetric" rule) "good"
      ∷ side_event (get "ratioMetric" rule) "total"
      ∷ side_event (get "invariant" rule) "left"
      ∷ side_event (get "invariant" rule) "right"
      ∷ side_event (get "metamorphic" rule) "a"
      ∷ side_event (get "metamorphic" rule) "b"
      ∷ event_of (get "duration" rule)
      ∷ event_of (get "aggregate" rule)
      ∷ get "heartbeat" rule
      ∷ text_only (get "conforms" rule)
      ∷ get "event" rule
      ∷ es))

abbrev resolver_of : Option String → List Handler → Option (Fields → Result (List Value))
resolver_of none hs = none
resolver_of (some k) [] = none
resolver_of (some k) (h ∷ hs) = if str_eq h.key k then h.event_names else resolver_of (some k) hs

abbrev resolved : Option (Fields → Result (List Value)) → Fields → Result (List Value)
resolved none rule = ok []
resolved (some f) rule = f rule

-- `rule_event_names` with a registry
unfoldable pub rule_event_names : Fields → List Handler → Result (List String)
unfolding add_matcher_names add_ordered_names add_nested_names detect_check_key
rule_event_names rule registry = do
  ns ← add_ordered_names rule (add_matcher_names rule [])
  ms ← add_nested_names rule ns
  key ← detect_check_key rule registry
  vs ← resolved (resolver_of key registry) rule
  ok (add_all ms vs)
