-- ===== src/Match/Label.antt =====
-- The texts by which results name their matchers: `_matcher_label` and `_brief` of
-- src/ooptdd/engine/monitor.py.
use Prim.Native.String.{◌++◌}
use ooptdd.Base.{none, some, String, str_eq, if◌then◌else◌, List, [], ◌∷◌, Result, ok, ◌>>=◌, map}
use ooptdd.Value.{
  Value, Items, Fields, str, list, dict, nil, cons, end, field, find_key, get, truthy, items_of,
  Event,
}
use ooptdd.Builtins.{Builtins}
use ooptdd.Match.{Matcher}

-- `",".join(f"{k}={v}" for k, v in where.items())`
unfoldable pub join_entries : Builtins → Fields → String
join_entries py end = ""
join_entries py (field k v end) = k ++ ("=" ++ py.show v)
join_entries py (field k v (field l w fs)) =
    k ++ ("=" ++ (py.show v ++ ("," ++ join_entries py (field l w fs))))

-- `event or ("where:" + …) or "(any)"`: the second text is never empty.
abbrev text_or_any : String → String
text_or_any s = if str_eq s "" then "(any)" else s

-- `_matcher_label`
unfoldable pub matcher_label : Builtins → Matcher → Result Value
unfolding join_entries truthy
matcher_label py m =
    if truthy m.event
    then ok m.event
    else items_of m.where_ >>= λ fs. ok (str (text_or_any ("where:" ++ join_entries py fs)))

-- The keys that `_brief` shows, where the event has them
abbrev brief_keys : List String
brief_keys = "event" ∷ "level" ∷ "message" ∷ "msg" ∷ "error" ∷ "exc" ∷ "_timestamp" ∷ []

unfoldable pub project : List String → Event → Fields
unfolding find_key
project [] ev = end
project (k ∷ ks) ev = elim (find_key k ev) [
  | none ↦ project ks ev
  | some v ↦ field k v (project ks ev)
]

abbrev or_event : Value → Fields → Fields
or_event e end = field "event" e end
or_event e fs = fs

-- `_brief`
unfoldable pub brief : Event → Fields
unfolding project get
brief ev = or_event (get "event" ev) (project brief_keys ev)

abbrev pub items : List Value → Items
items [] = nil
items (v ∷ vs) = cons v (items vs)

abbrev pub briefs : List Event → Value
briefs evs = list (items (map (λ ev. dict (brief ev)) evs))
