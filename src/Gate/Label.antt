-- ===== src/Gate/Label.antt =====
-- `join_matchers` and `label` of src/ooptdd/engine/gate_rules.py: the handle of a check.
use Prim.Native.String.{◌++◌ as ◌++ₛ◌}
use ooptdd.Base.{String, List, [], ◌∷◌, map, map_m, if◌then◌else◌, Result, ok, raise, Error, ◌>>=◌}
use ooptdd.Value.{Value, Fields, str, list, dict, get, has_key, truthy, items_of}
use ooptdd.Builtins.{Builtins}
use ooptdd.Match.Label.{join_entries}
use ooptdd.Monitor.Compile.{get_or}
use ooptdd.Gate.Rules.{elements, iterate, or_else}

-- `str(v)`
abbrev pub text_of : Builtins → Value → String
text_of py (str s) = s
text_of py v = py.show v

-- `sep.join(…)`
abbrev pub join : String → List String → String
join sep [] = ""
join sep (s ∷ []) = s
join sep (s ∷ t ∷ ts) = s ++ₛ (sep ++ₛ join sep (t ∷ ts))

abbrev matcher_text : Builtins → Value → String
matcher_text py (dict fs) =
    text_of py (or_else (or_else (get "event" fs) (get "where" fs)) (dict fs))
matcher_text py v = text_of py v

abbrev one_or_many : Value → List Value
one_or_many (list xs) = elements xs
one_or_many v = v ∷ []

-- `join_matchers`
unfoldable pub join_matchers : Builtins → Value → String
unfolding get truthy
join_matchers py v = join "," (map (matcher_text py) (one_or_many v))

-- `">".join(v)` takes texts only.
abbrev only_text : Value → Result String
only_text (str s) = ok s
only_text _ = raise Error.type_error

abbrev invariant_text : Value → String
invariant_text (str s) = s
invariant_text _ = "expr"

-- The end of `label`, for a check that no key names
unfoldable pub matcher_handle : Builtins → Fields → Result String
unfolding get truthy join_entries
matcher_handle py check =
    if truthy (get "event" check)
    then ok (text_of py (get "event" check))
    else if truthy (get "where" check)
    then (items_of (get "where" check) >>= λ fs. ok ("where:" ++ₛ join_entries py fs))
    else ok "(any)"

abbrev ordered_text : Builtins → Value → Result String
ordered_text py v =
    iterate v >>= λ vs. map_m only_text vs >>= λ ts. ok ("must_order:" ++ₛ join ">" ts)

-- `label`: the first key of the ladder decides.
unfoldable pub label : Builtins → Fields → Result String
unfolding has_key get iterate join_matchers matcher_handle get_or
label py check =
    if has_key "label" check
    then ok (text_of py (get "label" check))
    else if has_key "external" check
    then ok ("external:" ++ₛ text_of py (get "external" check))
    else if has_key "metamorphic" check
    then ok ("metamorphic:" ++ₛ text_of py (get "metamorphic" check))
    else if has_key "invariant" check
    then ok ("invariant:" ++ₛ invariant_text (get "invariant" check))
    else if has_key "conforms" check
    then ok ("conforms:" ++ₛ text_of py (get "conforms" check))
    else if has_key "heartbeat" check
    then ok (
        "heartbeat:"
        ++ₛ (text_of py (get "heartbeat" check)
            ++ₛ ("@" ++ₛ (text_of py (get "every_s" check) ++ₛ "s"))))
    else if has_key "must_order" check
    then ordered_text py (get "must_order" check)
    else if has_key "present" check
    then ok ("present:" ++ₛ join_matchers py (get "present" check))
    else if has_key "absent" check
    then ok ("absent:" ++ₛ join_matchers py (get "absent" check))
    else if has_key "ratio" check
    then ok (
        "ratio:"
        ++ₛ (text_of py (get "ratio" check)
            ++ₛ (text_of py (get_or "op" (str "") check)
                ++ₛ text_of py (get_or "want" (str "") check))))
    else matcher_handle py check
