-- ===== src/Gate/Decorate.antt =====
-- `_decorate_check` and `_decorate_grounding` of src/ooptdd/engine/gate_kernel.py.
use Prim.Native.Char.{code}
use Prim.Native.String.{◌∷◌ as ◌∷ₛ◌, [] as empty}
use ooptdd.Base.{
  Bool, false, ◌&&◌, not, Option, none, some, String, str_eq, List, ◌==◌, if◌then◌else◌, Result, ok,
  raise, Error, ◌>>=◌,
}
use ooptdd.Value.{num, float, Value, Fields, bool, get, has_key, set_key, truthy, is_null}
use ooptdd.Builtins.{Builtins}
use ooptdd.Monitor.Compile.{get_or}
use ooptdd.Gate.Values.{Handler, GateSource}
use ooptdd.Gate.Rules.{finite_gate_number, strength, zero_f, one_f}
use ooptdd.Gate.Label.{label, text_of}
use ooptdd.Gate.Charged.{check_charged}
use ooptdd.Gate.Scope.{Check, Grounding, corroborated, derived_self}

-- `s.rstrip("/")`
unfoldable pub rstrip : String → String
rstrip empty = empty
rstrip (c ∷ₛ s) = let rest = rstrip s in if (code c == 47) && str_eq rest "" then "" else c ∷ₛ rest

abbrev exact_bool : Value → Result Bool
exact_bool (bool b) = ok b
exact_bool _ = raise Error.value_error

-- `raw["passed"]`, which has to be a `bool`
unfoldable pub passed_of : Fields → Result Bool
unfolding get
passed_of raw = exact_bool (get "passed" raw)

abbrev same_identity : Builtins → Value → Option String → Bool
same_identity py v none = false
same_identity py v (some e) = not (is_null v) && str_eq (rstrip (text_of py v)) (rstrip e)

-- Does an external check read the endpoint that the events came from?
unfoldable pub same_endpoint : Builtins → Fields → String → GateSource → Bool
unfolding get rstrip
same_endpoint py raw s source =
    str_eq s "external" && same_identity py (get "derived_identity" raw) source.emit_identity

-- `effective_separate` decides the grounding.
unfoldable pub grounding_of : Builtins → Fields → String → GateSource → Grounding
unfolding get truthy same_endpoint
grounding_of py raw s source =
    if str_eq s "external"
      && (truthy (get "separate_source" raw) && not (same_endpoint py raw s source))
    then corroborated
    else derived_self

-- The label of the rule, where the handler gave none
unfoldable pub labelled : Fields → Fields → Fields
unfolding has_key get set_key
labelled raw rule =
    if has_key "label" rule && not (has_key "label" raw)
    then set_key "label" (get "label" rule) raw
    else raw

abbrev pub kind_of : Option String → String
kind_of none = "count"
kind_of (some k) = if str_eq k "" then "count" else k

-- `_decorate_check`
unfoldable pub decorate_check :
    Builtins
    → Fields
    → Fields
    → Option String
    → GateSource
    → List Handler
    → List (String × String)
    → Result Check
unfolding passed_of finite_gate_number get_or strength label labelled check_charged grounding_of
    same_endpoint truthy get
decorate_check py raw rule key source registry table = do
  p ← passed_of raw
  w ← finite_gate_number py (get_or "weight" (num (float one_f)) rule) (some zero_f) none
  s ← strength rule registry table
  l ← label py (labelled raw rule)
  c ← check_charged (labelled raw rule)
  ok (record {
    raw = raw;
    passed = p;
    optional = truthy (get "optional" rule);
    pending = truthy (get "pending" rule);
    tautological = truthy (get "tautological" raw);
    weight = w;
    strength = s;
    kind = kind_of key;
    label = l;
    demoted_same_endpoint = same_endpoint py raw s source && truthy (get "separate_source" raw);
    grounding = grounding_of py raw s source;
    charged = c;
  })
