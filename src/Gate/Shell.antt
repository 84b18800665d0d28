-- ===== src/Gate/Shell.antt =====
-- `evaluate_events` of src/ooptdd/engine/gate.py: the shell that closes the input of the kernel.
use ooptdd.Base.{
  ℕ, suc, Bool, true, false, Option, none, some, String, str_eq, List, [], ◌∷◌, ◌++◌, any, find,
  if◌then◌else◌, ◌==◌, Result, ok, raise, Error, ◌>>=◌,
}
use ooptdd.Value.{Value, Fields, Event, null, bool, str, dict, end, get, truthy}
use ooptdd.Builtins.{Builtins}
use ooptdd.Ontology.{Ontology}
use ooptdd.Chain.{Crypto}
use ooptdd.Poll.Sorting.{sorted}
use ooptdd.Monitor.Compile.{get_or}
use ooptdd.Gate.Values.{Handler, Origin, ExternalObservation, GatePolicy, GateEvaluation}
use ooptdd.Gate.Rules.{or_else, lookup_text, detect_check_key, allowed_errors, expand_rules}
use ooptdd.Gate.Label.{text_of}
use ooptdd.Gate.Kernel.{
  handler_of, the_handler, as_mapping, as_dict, context, judge_events, GateResult,
}
use ooptdd.Gate.Handlers.{monitor_check, core_registry}

-- The names of the environment that a gate reads
pub record EnvironmentKeys : Type 0 where
  pub cid : String
  pub signing_key : String
  pub require_signature : String
  pub forbid_errors : String
  pub require_corroboration : String
  pub require_independent_store : String

abbrev pub Environ : Type 0
Environ = List (String × String)

abbrev pub true_values : List String
true_values = "1" ∷ "true" ∷ "yes" ∷ "on" ∷ []

abbrev pub false_values : List String
false_values = "0" ∷ "false" ∷ "no" ∷ "off" ∷ []

abbrev pub one_of : List String → String → Bool
one_of ss s = any (str_eq s) ss

-- `_truthy(values.get(env_key))`
abbrev pub set_in : Builtins → Option String → Bool
set_in py none = false
set_in py (some s) = one_of true_values (py.lowered s)

-- The body of `flag`
unfoldable pub flag : Builtins → Value → Option String → Result Bool
unfolding truthy
flag py null env = ok (set_in py env)
flag py (bool b) env = ok b
flag py (str s) env =
    if one_of true_values (py.lowered s)
    then ok true
    else if one_of false_values (py.lowered s)
    then ok false
    else raise Error.value_error
flag py v env = ok (truthy v)

-- `resolve_gate_policy`
unfoldable pub resolve_gate_policy :
    Builtins → Fields → Environ → EnvironmentKeys → Result GatePolicy
unfolding flag get
resolve_gate_policy py spec environ keys = do
  errors ← flag py (get "forbid_errors" spec) (lookup_text keys.forbid_errors environ)
  corroboration ←
      flag py (get "require_corroboration" spec) (lookup_text keys.require_corroboration environ)
  signature ← flag py (get "require_signature" spec) (lookup_text keys.require_signature environ)
  independent ←
      flag py (get "require_independent_store" spec)
        (lookup_text keys.require_independent_store environ)
  ok (record {
    forbid_errors = errors;
    require_corroboration = corroboration;
    require_signature = signature;
    signing_key = lookup_text keys.signing_key environ;
    require_independent_store = independent;
  })

abbrev nonempty_text : Option String → Result String
nonempty_text none = raise Error.value_error
nonempty_text (some s) = if str_eq s "" then raise Error.value_error else ok s

-- `_resolve_cid`
unfoldable pub resolve_cid : Builtins → Fields → Environ → EnvironmentKeys → Result String
unfolding get truthy
resolve_cid py spec environ keys =
    if truthy (get "cid" spec)
    then ok (text_of py (get "cid" spec))
    else nonempty_text (lookup_text (text_of py (get_or "cid_env" (str keys.cid) spec)) environ)

-- `ExternalProbe.probe`
abbrev pub Probe : Type 0
Probe = String → Value → String → Result ExternalObservation

-- The arguments of `evaluate_events` but the events and how they were read
pub record Request : Type 0 where
  pub spec : Fields
  pub ontology : Option Ontology
  pub cid : Option String
  pub probe : Option Probe
  pub emit_backend : Option String
  pub emit_identity : Option String
  pub emit_independent : Option Bool
  pub emit_sampled : Bool
  pub policy : Option GatePolicy
  -- The registry without `__count__`, and that handler
  pub registry : Option (List Handler)
  pub count_handler : Option Handler
  pub strength_by_key : List (String × String)
  pub environ : Environ
  pub env_keys : EnvironmentKeys

-- `_STRENGTH_BY_KEY`
abbrev pub core_strengths : List (String × String)
core_strengths =
    ("absent", "forbid")
    ∷ ("must_order", "ordered")
    ∷ ("ratioMetric", "ratio")
    ∷ ("heartbeat", "liveness")
    ∷ ("conforms", "conformance")
    ∷ ("invariant", "invariant")
    ∷ ("metamorphic", "metamorphic")
    ∷ ("external", "external")
    ∷ ("duration", "threshold")
    ∷ ("aggregate", "threshold")
    ∷ []

abbrev declared : Option String → String → List (String × String) → List (String × String)
declared none k rest = rest
declared (some s) k rest = if str_eq s "" then rest else (k, s) ∷ rest

abbrev declared_strengths : List Handler → List (String × String)
declared_strengths [] = []
declared_strengths (h ∷ hs) = declared h.strength h.key (declared_strengths hs)

-- `check_strengths`, and the table of the caller over it: the first entry of a key counts.
abbrev pub strengths : List (String × String) → List Handler → List (String × String)
strengths own handlers = own ++ (declared_strengths handlers ++ core_strengths)

abbrev pub or_default {ℓ} : {A : Type ℓ} → A → Option A → A
or_default a none = a
or_default a (some b) = b

abbrev probes : Origin → Bool
probes Origin.external_probe = true
probes _ = false

abbrev pub is_external_probe : Option Handler → Bool
is_external_probe none = false
is_external_probe (some h) = probes h.origin

abbrev extends_gate : Origin → Bool
extends_gate Origin.extension = true
extends_gate _ = false

abbrev pub is_extension : Handler → Bool
is_extension h = extends_gate h.origin

abbrev kind_text : Value → Result String
kind_text (str s) = if str_eq s "" then raise Error.value_error else ok s
kind_text _ = raise Error.value_error

-- The probe of an external rule
unfoldable pub observe : Probe → String → Value → Result (Option ExternalObservation)
unfolding get
observe probe cid (dict external) = do
  kind ← kind_text (get "kind" external)
  o ← probe kind (get "selector" external) cid
  ok (some o)
observe probe cid _ = ok none

abbrev pub put {ℓ} : {A : Type ℓ} → ℕ → Option A → List (ℕ × A) → List (ℕ × A)
put i none rest = rest
put i (some a) rest = (i, a) ∷ rest

-- The loop of `_capture_external_observations`
unfoldable pub capture_external_from :
    Probe
    → String
    → List Handler
    → Option Handler
    → ℕ
    → List Fields
    → Result (List (ℕ × ExternalObservation))
unfolding detect_check_key observe get
capture_external_from probe cid handlers count index [] = ok []
capture_external_from probe cid handlers count index (rule ∷ rules) = do
  key ← detect_check_key rule handlers
  o ←
      if is_external_probe (selected handlers count key)
      then observe probe cid (get "external" rule)
      else ok none
  rest ← capture_external_from probe cid handlers count (suc index) rules
  ok (put index o rest)
  where
    selected : List Handler → Option Handler → Option String → Option Handler
    selected handlers count none = count
    selected handlers count (some k) = find (λ (h : Handler). str_eq h.key k) handlers

-- `_capture_external_observations`
unfoldable pub capture_external_observations :
    Builtins
    → Fields
    → GatePolicy
    → Option Probe
    → String
    → List Handler
    → Option Handler
    → Result (List (ℕ × ExternalObservation))
unfolding expand_rules capture_external_from
capture_external_observations py spec policy none cid handlers count = ok []
capture_external_observations py spec policy (some probe) cid handlers count =
    expand_rules py spec policy >>= λ rules. capture_external_from probe cid handlers count 0 rules

-- The call of an extension, whose context has no captured observation
unfoldable pub call_extension : GateEvaluation → List Event → Fields → Handler → Result Fields
unfolding get truthy allowed_errors
call_extension e events rule h = do
  indicators ← as_mapping (or_else (get "indicators" e.spec) (dict end))
  allow ← allowed_errors e.spec
  v ← h.run events rule (context e indicators allow none)
  as_dict v

-- The loop of `_capture_custom_check_results`
unfoldable pub capture_custom_from :
    GateEvaluation → List Event → ℕ → List Fields → Result (List (ℕ × Fields))
unfolding detect_check_key call_extension
capture_custom_from e events index [] = ok []
capture_custom_from e events index (rule ∷ rules) = do
  key ← detect_check_key rule e.registry
  h ← the_handler (handler_of e key)
  o ← if is_extension h then (call_extension e events rule h >>= λ raw. ok (some raw)) else ok none
  rest ← capture_custom_from e events (suc index) rules
  ok (put index o rest)

-- `_capture_custom_check_results`
unfoldable pub capture_custom_check_results : Builtins → GateEvaluation → Result (List (ℕ × Fields))
unfolding sorted expand_rules capture_custom_from
capture_custom_check_results py e = do
  events ← sorted e.events
  rules ← expand_rules py e.spec e.policy
  capture_custom_from e events 0 rules

abbrev pub at_index {ℓ} : {A : Type ℓ} → List (ℕ × A) → ℕ → Option A
at_index [] i = none
at_index ((j, a) ∷ ps) i = if j == i then some a else at_index ps i

abbrev pub given {ℓ} : {A : Type ℓ} → Option A → Result A → Result A
given none r = r
given (some a) r = ok a

-- The evaluation before the extensions are called
unfoldable pub close_input : Builtins → Request → List Event → Bool → Bool → Result GateEvaluation
unfolding resolve_cid resolve_gate_policy capture_external_observations
close_input py q events reachable complete = do
  cid ← given q.cid (resolve_cid py q.spec q.environ q.env_keys)
  policy ← given q.policy (resolve_gate_policy py q.spec q.environ q.env_keys)
  let handlers = or_default (core_registry py) q.registry
  let count = or_default (monitor_check py "__count__") q.count_handler
  observations ← capture_external_observations py q.spec policy q.probe cid handlers (some count)
  ok (record {
    spec = q.spec;
    events = events;
    policy = policy;
    source = record {
      cid = cid;
      reachable = reachable;
      complete = complete;
      emit_backend = q.emit_backend;
      emit_identity = q.emit_identity;
      emit_independent = q.emit_independent;
      emit_sampled = q.emit_sampled;
    };
    registry = handlers;
    count_handler = some count;
    strength_by_key = strengths q.strength_by_key handlers;
    external_observations = at_index observations;
    captured_check_results = λ _. none;
    ontology = q.ontology;
  })

-- `evaluate_events`
unfoldable pub evaluate_events :
    Builtins → Crypto → Request → List Event → Bool → Bool → Result GateResult
unfolding close_input capture_custom_check_results judge_events
evaluate_events py crypto q events reachable complete = do
  e ← close_input py q events reachable complete
  captured ← capture_custom_check_results py e
  judge_events py crypto (record e { captured_check_results = at_index captured })
