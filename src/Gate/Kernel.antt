-- ===== src/Gate/Kernel.antt =====
-- src/ooptdd/engine/gate_kernel.py: the judgement of closed values.
use ooptdd.Base.{
  ℕ, suc, Bool, true, false, ◌&&◌, ◌||◌, not, Option, none, some, String, str_eq, List, [], ◌∷◌,
  any, all, keep, find, map, if◌then◌else◌, ◌==◌, Result, ok, raise, raise_if, Error, ◌>>=◌, ◌>>◌,
  pos,
}
use ooptdd.Value.{
  Float, Number, int, float, le, ge, apply_op, Value, Fields, Event, bool, dict, end, get, is_null,
  truthy,
}
use ooptdd.Builtins.{Builtins}
use ooptdd.Chain.{Crypto, Report, intact, broken, verify_chain, project, underscored}
use ooptdd.Poll.Sorting.{sorted}
use ooptdd.Gate.Values.{
  CheckCtx, Handler, ExternalObservation, GatePolicy, GateSource, GateEvaluation,
}
use ooptdd.Gate.Rules.{
  or_else, finite_only, gate_threshold, allowed_errors, detect_check_key, expand_rules,
}
use ooptdd.Gate.Scope.{
  Check, is_gating, is_some_check, corroborations, labels_of, Scope, scope, Oracle, oracle,
}
use ooptdd.Gate.Decorate.{decorate_check}

-- `registry.get(key or "__count__")`
abbrev pub handler_of : GateEvaluation → Option String → Option Handler
handler_of e none = e.count_handler
handler_of e (some k) = find (λ (h : Handler). str_eq h.key k) e.registry

abbrev pub as_dict : Value → Result Fields
as_dict (dict fs) = ok fs
as_dict _ = raise Error.value_error

abbrev pub as_mapping : Value → Result Fields
as_mapping (dict fs) = ok fs
as_mapping _ = raise Error.type_error

abbrev pub context : GateEvaluation → Fields → List Fields → Option ExternalObservation → CheckCtx
context e indicators allow observation = record {
  reachable = e.source.reachable && e.source.complete;
  indicators = indicators;
  ontology = e.ontology;
  allow_errors = allow;
  external_observation = observation;
  cid = e.source.cid;
}

-- What was captured for the rule, or what its handler returns
abbrev pub raw_of : GateEvaluation → ℕ → Handler → List Event → Fields → CheckCtx → Result Value
raw_of e index h events rule ctx = elim (e.captured_check_results index) [
  | some fs ↦ ok (dict fs)
  | none ↦ h.run events rule ctx
]

abbrev pub the_handler : Option Handler → Result Handler
the_handler none = raise Error.value_error
the_handler (some h) = ok h

-- The body of the loop of `evaluate_checks`
unfoldable pub evaluate_check :
    Builtins → GateEvaluation → Fields → List Fields → List Event → ℕ → Fields → Result Check
unfolding detect_check_key decorate_check
evaluate_check py e indicators allow events index rule = do
  key ← detect_check_key rule e.registry
  h ← the_handler (handler_of e key)
  value ← raw_of e index h events rule (context e indicators allow (e.external_observations index))
  raw ← as_dict value
  decorate_check py raw rule key e.source e.registry e.strength_by_key

-- The loop of `evaluate_checks`, from the rule with index `index`
unfoldable pub evaluate_from :
    Builtins
    → GateEvaluation
    → Fields
    → List Fields
    → List Event
    → ℕ
    → List Fields
    → Result (List Check)
unfolding evaluate_check
evaluate_from py e indicators allow events index [] = ok []
evaluate_from py e indicators allow events index (rule ∷ rules) = do
  c ← evaluate_check py e indicators allow events index rule
  cs ← evaluate_from py e indicators allow events (suc index) rules
  ok (c ∷ cs)

-- `evaluate_checks`
unfoldable pub evaluate_checks :
    Builtins → GateEvaluation → List Event → List Fields → Result (List Check)
unfolding get truthy allowed_errors evaluate_from
evaluate_checks py e events rules = do
  indicators ← as_mapping (or_else (get "indicators" e.spec) (dict end))
  allow ← allowed_errors e.spec
  evaluate_from py e indicators allow events 0 rules

-- `sum(c["weight"] for c in …)`
abbrev pub weights : Builtins → List Check → Number
weights py cs = py.total (map (λ (c : Check). float c.weight) cs)

abbrev pub finite_weight : Number → Result Number
finite_weight (int z) = ok (int z)
finite_weight (float f) = finite_only f >>= λ g. ok (float g)

pub record Outcome : Type 0 where
  pub required_ok : Bool
  pub score : Option Float
  pub threshold : Option Float

abbrev pub passed_checks : List Check → List Check
passed_checks cs = keep (λ (c : Check). c.passed) cs

-- The weighted part of `_required_outcome`
unfoldable pub weighted : Builtins → List Check → Value → Result Outcome
unfolding gate_threshold
weighted py checks threshold = do
  t ← gate_threshold py threshold
  total ← finite_weight (weights py checks)
  raise_if (apply_op le total (int (pos 0))) Error.value_error
  passed ← finite_weight (weights py (passed_checks checks))
  ok (record {
    required_ok = apply_op ge (float (py.quotient passed total)) (float t);
    score = some (py.quotient passed total);
    threshold = some t;
  })

-- `_required_outcome`
unfoldable pub required_outcome : Builtins → List Check → Value → Result Outcome
unfolding weighted
required_outcome py checks threshold =
    if is_null threshold
    then ok (record {
      required_ok = all (λ (c : Check). c.passed) checks;
      score = none;
      threshold = none;
    })
    else weighted py checks threshold

abbrev pub is_intact : Report → Bool
is_intact intact = true
is_intact (broken i r) = false

abbrev pub stripped : List Event → List Event
stripped evs = map (project (λ k. not (underscored k))) evs

-- `_authentication`
unfoldable pub authentication : Crypto → GatePolicy → List Event → Bool → Result (Option Bool)
unfolding verify_chain
authentication crypto policy events asserts =
    if not policy.require_signature || not asserts then ok none else elim policy.signing_key [
      | none ↦ ok (some false)
      | some k ↦
          if str_eq k ""
          then ok (some false)
          else (verify_chain crypto (stripped events) k false none none >>= λ r.
              ok (some (is_intact r)))
    ]

-- The dictionary that `_build_result` returns
pub record GateResult : Type 0 where
  pub ok? : Bool
  pub reachable : Bool
  pub complete : Bool
  pub probe_reachable : Bool
  pub vacuous : Bool
  pub uncorroborated : Bool
  pub unauthenticated : Bool
  pub dependent_store : Bool
  pub authenticated : Option Bool
  pub cid : String
  pub checks : List Check
  pub oracle : Oracle
  pub scope : Scope
  pub optional_failed : List String
  pub pending_failed : List String
  pub pending_satisfied : List String
  pub score : Option Float
  pub threshold : Option Float
  pub sampled : Bool

-- `v is False`
abbrev exactly_false : Value → Bool
exactly_false (bool b) = not b
exactly_false _ = false

abbrev pub is_true : Option Bool → Bool
is_true none = false
is_true (some b) = b

abbrev is_false : Option Bool → Bool
is_false none = false
is_false (some b) = not b

-- The three wings of the policy that can hold a verdict back
abbrev pub lacks_corroboration : GatePolicy → List Check → Bool
lacks_corroboration policy gating =
    policy.require_corroboration && (is_some_check gating && (corroborations gating == 0))

abbrev pub lacks_authentication : GatePolicy → List Check → Option Bool → Bool
lacks_authentication policy gating authenticated =
    policy.require_signature && (is_some_check gating && not (is_true authenticated))

abbrev pub depends_on_store : GateSource → GatePolicy → List Check → Bool
depends_on_store source policy gating =
    policy.require_independent_store
    && (is_some_check gating && (is_false source.emit_independent && (corroborations gating == 0)))

-- The entry `ok`
abbrev pub is_green : GateEvaluation → List Check → Outcome → Option Bool → Bool
is_green e gating outcome authenticated =
    e.source.reachable
    && (e.source.complete
        && (is_some_check gating
            && (outcome.required_ok
                && (not (lacks_corroboration e.policy gating)
                    && (not (lacks_authentication e.policy gating authenticated)
                        && not (depends_on_store e.source e.policy gating))))))

abbrev pub result_of :
    GateEvaluation → List Check → List Check → Outcome → Option Bool → Scope → GateResult
result_of e checks gating outcome authenticated scope = record {
  ok? = is_green e gating outcome authenticated;
  reachable = e.source.reachable;
  complete = e.source.complete;
  probe_reachable = not (any (λ (c : Check). exactly_false (get "probe_reachable" c.raw)) checks);
  vacuous = is_some_check checks && not (is_some_check gating);
  uncorroborated = lacks_corroboration e.policy gating;
  unauthenticated = lacks_authentication e.policy gating authenticated;
  dependent_store = depends_on_store e.source e.policy gating;
  authenticated = authenticated;
  cid = e.source.cid;
  checks = checks;
  oracle = oracle e.source e.policy gating (corroborations gating);
  scope = scope;
  optional_failed = labels_of (keep (λ (c : Check). c.optional && not c.passed) checks);
  pending_failed = labels_of (keep (λ (c : Check). c.pending && not c.passed) checks);
  pending_satisfied = labels_of (keep (λ (c : Check). c.pending && c.passed) checks);
  score = outcome.score;
  threshold = outcome.threshold;
  sampled = e.source.emit_sampled;
}

-- `_build_result`
unfoldable pub build_result :
    Builtins → Crypto → GateEvaluation → List Check → List Fields → Result GateResult
unfolding get required_outcome authentication scope oracle corroborations
build_result py crypto e checks rules = do
  outcome ← required_outcome py (keep is_gating checks) (get "threshold" e.spec)
  authenticated ← authentication crypto e.policy e.events (is_some_check (keep is_gating checks))
  sc ← scope py checks (keep is_gating checks) e.events rules e.registry
  ok (result_of e checks (keep is_gating checks) outcome authenticated sc)

-- `judge_events`
unfoldable pub judge_events : Builtins → Crypto → GateEvaluation → Result GateResult
unfolding sorted expand_rules evaluate_checks build_result
judge_events py crypto e = do
  events ← sorted e.events
  rules ← expand_rules py e.spec e.policy
  checks ← evaluate_checks py e events rules
  build_result py crypto e checks rules
