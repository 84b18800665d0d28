-- ===== src/Ouroboros/Reducer.antt =====
-- src/ooptdd/ouroboros/reducer.py and the port `PolicyEvaluator` of src/ooptdd/ouroboros/ports.py.
use ooptdd.Base.{
  suc, Bool, true, false, ◌&&◌, ◌||◌, Option, none, some, String, str_eq, List, [], ◌∷◌, ◌++◌, any,
  all, find, not, leb, if◌then◌else◌, Result, ok, raise, Error, ◌>>=◌,
}
use ooptdd.Value.{Fields}
use ooptdd.Ouroboros.Model.{
  Host, mem, ProtocolDefinition, ProtocolEvent, ProtocolSnapshot, TransitionRecord, TransitionRule,
  PayloadValidator, CompletionPolicy, CompletionEvidence, RecoveryPolicy, keyed, construct,
  record_ok, snapshot_ok,
}

-- The behaviour behind `definition` is the caller's, and may raise; `none` is a value that is no
-- `CompletionEvidence`.
pub record PolicyEvaluator : Type 0 where
  pub definition : ProtocolDefinition
  pub version : String
  pub policy_digest : String
  pub validate_payload : String → String → Fields → Result Bool
  pub evaluate_completion : String → Fields → Result (Option CompletionEvidence)

pub data Rejection : Type 0 where
  policy_mismatch event_identity_conflict step_budget_exhausted unknown_state terminal_state :
      Rejection
  unknown_event unknown_transition invalid_payload recovery_policy_denied : Rejection
  completion_policy_failed evaluator_failure : Rejection

pub record TransitionResult : Type 0 where
  pub accepted : Bool
  pub replayed : Bool
  pub snapshot : ProtocolSnapshot
  pub rejection_code : Option Rejection

-- `_reject`
abbrev pub reject : ProtocolSnapshot → Rejection → TransitionResult
reject s code = record {
  accepted = false;
  replayed = false;
  snapshot = s;
  rejection_code = some code;
}

abbrev pub accept : Bool → ProtocolSnapshot → TransitionResult
accept replayed s = record {
  accepted = true;
  replayed = replayed;
  snapshot = s;
  rejection_code = none;
}

-- `set(xs) <= set(ys)`
abbrev pub subset : List String → List String → Bool
subset xs ys = all (λ x. mem x ys) xs

-- `_completion_holds`
unfoldable pub completion_holds : CompletionPolicy → Option CompletionEvidence → Bool
completion_holds p none = false
completion_holds p (some e) =
    e.satisfied
    && (subset p.required_authorities e.authorities && subset p.required_artifacts e.artifacts)

-- `next(item for item in validators if item.name == name)`: `StopIteration` without one
abbrev find_validator : String → List PayloadValidator → Result PayloadValidator
find_validator n vs = elim (find (λ (v : PayloadValidator). str_eq v.name n) vs) [
  | none ↦ raise Error.runtime_error
  | some v ↦ ok v
]

-- Does the payload pass the validator of the rule, if it has one?
unfoldable pub payload_valid : PolicyEvaluator → Option String → Fields → Result Bool
payload_valid ev none payload = ok true
payload_valid ev (some n) payload =
    if str_eq n ""
    then ok true
    else find_validator n ev.definition.validators >>= λ (v : PayloadValidator).
        ev.validate_payload v.name v.version payload

abbrev recovers : String → String → String × String → Bool
recovers state kind p = str_eq p.0 state && str_eq p.1 kind

-- A recovery state takes only the events that the policy allows there.
unfoldable pub recovery_allows : RecoveryPolicy → String → String → Bool
recovery_allows p state kind =
    not (any (λ (q : String × String). str_eq q.0 state) p.allowed)
    || any (recovers state kind) p.allowed

-- A transition into a terminal state needs the evidence of completion.
unfoldable pub completes : PolicyEvaluator → String → Fields → Result Bool
unfolding completion_holds
completes ev target payload =
    if mem target ev.definition.completion.terminal_states
    then (ev.evaluate_completion ev.definition.completion.version payload
        >>= (λ evidence. ok (completion_holds ev.definition.completion evidence)))
    else ok true

-- The record of an accepted transition
abbrev pub record_of :
    Host → String → ProtocolSnapshot → ProtocolEvent → TransitionRule → TransitionRecord
record_of host digest s e rule = record {
  event_id = e.event_id;
  kind = e.kind;
  source = s.state;
  target = rule.target;
  intent_digest = host.intent_digest e;
  policy_digest = digest;
}

abbrev pub extended : ProtocolSnapshot → TransitionRecord → ProtocolSnapshot
extended s r = record s {
  state = r.target;
  revision = suc s.revision;
  steps_used = suc s.steps_used;
  history = s.history ++ (r ∷ []);
}

-- Both constructors check their arguments.
unfoldable pub commit :
    Host → String → ProtocolSnapshot → ProtocolEvent → TransitionRule → Result TransitionResult
commit host digest s e rule =
    let r = record_of host digest s e rule in
    construct (record_ok host r) r >>= λ r'.
    construct (snapshot_ok host (extended s r')) (extended s r') >>= λ s'. ok (accept false s')

-- The guards that need the rule
unfoldable pub apply_rule :
    Host
    → PolicyEvaluator
    → String
    → ProtocolSnapshot
    → ProtocolEvent
    → TransitionRule
    → Result TransitionResult
apply_rule host ev digest s e rule = payload_valid ev rule.validator e.payload >>= λ valid.
    if not valid
    then ok (reject s Rejection.invalid_payload)
    else if not (recovery_allows ev.definition.recovery s.state e.kind)
    then ok (reject s Rejection.recovery_policy_denied)
    else completes ev rule.target e.payload >>= λ complete.
        if complete
        then commit host digest s e rule
        else ok (reject s Rejection.completion_policy_failed)

abbrev pub find_rule : ProtocolDefinition → String → String → Option TransitionRule
find_rule d state kind = find (keyed state kind) d.transitions

abbrev pub dispatch :
    Host
    → PolicyEvaluator
    → String
    → ProtocolSnapshot
    → ProtocolEvent
    → Option TransitionRule
    → Result TransitionResult
dispatch host ev digest s e none = ok (reject s Rejection.unknown_transition)
dispatch host ev digest s e (some rule) = apply_rule host ev digest s e rule

-- The guards on a fresh event, before its rule is looked up
unfoldable pub admit :
    Host → PolicyEvaluator → String → ProtocolSnapshot → ProtocolEvent → Result TransitionResult
admit host ev digest s e =
    if leb s.budget.max_steps s.steps_used
    then ok (reject s Rejection.step_budget_exhausted)
    else if not (mem s.state ev.definition.states)
    then ok (reject s Rejection.unknown_state)
    else if mem s.state ev.definition.completion.terminal_states
    then ok (reject s Rejection.terminal_state)
    else if not (mem e.kind ev.definition.events)
    then ok (reject s Rejection.unknown_event)
    else dispatch host ev digest s e (find_rule ev.definition s.state e.kind)

abbrev pub same_event : ProtocolEvent → TransitionRecord → Bool
same_event e r = str_eq r.event_id e.event_id

-- An event that the history holds already is replayed if it means the same.
unfoldable pub replay_or_admit :
    Host
    → PolicyEvaluator
    → String
    → ProtocolSnapshot
    → ProtocolEvent
    → Option TransitionRecord
    → Result TransitionResult
replay_or_admit host ev digest s e none = admit host ev digest s e
replay_or_admit host ev digest s e (some prior) =
    if str_eq prior.intent_digest (host.intent_digest e) && str_eq prior.policy_digest digest
    then ok (accept true s)
    else ok (reject s Rejection.event_identity_conflict)

-- The four comparisons at the start of `step`
unfoldable pub policy_matches : PolicyEvaluator → String → ProtocolSnapshot → ProtocolEvent → Bool
policy_matches ev digest s e =
    str_eq ev.version ev.definition.evaluator_version
    && (str_eq ev.policy_digest digest
        && (str_eq s.policy_digest digest && str_eq e.policy_digest digest))

-- The body of the `try`
unfoldable pub attempt :
    Host → PolicyEvaluator → ProtocolSnapshot → ProtocolEvent → Result TransitionResult
attempt host ev s e =
    let digest = host.definition_digest ev.definition in
    if policy_matches ev digest s e
    then replay_or_admit host ev digest s e (find (same_event e) s.history)
    else ok (reject s Rejection.policy_mismatch)

-- `except Exception`
abbrev pub rescue : ProtocolSnapshot → Result TransitionResult → TransitionResult
rescue s (ok r) = r
rescue s (raise _) = reject s Rejection.evaluator_failure

-- `step`
unfoldable pub step : Host → PolicyEvaluator → ProtocolSnapshot → ProtocolEvent → TransitionResult
step host ev s e = rescue s (attempt host ev s e)
