-- ===== src/Ouroboros/Model.antt =====
-- src/ooptdd/ouroboros/model.py: the values of the protocol kernel and the checks of their
-- constructors.
use Prim.Native.Char.{code}
use Prim.Native.String.{◌∷◌ as ◌∷ₛ◌, [] as empty}
use text.Mathlib.Text.{find?}
use ooptdd.Base.{
  ℕ, zero, suc, Bool, true, false, ◌&&◌, ◌||◌, Option, none, some, String, str_eq, List, [], ◌∷◌,
  length, any, all, not, ltb, leb, ◌==◌, Result, ok, raise, Error,
}
use ooptdd.Value.{Fields}

-- `x in xs` for texts
abbrev pub mem : String → List String → Bool
mem x xs = any (str_eq x) xs

abbrev pub distinct : List String → Bool
distinct [] = true
distinct (x ∷ xs) = not (mem x xs) && distinct xs

pub record RevisionIdentity : Type 0 where
  pub namespace : String
  pub value : String

pub record ProtocolBudget : Type 0 where
  pub max_steps : ℕ
  pub max_generations : ℕ

pub record TransitionRule : Type 0 where
  pub source : String
  pub event : String
  pub target : String
  pub validator : Option String

pub record PayloadValidator : Type 0 where
  pub name : String
  pub version : String

pub record CompletionPolicy : Type 0 where
  pub version : String
  pub terminal_states : List String
  pub required_authorities : List String
  pub required_artifacts : List String

pub record CompletionEvidence : Type 0 where
  pub satisfied : Bool
  pub authorities : List String
  pub artifacts : List String

pub record RecoveryPolicy : Type 0 where
  pub version : String
  pub allowed : List (String × String)

pub record ProtocolDefinition : Type 0 where
  pub name : String
  pub version : String
  pub evaluator_version : String
  pub states : List String
  pub events : List String
  pub initial_state : String
  pub transitions : List TransitionRule
  pub completion : CompletionPolicy
  pub recovery : RecoveryPolicy
  pub validators : List PayloadValidator

-- The payload is the decoded JSON object.
pub record ProtocolEvent : Type 0 where
  pub event_id : String
  pub kind : String
  pub payload : Fields
  pub policy_digest : String

pub record TransitionRecord : Type 0 where
  pub event_id : String
  pub kind : String
  pub source : String
  pub target : String
  pub intent_digest : String
  pub policy_digest : String

pub record ProtocolSnapshot : Type 0 where
  pub workflow_id : String
  pub material_revision : RevisionIdentity
  pub generation : ℕ
  pub revision : ℕ
  pub state : String
  pub policy_digest : String
  pub budget : ProtocolBudget
  pub steps_used : ℕ
  pub history : List TransitionRecord

-- What the kernel takes from elsewhere: `str.strip`, and SHA-256 over canonical JSON.
pub record Host : Type 0 where
  pub strip : String → String
  pub definition_digest : ProtocolDefinition → String
  pub intent_digest : ProtocolEvent → String

-- `_text`
unfoldable pub is_text : Host → String → Bool
is_text host s =
    not (str_eq (host.strip s) "") && (elim (find? s "\0") [ none ↦ true | some _ ↦ false ])

abbrev hex : ℕ → Bool
hex c = (leb 48 c && leb c 57) || (leb 97 c && leb c 102)

-- `re.compile("^[0-9a-f]{64}$").fullmatch`, on the characters that are left
unfoldable pub hex_digits : ℕ → String → Bool
hex_digits n empty = n == 0
hex_digits zero (c ∷ₛ s) = false
hex_digits (suc n) (c ∷ₛ s) = hex (code c) && hex_digits n s

-- `_digest`
unfoldable pub is_digest : String → Bool
unfolding hex_digits
is_digest s = hex_digits 64 s

-- `MAX_INTEROPERABLE_INTEGER` of src/ooptdd/ouroboros/identity.py
abbrev pub max_integer : ℕ
max_integer = 9007199254740991

-- `_integer`
abbrev pub is_integer : ℕ → ℕ → Bool
is_integer minimum n = leb minimum n && leb n max_integer

-- `TransitionRecord.__post_init__`
unfoldable pub record_ok : Host → TransitionRecord → Bool
record_ok host r =
    is_text host r.event_id
    && (is_text host r.kind
        && (is_text host r.source
            && (is_text host r.target && (is_digest r.intent_digest && is_digest r.policy_digest))))

abbrev pub ids : List TransitionRecord → List String
ids [] = []
ids (r ∷ rs) = r.event_id ∷ ids rs

-- `left.target == right.source` for each two neighbours, and the last target is the state
abbrev pub path_to : String → List TransitionRecord → Bool
path_to state [] = true
path_to state (r ∷ []) = str_eq r.target state
path_to state (r ∷ q ∷ rs) = str_eq r.target q.source && path_to state (q ∷ rs)

abbrev pub bound_to : String → TransitionRecord → Bool
bound_to digest r = str_eq r.policy_digest digest

-- The tests of `ProtocolSnapshot.__post_init__` that are on types are the model's own types.
unfoldable pub snapshot_ok : Host → ProtocolSnapshot → Bool
snapshot_ok host s =
    is_text host s.workflow_id
    && (is_text host s.state
        && (is_digest s.policy_digest
            && (is_integer 0 s.generation
                && (is_integer 0 s.revision
                    && (is_integer 0 s.steps_used
                        && (ltb s.generation s.budget.max_generations
                            && (leb s.steps_used s.budget.max_steps
                                && (distinct (ids s.history)
                                    && ((s.revision == length s.history
                                          && s.steps_used == length s.history)
                                        && (path_to s.state s.history
                                            && all (bound_to s.policy_digest) s.history))))))))))

-- A value whose constructor raises `ValueError` unless the test holds
abbrev pub construct {ℓ} : {A : Type ℓ} → Bool → A → Result A
construct true a = ok a
construct false a = raise Error.value_error

-- The fields that `ProtocolSnapshot.initial` passes to the constructor
abbrev pub first_snapshot :
    Host → String → RevisionIdentity → ProtocolDefinition → ProtocolBudget → ℕ → ProtocolSnapshot
first_snapshot host workflow_id revision definition budget generation = record {
  workflow_id = workflow_id;
  material_revision = revision;
  generation = generation;
  revision = 0;
  state = definition.initial_state;
  policy_digest = host.definition_digest definition;
  budget = budget;
  steps_used = 0;
  history = [];
}

-- `ProtocolSnapshot.initial`
unfoldable pub initial :
    Host
    → String
    → RevisionIdentity
    → ProtocolDefinition
    → ProtocolBudget
    → ℕ
    → Result ProtocolSnapshot
initial host w rev d b g =
    construct (snapshot_ok host (first_snapshot host w rev d b g)) (first_snapshot host w rev d b g)

abbrev pub keyed : String → String → TransitionRule → Bool
keyed source event r = str_eq r.source source && str_eq r.event event

abbrev named_validator : Option String → List PayloadValidator → Bool
named_validator none vs = true
named_validator (some n) vs = str_eq n "" || any (λ (v : PayloadValidator). str_eq n v.name) vs

-- The loop over `transitions` in `_validate_references`
unfoldable pub rules_ok : ProtocolDefinition → List TransitionRule → Bool
rules_ok d [] = true
rules_ok d (r ∷ rs) =
    (mem r.source d.states && mem r.target d.states)
    && ((mem r.event d.events && named_validator r.validator d.validators)
        && (not (any (keyed r.source r.event) rs) && rules_ok d rs))

abbrev is_empty : List String → Bool
is_empty [] = true
is_empty (_ ∷ _) = false

abbrev validator_names : List PayloadValidator → List String
validator_names [] = []
validator_names (v ∷ vs) = v.name ∷ validator_names vs

-- `ProtocolDefinition._validate_references`
unfoldable pub references_ok : ProtocolDefinition → Bool
unfolding rules_ok
references_ok d =
    mem d.initial_state d.states
    && (all (λ s. mem s d.states) d.completion.terminal_states
        && (not (
              mem d.initial_state d.completion.terminal_states
              && not (
                  is_empty d.completion.required_authorities
                  && is_empty d.completion.required_artifacts))
            && (distinct (validator_names d.validators)
                && (rules_ok d d.transitions
                    && all (λ p. mem p.0 d.states && mem p.1 d.events) d.recovery.allowed))))
