-- ===== src/Cycle/Model.antt =====
-- extensions/ooptdd-mutation/src/ooptdd_mutation/ouroboros/model.py and the `Digest` of
-- src/ooptdd/ouroboros/identity.py: the values of the cycle and the checks of the snapshot.
mod Names
pub use Names.*
use ooptdd.Base.{
  ℕ, ◌+◌, Bool, true, false, ◌&&◌, ◌||◌, not, Option, none, some, String, str_eq, List, [], ltb,
  leb, ◌==◌, if◌then◌else◌, Result, ok, raise, Error,
}
use ooptdd.Value.{Fields}

pub record Digest : Type 0 where
  pub algorithm : String
  pub scope : String
  pub canonicalization : String
  pub schema_version : String
  pub value : String

-- `a == b`
abbrev pub digest_eq : Digest → Digest → Bool
digest_eq a b =
    str_eq a.algorithm b.algorithm
    && (str_eq a.scope b.scope
        && (str_eq a.canonicalization b.canonicalization
            && (str_eq a.schema_version b.schema_version && str_eq a.value b.value)))

pub record ProtocolBudget : Type 0 where
  pub max_steps : ℕ
  pub max_generations : ℕ

pub record CycleIdentity : Type 0 where
  pub cycle_id : String
  pub generation : ℕ
  pub previous_receipt_sha256 : Option String

pub record OracleBoundary : Type 0 where
  pub emit_identity : String
  pub read_identity : String
  pub separate_source : Bool
  pub corroborated : Bool

pub record MaterialLock : Type 0 where
  pub spec : Digest
  pub verifier : Digest
  pub source : Digest
  pub environment : Digest
  pub source_commit : String

pub record ProtocolEvent : Type 0 where
  pub cycle_id : String
  pub cycle_identity_sha256 : String
  pub event_id : String
  pub kind : EventKind
  pub payload_json : String
  pub intent_hash : String

pub record EventRecord : Type 0 where
  pub event : ProtocolEvent
  pub from_phase : Phase
  pub to_phase : Phase

pub record EffectIntent : Type 0 where
  pub effect_id : String
  pub kind : EffectKind
  pub effect_class : EffectClass
  pub causation_event_id : String
  pub causation_intent_hash : String
  pub payload_json : String

pub record RunEvidence : Type 0 where
  pub role : RunRole
  pub run_id : String
  pub artifact_namespace : String
  pub outcome : RunOutcome
  pub observation : ObservationVerdict
  pub monitor : MonitorVerdict
  pub evidence_tier : EvidenceTier
  pub artifact : Digest
  pub material_lock_sha256 : String
  pub executed_source : Digest

pub record FindingDisposition : Type 0 where
  pub finding_id : String
  pub disposition : Disposition
  pub bound_material_changed : Bool
  pub change_evidence : Option Digest

pub record CycleSnapshot : Type 0 where
  pub identity : CycleIdentity
  pub budget : ProtocolBudget
  pub phase : Phase
  pub revision : ℕ
  pub steps_used : ℕ
  pub material_lock : Option MaterialLock
  pub oracle : Option OracleBoundary
  pub events : List EventRecord
  pub effects : List EffectIntent
  pub runs : List RunEvidence
  pub quarantine : Option Digest
  pub quarantine_namespace : Option String
  pub mutation_delta : Option Digest
  pub mutated_source : Option Digest
  pub mutation_active : Bool
  pub restored_source : Option Digest
  pub finding_ids : List String
  pub dispositions : List FindingDisposition
  pub bound_material_changed : Bool
  pub successor_cycle_id : Option String
  pub pending_interrupt : Option InterruptReason
  pub halt_reason : Option InterruptReason

abbrev pub is_given {ℓ} : {A : Type ℓ} → Option A → Bool
is_given none = false
is_given (some _) = true

-- The checks of `CycleSnapshot.__post_init__`
unfoldable pub snapshot_ok : CycleSnapshot → Bool
snapshot_ok s =
    leb s.revision (s.budget.max_steps + 2)
    && (leb s.steps_used s.budget.max_steps
        && (ltb s.identity.generation s.budget.max_generations
            && ((not s.mutation_active || (is_given s.mutation_delta && is_given s.mutated_source))
                && not (is_terminal s.phase && s.mutation_active))))

unfoldable pub construct : CycleSnapshot → Result CycleSnapshot
construct s = if snapshot_ok s then ok s else raise Error.value_error

-- The defaults of the fields
abbrev pub first_snapshot : CycleIdentity → ProtocolBudget → CycleSnapshot
first_snapshot identity budget = record {
  identity = identity;
  budget = budget;
  phase = init;
  revision = 0;
  steps_used = 0;
  material_lock = none;
  oracle = none;
  events = [];
  effects = [];
  runs = [];
  quarantine = none;
  quarantine_namespace = none;
  mutation_delta = none;
  mutated_source = none;
  mutation_active = false;
  restored_source = none;
  finding_ids = [];
  dispositions = [];
  bound_material_changed = false;
  successor_cycle_id = none;
  pending_interrupt = none;
  halt_reason = none;
}

-- What hashing, JSON and Python's texts compute: the properties `fingerprint` of an identity and of a
-- lock, the identity of an effect, the canonical text of an object, the object of such a text, and
-- `not s.strip()`.
pub record Hashing : Type 0 where
  pub identity : CycleIdentity → String
  pub materials : MaterialLock → String
  pub effect_id : String → EffectKind → ℕ → Fields → String
  pub dumps : Fields → String
  pub loads : String → Fields
  pub is_blank : String → Bool

pub record TransitionResult : Type 0 where
  pub accepted : Bool
  pub replayed : Bool
  pub snapshot : CycleSnapshot
  pub effects : List EffectIntent
  pub rejection_code : Option String
