-- ===== src/Cycle/Samples.antt =====
-- Two cycles of extensions/ooptdd-mutation/src/ooptdd_mutation/ouroboros, event by event: one that
-- completes, and one that is interrupted under a mutation.
use ooptdd.Base.{
  true, false, none, String, str_eq, List, [], ◌∷◌, Result, ok, raise, ◌≡◌, refl, if◌then◌else◌,
}
use ooptdd.Value.{Value, null, bool, str, list, dict, nil, cons, Fields, end, field}
use ooptdd.Cycle.Model.{
  EventKind, ProtocolEvent, CycleSnapshot, Hashing, TransitionResult, CycleIdentity, ProtocolBudget,
  Digest, first_snapshot, construct, snapshot_ok,
}
use ooptdd.Cycle.Step.{step, replay}
use ooptdd.Cycle.Reach.{Reaches, start, advance}

abbrev pub sample_digest : String → Digest
sample_digest scope = record {
  algorithm = "sha256";
  scope = scope;
  canonicalization = "raw-bytes";
  schema_version = "v1";
  value = "aaaaaaaaaaaaaaaaaaaaaaaaaaaaaaaaaaaaaaaaaaaaaaaaaaaaaaaaaaaaaaaa";
}

abbrev pub as_value : Digest → Value
as_value d = dict (
    field "algorithm" (str d.algorithm) (
      field "scope" (str d.scope) (
        field "canonicalization" (str d.canonicalization)
          (field "schema_version" (str d.schema_version) (field "value" (str d.value) end)))))

abbrev pub digest_value : String → Value
digest_value scope = as_value (sample_digest scope)

abbrev pub lock_text : String
lock_text = "cccccccccccccccccccccccccccccccccccccccccccccccccccccccccccccccc"

abbrev pub run_payload : String → String → String → Fields
run_payload name outcome source = field "run_id" (str name) (
    field "artifact_namespace" (str name) (
      field "outcome" (str outcome) (
        field "observation" (str "present") (
          field "monitor" (str "sat") (
            field "evidence_tier" (str "arrived") (
              field "artifact" (digest_value "artifact") (
                field "material_lock_sha256" (str lock_text)
                  (field "executed_source" (digest_value source) end))))))))

abbrev pub materials : Value
materials = dict (
    field "spec" (digest_value "spec") (
      field "verifier" (digest_value "verifier") (
        field "source" (digest_value "source") (
          field "environment" (digest_value "environment")
            (field "source_commit" (str "aaaaaaaaaaaaaaaaaaaaaaaaaaaaaaaaaaaaaaaa") end)))))

abbrev pub boundary : Value
boundary = dict (
    field "emit_identity" (str "writer") (
      field "read_identity" (str "reader")
        (field "separate_source" (bool true) (field "corroborated" (bool true) end))))

-- The payloads by the texts that stand for them
abbrev pub payloads : List (String × Fields)
payloads =
    ("size", field "policy_version" (str "v1") end)
    ∷ ("lock", field "materials" materials (field "oracle" boundary end))
    ∷ ("initial", run_payload "r1" "red" "source")
    ∷ ("green", run_payload "r2" "green" "source")
    ∷ (
      "quarantine",
      field "artifact_namespace" (str "q") (field "quarantine" (digest_value "quarantine") end),
    )
    ∷ (
      "mutate",
      field "mutation_delta" (digest_value "delta") (
          field "source_before" (digest_value "source")
            (field "source_after" (digest_value "mutant") end)),
    )
    ∷ ("negative", run_payload "r3" "red" "mutant")
    ∷ ("restore", field "restored_source" (digest_value "source") end)
    ∷ ("regreen", run_payload "r4" "green" "source")
    ∷ ("findings", field "finding_ids" (list (cons (str "f1") nil)) end)
    ∷ (
      "dispose",
      field "finding_id" (str "f1") (
          field "disposition" (str "refuted")
            (field "bound_material_changed" (bool false) (field "change_evidence" null end))),
    )
    ∷ ("interrupt", field "reason" (str "cancelled") end)
    ∷ []

abbrev pub payload_of : String → List (String × Fields) → Fields
payload_of s [] = end
payload_of s (p ∷ ps) = if str_eq p.0 s then p.1 else payload_of s ps

abbrev pub hashing : Hashing
hashing = record {
  identity = λ _. "identity";
  materials = λ _. lock_text;
  effect_id = λ _ _ _ _. "effect";
  dumps = λ _. "{}";
  loads = λ s. payload_of s payloads;
  is_blank = λ s. str_eq s "";
}

abbrev pub event : EventKind → String → ProtocolEvent
event kind name = record {
  cycle_id = "cycle";
  cycle_identity_sha256 = "identity";
  event_id = name;
  kind = kind;
  payload_json = name;
  intent_hash = name;
}

abbrev pub identity : CycleIdentity
identity = record { cycle_id = "cycle"; generation = 0; previous_receipt_sha256 = none }

abbrev pub budget : ProtocolBudget
budget = record { max_steps = 20; max_generations = 2 }

abbrev pub up_to_mutation : List ProtocolEvent
up_to_mutation =
    event EventKind.size "size"
    ∷ event EventKind.lock "lock"
    ∷ event EventKind.initial_red "initial"
    ∷ event EventKind.green "green"
    ∷ event EventKind.quarantine "quarantine"
    ∷ event EventKind.mutation_applied "mutate"
    ∷ []

abbrev pub from_mutation : List ProtocolEvent
from_mutation =
    event EventKind.negative_red "negative"
    ∷ event EventKind.restore "restore"
    ∷ event EventKind.regreen "regreen"
    ∷ event EventKind.enumerate_findings "findings"
    ∷ event EventKind.dispose_finding "dispose"
    ∷ event EventKind.seal "seal"
    ∷ []

-- The snapshot after some events
abbrev pub play : CycleSnapshot → List ProtocolEvent → CycleSnapshot
play s [] = s
play s (e ∷ es) = elim (step hashing s e) [ ok r ↦ play r.snapshot es | raise _ ↦ s ]

Reaches-next :
    (s : CycleSnapshot) (e : ProtocolEvent) (f : CycleSnapshot → CycleSnapshot)
    (x : Result TransitionResult)
    → Reaches hashing s
    → step hashing s e ≡ x
    → ((t : CycleSnapshot) → Reaches hashing t → Reaches hashing (f t))
    → Reaches hashing (elim x [ ok r ↦ f r.snapshot | raise _ ↦ s ])
Reaches-next s e f (ok r) p t k = k r.snapshot (advance e p t)
Reaches-next s e f (raise x) p t k = p

pub Reaches-play :
    (es : List ProtocolEvent) (s : CycleSnapshot) → Reaches hashing s → Reaches hashing (play s es)
Reaches-play [] s p = p
Reaches-play (e ∷ es) s p =
    Reaches-next s e (λ t. play t es) (step hashing s e) p refl (λ t. Reaches-play es t)

abbrev pub first : CycleSnapshot
first = first_snapshot identity budget

abbrev pub mutated : CycleSnapshot
mutated = play first up_to_mutation

abbrev pub final : CycleSnapshot
final = play mutated from_mutation

pub Reaches-first : Reaches hashing first
unfolding construct snapshot_ok
Reaches-first = start identity budget refl

pub Reaches-mutated : Reaches hashing mutated
Reaches-mutated = Reaches-play up_to_mutation first Reaches-first

pub Reaches-final : Reaches hashing final
Reaches-final = Reaches-play from_mutation mutated Reaches-mutated

abbrev pub negative : ProtocolEvent
negative = event EventKind.negative_red "negative"

abbrev pub result_of : Result TransitionResult → TransitionResult
result_of (ok r) = r
result_of (raise _) = replay negative first

-- The interruption under the mutation leaves a recovery.
abbrev pub recovering : CycleSnapshot
recovering = play mutated (event EventKind.interrupt "interrupt" ∷ [])

abbrev pub restoring : ProtocolEvent
restoring = event EventKind.restore "restore"

pub Reaches-recovering : Reaches hashing recovering
Reaches-recovering =
    Reaches-play (event EventKind.interrupt "interrupt" ∷ []) mutated Reaches-mutated
