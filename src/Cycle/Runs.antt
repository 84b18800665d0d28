-- ===== src/Cycle/Runs.antt =====
-- extensions/ooptdd-mutation/src/ooptdd_mutation/ouroboros/reducer.py: the evidence of a run, with what
-- every transition does in Effects.
mod Effects
pub use Effects.{
  effect, rejected, record_effect, restore_effect, event_record, advanced, accept, commit,
  steps_left,
}
unfoldable pub use Effects.{commit_with, collision, out_of_budget}
use ooptdd.Base.{
  ℕ, ◌+◌, Bool, true, false, ◌&&◌, ◌||◌, not, Option, none, some, String, str_eq, List, [], ◌∷◌,
  ◌++◌, any, ltb, if◌then◌else◌, Result, ok, raise, raise_if, Error, ◌>>=◌, ◌>>◌,
}
use ooptdd.Value.{str, Fields, end, field}
use ooptdd.Cycle.Model.{
  Phase, phase_text, kind_text, reason_text, ProtocolEvent, EventRecord, EffectIntent, EffectKind,
  idempotent_write, record_transition, audit_rejection, restore_required, CycleSnapshot, construct,
  Hashing, TransitionResult, InterruptReason, budget_exhausted, identity_clash, no_conclusion,
  RunRole, initial, positive, negative, regreened, RunOutcome, red_run, green_run, no_outcome,
  ObservationVerdict, seen_present, seen_nothing, EvidenceTier, external_verdict,
  is_completion_tier, Digest, digest_eq, MaterialLock, OracleBoundary, RunEvidence,
}
use ooptdd.Cycle.Payload.{
  require_keys, item, text_item, member, outcomes, observations, monitor_verdicts, tiers,
  digest_item, construct_run,
}

abbrev pub is_negative : RunRole → Bool
is_negative negative = true
is_negative _ = false

-- `role in {RunRole.POSITIVE, RunRole.REGREEN}`
abbrev pub needs_readback : RunRole → Bool
needs_readback positive = true
needs_readback regreened = true
needs_readback _ = false

abbrev pub is_red : RunOutcome → Bool
is_red red_run = true
is_red _ = false

abbrev pub is_green : RunOutcome → Bool
is_green green_run = true
is_green _ = false

abbrev pub no_result : RunOutcome → Bool
no_result no_outcome = true
no_result _ = false

abbrev pub is_present : ObservationVerdict → Bool
is_present seen_present = true
is_present _ = false

abbrev pub no_observation : ObservationVerdict → Bool
no_observation seen_nothing = true
no_observation _ = false

abbrev pub is_external : EvidenceTier → Bool
is_external external_verdict = true
is_external _ = false

abbrev pub is_corroborated : Option OracleBoundary → Bool
is_corroborated none = false
is_corroborated (some o) = o.corroborated

-- `_run_is_inconclusive`
abbrev pub run_is_inconclusive : RunEvidence → Bool
run_is_inconclusive r = no_result r.outcome || no_observation r.observation

-- The outcome that a role requires
abbrev pub outcome_fits : RunRole → RunOutcome → Bool
outcome_fits initial o = is_red o
outcome_fits negative o = is_red o
outcome_fits positive o = is_green o
outcome_fits regreened o = is_green o

-- The source that a run of a role has to name
unfoldable pub expected_source : RunRole → Digest → Option Digest → Result Digest
expected_source role source mutated =
    if is_negative role
    then elim mutated [ none ↦ raise Error.value_error | some d ↦ ok d ]
    else ok source

abbrev pub same_run_id : String → RunEvidence → Bool
same_run_id x r = str_eq r.run_id x

abbrev pub same_namespace : String → RunEvidence → Bool
same_namespace x r = str_eq r.artifact_namespace x

abbrev pub run_keys : List String
run_keys =
    "run_id" ∷ "artifact_namespace" ∷ "outcome" ∷ "observation" ∷ "monitor" ∷ "evidence_tier"
    ∷ "artifact" ∷ "material_lock_sha256" ∷ "executed_source" ∷ []

module _ (h : Hashing) where
  -- The evidence as the payload has it
  unfoldable pub read_run : Fields → RunRole → Result RunEvidence
  read_run p role = do
    run_id ← text_item h "run_id" p
    artifact_namespace ← text_item h "artifact_namespace" p
    outcome ← item "outcome" p >>= member outcomes
    observation ← item "observation" p >>= member observations
    monitor ← item "monitor" p >>= member monitor_verdicts
    evidence_tier ← item "evidence_tier" p >>= member tiers
    artifact ← digest_item h "artifact" p
    material_lock_sha256 ← text_item h "material_lock_sha256" p
    executed_source ← digest_item h "executed_source" p
    construct_run h (record {
      role = role;
      run_id = run_id;
      artifact_namespace = artifact_namespace;
      outcome = outcome;
      observation = observation;
      monitor = monitor;
      evidence_tier = evidence_tier;
      artifact = artifact;
      material_lock_sha256 = material_lock_sha256;
      executed_source = executed_source;
    })

  -- The run ran under the lock, is new, and names the source that its role calls for.
  unfoldable pub check_run :
      CycleSnapshot → MaterialLock → RunRole → RunEvidence → Result (Unit {0})
  check_run s lock role run = do
    _ ← raise_if (not (str_eq run.material_lock_sha256 (h.materials lock))) Error.value_error
    _ ← raise_if (any (same_run_id run.run_id) s.runs) Error.value_error
    _ ← raise_if (any (same_namespace run.artifact_namespace) s.runs) Error.value_error
    source ← expected_source role lock.source s.mutated_source
    raise_if (not (digest_eq run.executed_source source)) Error.value_error

  -- What its role asks of a conclusive run, and an external verdict of every run
  unfoldable pub check_verdict : CycleSnapshot → RunRole → RunEvidence → Result (Unit {0})
  check_verdict s role run =
      let conclusive = not (run_is_inconclusive run) in
      raise_if (conclusive && not (outcome_fits role run.outcome)) Error.value_error
      >> (raise_if (conclusive && (needs_readback role && not (is_present run.observation)))
            Error.value_error
          >> (raise_if
                (conclusive && (needs_readback role && not (is_completion_tier run.evidence_tier)))
                Error.value_error
              >> raise_if (is_external run.evidence_tier && not (is_corroborated s.oracle))
                  Error.value_error))

  -- `_parse_run`
  unfoldable pub parse_run : CycleSnapshot → Fields → RunRole → Result RunEvidence
  parse_run s p role = require_keys run_keys [] p >> elim s.material_lock [
    | none ↦ raise Error.value_error
    | some lock ↦
        read_run p role >>= λ run. check_run s lock role run >> (check_verdict s role run >> ok run)
  ]

  -- `_commit_run`
  unfoldable pub commit_run :
      CycleSnapshot → ProtocolEvent → RunEvidence → Phase → Result TransitionResult
  commit_run s e run success =
      let t : CycleSnapshot = record s { runs = s.runs ++ (run ∷ []) } in
      if not (run_is_inconclusive run)
      then commit h s e success t
      else if s.mutation_active
      then commit_with h none s e Phase.recovery_required (restore_effect h s e no_conclusion ∷ [])
          true (record t { pending_interrupt = some no_conclusion })
      else commit h s e Phase.inconclusive (record t { halt_reason = some no_conclusion })
