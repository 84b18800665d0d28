-- ===== src/Cycle/Tests.antt =====
-- Runs of the evidence cycle of extensions/ooptdd-mutation/src/ooptdd_mutation/ouroboros.
use ooptdd.Base.{some, ◌+◌, ◌≤◌, true, false, length, ok, ◌≡◌, refl, sym, ap, ◌∙◌}
use ooptdd.Value.{dict, find_key, has_key, get}
use ooptdd.Ouroboros.Model.{distinct, is_digest, hex_digits}
use ooptdd.Cycle.Model.{EventRecord, Phase, is_terminal, TransitionResult, construct, snapshot_ok}
use ooptdd.Cycle.Payload.{
  item, exact_keys, text_ok, require_text, digest_ok, digest_from, lock_from, oracle_from,
  is_git_object, construct_run, disposition_ok,
}
use ooptdd.Cycle.Runs.{
  commit_with, collision, out_of_budget, expected_source, read_run, check_run, check_verdict,
  parse_run, commit_run,
}
use ooptdd.Cycle.Reducer.{
  restore_to, restore_under, restore, interrupt_for, interrupt, size, lock, quarantine,
  mutate_under, mutate, finding_list, enumerate_findings, optional_digest, dispose_finding,
  supersede, complete, seal,
}
use ooptdd.Cycle.Step.{dispatch, admit, step, is_known, identity_matches}
use ooptdd.Cycle.Invariant.{all_roles, run_ids, namespaces, undone, Mutated, Sealed}
use ooptdd.Cycle.Faults.{Settles}
use ooptdd.Cycle.Kept.{step-Settles}
use ooptdd.Cycle.Reach.{Reaches-Sound, Reaches-bounded, complete_earned, terminal_undone}
use ooptdd.Cycle.Journal.{Linked, Reaches-Linked}
use ooptdd.Cycle.Replays.{Redelivered, step-Redelivered, terminal_stays}
use ooptdd.Cycle.Stored.{Codec, intent_ok, event_ok, record_to, record_from, record_from-record_to}
use ooptdd.Cycle.Stops.{RestoresLocked, Ended, recovery-Ended}
use ooptdd.Cycle.Samples.{
  payloads, payload_of, lock_text, sample_digest, hashing, mutated, final, Reaches-mutated,
  Reaches-final, negative, result_of, recovering, restoring, Reaches-recovering,
}

-- What the two cycles compute to
sample_results :
    (final.phase ≡ Phase.complete)
    × ((recovering.phase ≡ Phase.recovery_required)
        × (((result_of (step hashing mutated negative)).accepted ≡ true)
            × ((is_known hashing recovering restoring ≡ false)
                × (identity_matches hashing recovering restoring ≡ true))))
unfolding step admit dispatch restore restore_under restore_to interrupt interrupt_for size lock
    quarantine mutate mutate_under enumerate_findings finding_list dispose_finding optional_digest
    seal supersede complete commit_with construct snapshot_ok collision out_of_budget parse_run
    read_run check_run check_verdict commit_run expected_source item exact_keys require_text text_ok
    digest_from digest_ok lock_from oracle_from is_git_object construct_run disposition_ok find_key
    has_key get is_digest hex_digits
sample_results = (refl, (refl, (refl, (refl, refl))))

negative-Settles : Settles hashing mutated negative (step hashing mutated negative)
negative-Settles =
    step-Settles hashing mutated negative (Reaches-Sound hashing mutated Reaches-mutated)

negative_accepted : negative-Settles.result.accepted ≡ true
negative_accepted =
    sym (ap (λ x. (result_of x).accepted) negative-Settles.returns) ∙ sample_results.1.1.0

restoring-RestoresLocked : RestoresLocked hashing recovering restoring
unfolding step admit dispatch restore restore_under restore_to interrupt interrupt_for size lock
    quarantine mutate mutate_under enumerate_findings finding_list dispose_finding optional_digest
    seal supersede complete commit_with construct snapshot_ok collision out_of_budget parse_run
    read_run check_run check_verdict commit_run expected_source item exact_keys require_text text_ok
    digest_from digest_ok lock_from oracle_from is_git_object construct_run disposition_ok find_key
    has_key get is_digest hex_digits
restoring-RestoresLocked = record {
  lock = record {
    spec = sample_digest "spec";
    verifier = sample_digest "verifier";
    source = sample_digest "source";
    environment = sample_digest "environment";
    source_commit = "aaaaaaaaaaaaaaaaaaaaaaaaaaaaaaaaaaaaaaaa";
  };
  source = sample_digest "source";
  is_restore = refl;
  keys = refl;
  payload = refl;
  locked = refl;
  same = refl;
}

step-Settles_example : Settles hashing mutated negative (step hashing mutated negative)
step-Settles_example =
    step-Settles hashing mutated negative (Reaches-Sound hashing mutated Reaches-mutated)

Reaches-bounded_example :
    (final.revision ≡ length final.events)
    × ((final.revision ≤ final.steps_used + 2) × (final.revision ≤ final.budget.max_steps + 2))
Reaches-bounded_example = Reaches-bounded hashing final Reaches-final

complete_earned_example :
    Mutated hashing final false all_roles
    × (Sealed hashing final false
        × ((distinct (run_ids final) ≡ true) × (distinct (namespaces final) ≡ true)))
complete_earned_example = complete_earned hashing final Reaches-final sample_results.0

terminal_undone_example : (final.mutation_active ≡ false) × (undone final ≡ true)
terminal_undone_example =
    terminal_undone hashing final Reaches-final (ap is_terminal sample_results.0)

Reaches-Linked_example : Linked Phase.init final.events final.phase
Reaches-Linked_example = Reaches-Linked hashing final Reaches-final

step-Redelivered_example : Redelivered hashing negative negative-Settles.result
step-Redelivered_example =
    step-Redelivered hashing mutated negative negative-Settles.result Reaches-mutated
      negative-Settles.returns negative_accepted

terminal_stays_example :
    (r : TransitionResult) × (step hashing final restoring ≡ ok r) × (r.snapshot ≡ final)
terminal_stays_example = terminal_stays hashing final restoring (ap is_terminal sample_results.0)

recovery-Ended_example : Ended hashing recovering restoring
recovery-Ended_example =
    recovery-Ended hashing recovering restoring Reaches-recovering sample_results.1.0
      sample_results.1.1.1.1 sample_results.1.1.1.0 restoring-RestoresLocked

abbrev codec : Codec
codec = record {
  loads = λ s. some (dict (payload_of s payloads));
  canonical = λ _. some "restore";
  intent = λ _ _ _ _ _. "restore";
}

abbrev stored : EventRecord
stored = record {
  event = record restoring { cycle_identity_sha256 = lock_text };
  from_phase = Phase.negative_red_confirmed;
  to_phase = Phase.restored;
}

stored-event_ok : event_ok hashing codec stored.event ≡ true
unfolding event_ok intent_ok text_ok is_digest hex_digits
stored-event_ok = refl

record_from-record_to_example :
    record_from hashing codec (dict (record_to hashing codec stored)) ≡ ok stored
record_from-record_to_example = record_from-record_to hashing codec stored stored-event_ok
