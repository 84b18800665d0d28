-- ===== src/Ouroboros/Tests.antt =====
-- The theorems on the protocol kernel at one small protocol.
use ooptdd.Base.{◌≡◌, refl, true, false, none, some, String, [], ◌∷◌, ok}
use ooptdd.Value.{end}
use ooptdd.Ouroboros.Model.{
  Host, ProtocolDefinition, ProtocolEvent, ProtocolSnapshot, ProtocolBudget, RevisionIdentity,
  TransitionRule, initial, first_snapshot, snapshot_ok, is_text, is_digest, record_ok,
}
use ooptdd.Ouroboros.Reducer.{
  PolicyEvaluator, accept, step, extended, record_of, attempt, policy_matches, replay_or_admit,
  admit, apply_rule, payload_valid, recovery_allows, completes, commit,
}
use ooptdd.Ouroboros.Receipt.{Seal, receipt_from_snapshot, body_of}
use ooptdd.Ouroboros.Outcome.{Ready, Outcome, step-Outcome}
use ooptdd.Ouroboros.Progress.{step-taken}
use ooptdd.Ouroboros.Replay.{terminal_absorbs, step_again, refused_unchanged}
use ooptdd.Ouroboros.History.{run, run-receipt}

abbrev digest_text : String
digest_text = "0123456789abcdef0123456789abcdef0123456789abcdef0123456789abcdef"

abbrev host : Host
host = record {
  strip = λ s. s;
  definition_digest = λ d. digest_text;
  intent_digest = λ e. digest_text;
}

-- Draft, and published by the event `publish`
abbrev definition : ProtocolDefinition
definition = record {
  name = "review";
  version = "1";
  evaluator_version = "v1";
  states = "draft" ∷ "published" ∷ [];
  events = "publish" ∷ "edit" ∷ [];
  initial_state = "draft";
  transitions =
      record { source = "draft"; event = "edit"; target = "draft"; validator = none }
      ∷ record { source = "draft"; event = "publish"; target = "published"; validator = none }
      ∷ [];
  completion = record {
    version = "c1";
    terminal_states = "published" ∷ [];
    required_authorities = "editor" ∷ [];
    required_artifacts = [];
  };
  recovery = record { version = "r1"; allowed = [] };
  validators = [];
}

abbrev evaluator : PolicyEvaluator
evaluator = record {
  definition = definition;
  version = "v1";
  policy_digest = digest_text;
  validate_payload = λ n v p. ok true;
  evaluate_completion =
      λ v p. ok (some (record { satisfied = true; authorities = "editor" ∷ []; artifacts = [] }));
}

abbrev budget : ProtocolBudget
budget = record { max_steps = 5; max_generations = 3 }

abbrev identity : RevisionIdentity
identity = record { namespace = "git"; value = "abc" }

abbrev start : ProtocolSnapshot
start = first_snapshot host "flow" identity definition budget 0

abbrev event_of : String → String → ProtocolEvent
event_of name kind = record {
  event_id = name;
  kind = kind;
  payload = end;
  policy_digest = digest_text;
}

abbrev edit : ProtocolEvent
edit = event_of "e1" "edit"

abbrev publish : ProtocolEvent
publish = event_of "e2" "publish"

abbrev rule_edit : TransitionRule
rule_edit = record { source = "draft"; event = "edit"; target = "draft"; validator = none }

abbrev rule_publish : TransitionRule
rule_publish = record {
  source = "draft";
  event = "publish";
  target = "published";
  validator = none;
}

abbrev edited : ProtocolSnapshot
edited = extended start (record_of host digest_text start edit rule_edit)

abbrev published : ProtocolSnapshot
published = extended edited (record_of host digest_text edited publish rule_publish)

step-Outcome_example : Outcome host evaluator start edit (step host evaluator start edit)
step-Outcome_example = step-Outcome host evaluator start edit

edit-Ready : Ready host evaluator start edit rule_edit
unfolding policy_matches payload_valid recovery_allows completes
edit-Ready = record {
  passed = record {
    policy = refl;
    unseen = refl;
    budget = refl;
    known_state = refl;
    live = refl;
    known_event = refl;
    found = refl;
  };
  valid = refl;
  recovery = refl;
  complete = refl;
}

step-taken_example :
    step host evaluator start edit
    ≡ accept false (extended start (record_of host digest_text start edit rule_edit))
unfolding snapshot_ok record_ok is_text is_digest
step-taken_example = step-taken host evaluator start edit rule_edit refl refl edit-Ready refl

terminal_absorbs_example : (step host evaluator published edit).snapshot ≡ published
terminal_absorbs_example = terminal_absorbs host evaluator published edit refl

step_again_example :
    step host evaluator (step host evaluator start edit).snapshot edit
    ≡ accept true (step host evaluator start edit).snapshot
unfolding step attempt policy_matches replay_or_admit admit apply_rule payload_valid recovery_allows
    completes commit record_ok is_text is_digest snapshot_ok
step_again_example = step_again host evaluator start edit refl

refused_unchanged_example : (step host evaluator start (event_of "e3" "delete")).snapshot ≡ start
unfolding step attempt policy_matches replay_or_admit admit
refused_unchanged_example = refused_unchanged host evaluator start (event_of "e3" "delete") refl

abbrev seal : Seal
seal = λ b. ok digest_text

run-receipt_example :
    receipt_from_snapshot host seal evaluator (run host evaluator start (edit ∷ publish ∷ []))
    ≡ ok (record {
      body = body_of (run host evaluator start (edit ∷ publish ∷ []));
      content_digest = digest_text;
    })
unfolding initial run step attempt policy_matches replay_or_admit admit apply_rule payload_valid
    recovery_allows completes commit record_ok is_text is_digest snapshot_ok
run-receipt_example =
    run-receipt host seal evaluator "flow" identity budget 0 {s = start} (edit ∷ publish ∷ [])
      digest_text refl refl refl refl refl refl
