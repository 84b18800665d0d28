-- ===== src/Cycle/Step.antt =====
-- extensions/ooptdd-mutation/src/ooptdd_mutation/ouroboros/reducer.py: `step`.
use ooptdd.Base.{
  Bool, true, false, ◌&&◌, ◌||◌, not, Option, none, some, str_eq, keep, find, any, if◌then◌else◌,
  Result, ok, raise, ◌>>=◌,
}
use ooptdd.Value.{Fields}
use ooptdd.Cycle.Model.{
  Phase, is_phase, is_terminal, EventKind, ProtocolEvent, EventRecord, EffectIntent, CycleSnapshot,
  Hashing, TransitionResult, initial, positive, negative, regreened, RunRole,
}
use ooptdd.Cycle.Runs.{rejected, steps_left, collision, out_of_budget, parse_run, commit_run}
use ooptdd.Cycle.Reducer.{
  restore, interrupt, size, lock, quarantine, mutate, enumerate_findings, dispose_finding, seal,
}

abbrev pub is_restore : EventKind → Bool
is_restore EventKind.restore = true
is_restore _ = false

-- Is this a record of an event with the same identity?
abbrev pub same_event : ProtocolEvent → EventRecord → Bool
same_event e r = str_eq r.event.event_id e.event_id

-- … and the same intent?
abbrev pub same_intent : ProtocolEvent → EventRecord → Bool
same_intent e r = str_eq r.event.intent_hash e.intent_hash

abbrev pub caused_by : ProtocolEvent → EffectIntent → Bool
caused_by e f =
    str_eq f.causation_event_id e.event_id && str_eq f.causation_intent_hash e.intent_hash

abbrev pub replay : ProtocolEvent → CycleSnapshot → TransitionResult
replay e s = record {
  accepted = true;
  replayed = true;
  snapshot = s;
  effects = keep (caused_by e) s.effects;
  rejection_code = none;
}

module _ (h : Hashing) (s : CycleSnapshot) (e : ProtocolEvent) where
  abbrev pub invalid_transition : Result TransitionResult
  invalid_transition = ok (rejected h s e "invalid_transition")

  abbrev pub run_event : RunRole → Phase → Fields → Result TransitionResult
  run_event role success p = parse_run h s p role >>= λ run. commit_run h s e run success

  -- One of the phases in which a restoration is looked at
  abbrev pub restorable : Bool
  restorable =
      is_phase s.phase Phase.mutation_active
      || (is_phase s.phase Phase.negative_red_confirmed || is_phase s.phase Phase.recovery_required)

  abbrev pub when_in : Phase → Result TransitionResult → Result TransitionResult
  when_in p r = if is_phase s.phase p then r else invalid_transition

  -- The transitions of the `try`
  unfoldable pub dispatch : EventKind → Fields → Result TransitionResult
  dispatch EventKind.interrupt p = interrupt h s e p
  dispatch EventKind.restore p = if restorable then restore h s e p else invalid_transition
  dispatch EventKind.size p = when_in Phase.init (size h s e p)
  dispatch EventKind.lock p = when_in Phase.sized (lock h s e p)
  dispatch EventKind.initial_red p =
      when_in Phase.locked (run_event initial Phase.initial_red_confirmed p)
  dispatch EventKind.green p =
      when_in Phase.initial_red_confirmed (run_event positive Phase.green_confirmed p)
  dispatch EventKind.quarantine p = when_in Phase.green_confirmed (quarantine h s e p)
  dispatch EventKind.mutation_applied p = when_in Phase.quarantined (mutate h s e p)
  dispatch EventKind.negative_red p =
      when_in Phase.mutation_active (run_event negative Phase.negative_red_confirmed p)
  dispatch EventKind.regreen p =
      when_in Phase.restored (run_event regreened Phase.regreen_confirmed p)
  dispatch EventKind.enumerate_findings p =
      when_in Phase.regreen_confirmed (enumerate_findings h s e p)
  dispatch EventKind.dispose_finding p = when_in Phase.bite_pending (dispose_finding h s e p)
  dispatch EventKind.seal p = when_in Phase.bite_pending (seal h s e p)

  -- `except (KeyError, TypeError, ValueError)`: no other error is raised.
  abbrev pub rescue : Result TransitionResult → TransitionResult
  rescue (ok r) = r
  rescue (raise _) = rejected h s e "invalid_payload"

  -- `prior_id_records`, as a test
  abbrev pub is_known : Bool
  is_known = any (same_event e) s.events

  -- The guards on an event that is no replay
  unfoldable pub admit : Result TransitionResult
  admit =
      if is_terminal s.phase
      then ok (rejected h s e "terminal_state")
      else if is_phase s.phase Phase.recovery_required && not (is_restore e.kind)
      then ok (rejected h s e "recovery_requires_restore")
      else if is_phase s.phase Phase.recovery_required && is_known
      then ok (rejected h s e "event_identity_conflict_during_recovery")
      else if is_known
      then collision h s e
      else if not (steps_left h s) && not (s.mutation_active && is_restore e.kind)
      then out_of_budget h s e
      else ok (rescue (dispatch e.kind (h.loads e.payload_json)))

  abbrev pub identity_matches : Bool
  identity_matches =
      str_eq e.cycle_id s.identity.cycle_id
      && str_eq e.cycle_identity_sha256 (h.identity s.identity)

  -- The record of the very same event
  abbrev pub exact_record : Option EventRecord
  exact_record = find (same_intent e) (keep (same_event e) s.events)

  -- `step`
  unfoldable pub step : Result TransitionResult
  step =
      if not identity_matches
      then ok (rejected h s e "cycle_identity_mismatch")
      else elim exact_record [ none ↦ admit | some _ ↦ ok (replay e s) ]
