-- ===== src/Cycle/Runs/Effects.antt =====
-- extensions/ooptdd-mutation/src/ooptdd_mutation/ouroboros/reducer.py: what every transition does
-- (`_effect`, `_rejected`, `_commit`, `_fault_transition`), and the two faults.
use ooptdd.Base.{
  ℕ, ◌+◌, Bool, true, false, Option, none, some, String, List, [], ◌∷◌, ◌++◌, ltb, if◌then◌else◌,
  Result, ok, ◌>>=◌,
}
use ooptdd.Value.{str, Fields, end, field}
use ooptdd.Cycle.Model.{
  Phase, phase_text, kind_text, reason_text, ProtocolEvent, EventRecord, EffectIntent, EffectKind,
  idempotent_write, record_transition, audit_rejection, restore_required, CycleSnapshot, construct,
  Hashing, TransitionResult, InterruptReason, budget_exhausted, identity_clash,
}

module _ (h : Hashing) where
  -- `_effect`
  abbrev pub effect : ProtocolEvent → EffectKind → Fields → ℕ → EffectIntent
  effect e kind payload ordinal = record {
    effect_id = h.effect_id e.intent_hash kind ordinal payload;
    kind = kind;
    effect_class = idempotent_write;
    causation_event_id = e.event_id;
    causation_intent_hash = e.intent_hash;
    payload_json = h.dumps payload;
  }

  -- `_rejected`
  abbrev pub rejected : CycleSnapshot → ProtocolEvent → String → TransitionResult
  rejected s e code = record {
    accepted = false;
    replayed = false;
    snapshot = s;
    effects =
        effect e audit_rejection
          (field "code" (str code) (
            field "cycle_id" (str s.identity.cycle_id) (
              field "event" (str (kind_text e.kind))
                (field "phase" (str (phase_text s.phase)) end))))
          0
        ∷ [];
    rejection_code = some code;
  }

  abbrev pub record_effect : CycleSnapshot → ProtocolEvent → Phase → EffectIntent
  record_effect s e to =
      effect e record_transition
        (field "cycle_id" (str s.identity.cycle_id) (
          field "event_intent_hash" (str e.intent_hash) (
            field "from_phase" (str (phase_text s.phase))
              (field "to_phase" (str (phase_text to)) end))))
        0

  -- The intent to restore the source, which accompanies each fault under a mutation
  abbrev pub restore_effect : CycleSnapshot → ProtocolEvent → InterruptReason → EffectIntent
  restore_effect s e reason =
      effect e restore_required
        (field "cycle_id" (str s.identity.cycle_id) (field "reason" (str (reason_text reason)) end))
        1

  abbrev pub event_record : CycleSnapshot → ProtocolEvent → Phase → EventRecord
  event_record s e to = record { event = e; from_phase = s.phase; to_phase = to }

  -- `replace(snapshot, …)` in `_commit`; `t` is the snapshot with the updates of the caller.
  abbrev pub advanced :
      CycleSnapshot
      → ProtocolEvent
      → Phase
      → List EffectIntent
      → Bool
      → CycleSnapshot
      → CycleSnapshot
  advanced s e to emitted consume t = record t {
    phase = to;
    revision = s.revision + 1;
    steps_used = s.steps_used + (if consume then 1 else 0);
    events = s.events ++ (event_record s e to ∷ []);
    effects = s.effects ++ emitted;
  }

  abbrev pub accept : Option String → List EffectIntent → CycleSnapshot → TransitionResult
  accept code emitted s = record {
    accepted = true;
    replayed = false;
    snapshot = s;
    effects = emitted;
    rejection_code = code;
  }

  -- `_commit`, and `_fault_transition` where there is a code
  unfoldable pub commit_with :
      Option String
      → CycleSnapshot
      → ProtocolEvent
      → Phase
      → List EffectIntent
      → Bool
      → CycleSnapshot
      → Result TransitionResult
  commit_with code s e to extra consume t =
      let emitted = record_effect s e to ∷ extra in
      construct (advanced s e to emitted consume t) >>= λ next. ok (accept code emitted next)

  abbrev pub commit :
      CycleSnapshot → ProtocolEvent → Phase → CycleSnapshot → Result TransitionResult
  commit s e to t = commit_with none s e to [] true t

  abbrev pub steps_left : CycleSnapshot → Bool
  steps_left s = ltb s.steps_used s.budget.max_steps

  -- `_collision`
  unfoldable pub collision : CycleSnapshot → ProtocolEvent → Result TransitionResult
  collision s e =
      if s.mutation_active
      then commit_with (some "event_identity_conflict") s e Phase.recovery_required
          (restore_effect s e identity_clash ∷ []) (steps_left s)
          (record s { pending_interrupt = some identity_clash })
      else commit_with (some "event_identity_conflict") s e Phase.identity_conflict []
          (steps_left s) (record s { halt_reason = some identity_clash })

  -- `_budget_exhausted`
  unfoldable pub out_of_budget : CycleSnapshot → ProtocolEvent → Result TransitionResult
  out_of_budget s e =
      if s.mutation_active
      then commit_with (some "budget_exhausted") s e Phase.recovery_required
          (restore_effect s e budget_exhausted ∷ []) false
          (record s { pending_interrupt = some budget_exhausted })
      else commit_with (some "budget_exhausted") s e Phase.interrupted [] false
          (record s { halt_reason = some budget_exhausted })
