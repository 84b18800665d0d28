-- ===== src/Cycle/Stored.antt =====
-- extensions/ooptdd-mutation/src/ooptdd_mutation/ouroboros/model.py: the checks of `ProtocolEvent`, and
-- `EventRecord.to_dict` and `EventRecord.from_dict`, in which a journal is stored.
use ooptdd.Base.{
  Bool, true, false, ◌&&◌, Option, none, some, String, str_eq, List, [], ◌∷◌, map, if◌then◌else◌,
  Result, ok, raise, Error, ◌>>=◌, ◌≡◌, refl, ap, &&_true,
}
use ooptdd.Value.{Value, str, dict, Fields, end, field, find_key, has_key}
use ooptdd.Ouroboros.Model.{is_digest}
use ooptdd.Cycle.Model.{
  Phase, phase_text, EventKind, kind_text, ProtocolEvent, EventRecord, Hashing,
}
use ooptdd.Cycle.Payload.{
  item, exact_keys, require_keys, text_ok, require_text, as_text, as_object, member,
}

-- Beyond `Hashing`, what the checks take from elsewhere: `json.loads`, `canonical_json_bytes`, both with `none` for an
-- error, and the digest of an event's intent.
pub record Codec : Type 0 where
  pub loads : String → Option Value
  pub canonical : Fields → Option String
  pub intent : String → String → String → EventKind → Fields → String

abbrev pub kinds : List EventKind
kinds =
    EventKind.size ∷ EventKind.lock ∷ EventKind.initial_red ∷ EventKind.green ∷ EventKind.quarantine
    ∷ EventKind.mutation_applied ∷ EventKind.negative_red ∷ EventKind.restore ∷ EventKind.regreen
    ∷ EventKind.enumerate_findings ∷ EventKind.dispose_finding ∷ EventKind.seal
    ∷ EventKind.interrupt ∷ []

abbrev pub all_phases : List Phase
all_phases =
    Phase.init ∷ Phase.sized ∷ Phase.locked ∷ Phase.initial_red_confirmed ∷ Phase.green_confirmed
    ∷ Phase.quarantined ∷ Phase.mutation_active ∷ Phase.negative_red_confirmed ∷ Phase.restored
    ∷ Phase.regreen_confirmed ∷ Phase.bite_pending ∷ Phase.recovery_required ∷ Phase.complete
    ∷ Phase.superseded_by_successor ∷ Phase.inconclusive ∷ Phase.interrupted
    ∷ Phase.identity_conflict ∷ []

-- `EventKind(value)`
abbrev pub kind_from : Value → Result EventKind
kind_from v = member (map (λ k. (kind_text k, k)) kinds) v

-- `Phase(value)`
abbrev pub phase_from : Value → Result Phase
phase_from v = member (map (λ p. (phase_text p, p)) all_phases) v

module _ (h : Hashing) (c : Codec) where
  -- The payload is an object, its text is canonical, and the intent is its digest.
  unfoldable pub intent_ok : ProtocolEvent → Option Value → Bool
  intent_ok e (some (dict fs)) =
      (elim (c.canonical fs) [ none ↦ false | some t ↦ str_eq t e.payload_json ])
      && str_eq e.intent_hash (c.intent e.cycle_id e.cycle_identity_sha256 e.event_id e.kind fs)
  intent_ok e _ = false

  -- `ProtocolEvent.__post_init__`
  unfoldable pub event_ok : ProtocolEvent → Bool
  event_ok e =
      text_ok h e.cycle_id
      && (text_ok h e.event_id
          && (is_digest e.cycle_identity_sha256 && intent_ok e (c.loads e.payload_json)))

  abbrev pub construct_event : ProtocolEvent → Result ProtocolEvent
  construct_event e = if event_ok e then ok e else raise Error.value_error

  -- `EventRecord.to_dict`
  abbrev pub record_to : EventRecord → Fields
  record_to r = field "cycle_id" (str r.event.cycle_id) (
      field "cycle_identity_sha256" (str r.event.cycle_identity_sha256) (
        field "event_id" (str r.event.event_id) (
          field "kind" (str (kind_text r.event.kind)) (
            field "payload_json" (str r.event.payload_json) (
              field "intent_hash" (str r.event.intent_hash) (
                field "from_phase" (str (phase_text r.from_phase))
                  (field "to_phase" (str (phase_text r.to_phase)) end)))))))

  abbrev pub record_keys : List String
  record_keys =
      "cycle_id" ∷ "cycle_identity_sha256" ∷ "event_id" ∷ "kind" ∷ "payload_json" ∷ "intent_hash"
      ∷ "from_phase" ∷ "to_phase" ∷ []

  -- A pattern is matched against a text only.
  abbrev pub pattern_text : Value → Result String
  pattern_text (str s) = ok s
  pattern_text _ = raise Error.type_error

  -- `EventRecord.from_dict`
  unfoldable pub record_from : Value → Result EventRecord
  record_from v = do
    fs ← as_object v
    _ ← require_keys record_keys [] fs
    kind ← item "kind" fs >>= kind_from
    cycle_id ← item "cycle_id" fs >>= require_text h
    event_id ← item "event_id" fs >>= require_text h
    cycle_identity_sha256 ← item "cycle_identity_sha256" fs >>= pattern_text
    payload_json ← item "payload_json" fs >>= as_text
    intent_hash ← item "intent_hash" fs >>= as_text
    event ← construct_event (record {
      cycle_id = cycle_id;
      cycle_identity_sha256 = cycle_identity_sha256;
      event_id = event_id;
      kind = kind;
      payload_json = payload_json;
      intent_hash = intent_hash;
    })
    from_phase ← item "from_phase" fs >>= phase_from
    to_phase ← item "to_phase" fs >>= phase_from
    ok (record { event = event; from_phase = from_phase; to_phase = to_phase })

kind_from-kind_text : (k : EventKind) → kind_from (str (kind_text k)) ≡ ok k
kind_from-kind_text EventKind.size = refl
kind_from-kind_text EventKind.lock = refl
kind_from-kind_text EventKind.initial_red = refl
kind_from-kind_text EventKind.green = refl
kind_from-kind_text EventKind.quarantine = refl
kind_from-kind_text EventKind.mutation_applied = refl
kind_from-kind_text EventKind.negative_red = refl
kind_from-kind_text EventKind.restore = refl
kind_from-kind_text EventKind.regreen = refl
kind_from-kind_text EventKind.enumerate_findings = refl
kind_from-kind_text EventKind.dispose_finding = refl
kind_from-kind_text EventKind.seal = refl
kind_from-kind_text EventKind.interrupt = refl

phase_from-phase_text : (p : Phase) → phase_from (str (phase_text p)) ≡ ok p
phase_from-phase_text Phase.init = refl
phase_from-phase_text Phase.sized = refl
phase_from-phase_text Phase.locked = refl
phase_from-phase_text Phase.initial_red_confirmed = refl
phase_from-phase_text Phase.green_confirmed = refl
phase_from-phase_text Phase.quarantined = refl
phase_from-phase_text Phase.mutation_active = refl
phase_from-phase_text Phase.negative_red_confirmed = refl
phase_from-phase_text Phase.restored = refl
phase_from-phase_text Phase.regreen_confirmed = refl
phase_from-phase_text Phase.bite_pending = refl
phase_from-phase_text Phase.recovery_required = refl
phase_from-phase_text Phase.complete = refl
phase_from-phase_text Phase.superseded_by_successor = refl
phase_from-phase_text Phase.inconclusive = refl
phase_from-phase_text Phase.interrupted = refl
phase_from-phase_text Phase.identity_conflict = refl

construct_event-ok :
    (h : Hashing) (c : Codec) (e : ProtocolEvent)
    → event_ok h c e ≡ true
    → construct_event h c e ≡ ok e
construct_event-ok h c e t = rw t refl

event_texts :
    (h : Hashing) (c : Codec) (e : ProtocolEvent)
    → event_ok h c e ≡ true
    → (text_ok h e.cycle_id ≡ true) × (text_ok h e.event_id ≡ true)
unfolding event_ok
event_texts h c e t =
    let rest = is_digest e.cycle_identity_sha256 && intent_ok h c e (c.loads e.payload_json) in
    let p = &&_true (text_ok h e.cycle_id) (text_ok h e.event_id && rest) t in
    (p.0, (&&_true (text_ok h e.event_id) rest p.1).0)

-- A record of the journal whose event passes the checks of its constructor is read back as it was
-- stored.
pub record_from-record_to :
    (h : Hashing) (c : Codec) (r : EventRecord)
    → event_ok h c r.event ≡ true
    → record_from h c (dict (record_to h c r)) ≡ ok r
unfolding record_from item find_key exact_keys has_key require_text
record_from-record_to h c r t =
    let a = event_texts h c r.event t in
    simp
      (
        kind_from-kind_text r.event.kind,
        a.0,
        a.1,
        phase_from-phase_text r.from_phase,
        phase_from-phase_text r.to_phase,
      )
      (ap
        (λ x. x >>= λ event.
          ok (record { event = event; from_phase = r.from_phase; to_phase = r.to_phase }))
        (construct_event-ok h c r.event t))
