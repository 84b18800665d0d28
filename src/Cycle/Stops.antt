-- ===== src/Cycle/Stops.antt =====
-- How a recovery ends in extensions/ooptdd-mutation/src/ooptdd_mutation/ouroboros/reducer.py.
use ooptdd.Base.{
  ◌≤◌, Bool, true, false, ◌&&◌, ◌||◌, not, Option, none, some, List, [], ◌∷◌, any, find, keep, ok,
  ◌≡◌, refl, subst, ap, arith,
}
use ooptdd.Cycle.Model.{
  Phase, is_phase, is_terminal, EventKind, ProtocolEvent, EventRecord, CycleSnapshot, Hashing,
  TransitionResult, Digest, digest_eq, MaterialLock, InterruptReason,
}
use ooptdd.Cycle.Payload.{exact_keys, digest_item}
use ooptdd.Cycle.Runs.{record_effect, accept, steps_left}
use ooptdd.Cycle.Reducer.{halt_phase, put_back, restore_to, restore_under, restore}
use ooptdd.Cycle.Step.{same_event, same_intent, dispatch, admit, identity_matches, is_known, step}
use ooptdd.Cycle.Invariant.{Stage, tail, Sound}
use ooptdd.Cycle.Commit.{next}
use ooptdd.Cycle.Facts.{halt_phase_elim}
use ooptdd.Cycle.Restoring.{recovered-ok}
use ooptdd.Cycle.Reach.{Reaches, Reaches-Sound}

terminal-halt_phase : (o : Option InterruptReason) → is_terminal (halt_phase o) ≡ true
terminal-halt_phase o = halt_phase_elim (λ p. is_terminal p ≡ true) refl refl refl o

&&_false : (b : Bool) → (b && false) ≡ false
&&_false true = refl
&&_false false = refl

-- No record of the journal has the event's identity, so none is of the event.
unknown_fresh :
    (e : ProtocolEvent) (p : EventRecord → Bool) (rs : List EventRecord)
    → any (same_event e) rs ≡ false
    → find p (keep (same_event e) rs) ≡ none
unknown_fresh e p [] t = refl
unknown_fresh e p (r ∷ rs) t = ground (arith, unknown_fresh e p rs)

-- The event asks for the restoration of the source that the lock names.
pub record RestoresLocked (h : Hashing) (s : CycleSnapshot) (e : ProtocolEvent) : Type 0 where
  pub lock : MaterialLock
  pub source : Digest
  pub is_restore : e.kind ≡ EventKind.restore
  pub keys : exact_keys ("restored_source" ∷ []) [] (h.loads e.payload_json) ≡ true
  pub payload : digest_item h "restored_source" (h.loads e.payload_json) ≡ ok source
  pub locked : s.material_lock ≡ some lock
  pub same : digest_eq source lock.source ≡ true

pub record Ended (h : Hashing) (s : CycleSnapshot) (e : ProtocolEvent) : Type 0 where
  pub result : TransitionResult
  pub returns : step h s e ≡ ok result
  pub accepted : result.accepted ≡ true
  pub terminal : is_terminal result.snapshot.phase ≡ true
  pub inactive : result.snapshot.mutation_active ≡ false

module _ (h : Hashing) (s : CycleSnapshot) (e : ProtocolEvent) (k : Sound h s)
    (here : s.phase ≡ Phase.recovery_required) (a : RestoresLocked h s e) where
  small : tail s.phase ≤ 1
  small = let t = ap tail here in omega (arith, t)

  abbrev halted : TransitionResult
  halted = accept h none (record_effect h s e (halt_phase s.pending_interrupt) ∷ []) (
      next h s e (halt_phase s.pending_interrupt) [] (steps_left h s)
        (put_back h s e a.source s.pending_interrupt none))

  tests :
      (p : Phase)
      → p ≡ Phase.recovery_required
      → (is_phase p Phase.recovery_required ≡ true)
        × (((is_phase p Phase.mutation_active || is_phase p Phase.negative_red_confirmed) ≡ false)
            × (is_terminal p ≡ false))
  tests p t = rw t (refl, (refl, refl))

  restore_to-ok : restore_to h s e a.source ≡ ok halted
  unfolding restore_to
  restore_to-ok =
      let t = tests s.phase here in
      rw t.1.0 (rw t.0 (recovered-ok h s e k a.lock a.source small a.locked a.same))

  restore-ok : restore h s e (h.loads e.payload_json) ≡ ok halted
  unfolding restore restore_under
  restore-ok =
      let g = subst (Stage h s) here k.stage in
      simp (a.keys, a.locked, g.is_active, a.payload, a.same, restore_to-ok)

  dispatch-ok : dispatch h s e EventKind.restore (h.loads e.payload_json) ≡ ok halted
  unfolding dispatch
  dispatch-ok = simp (here, restore-ok)

  admit-ok : is_known h s e ≡ false → admit h s e ≡ ok halted
  unfolding admit
  admit-ok unknown =
      let g = subst (Stage h s) here k.stage in
      simp (here, unknown, a.is_restore, g.is_active, dispatch-ok, &&_false (not (steps_left h s)))

  step-ok : identity_matches h s e ≡ true → is_known h s e ≡ false → step h s e ≡ ok halted
  unfolding step
  step-ok mine unknown =
      simp (mine, unknown_fresh e (same_intent e) s.events unknown, admit-ok unknown)

-- In a snapshot that is reached and whose phase is the recovery, a restoration to the locked source
-- under a new event identity of the cycle is accepted and ends the cycle, with no mutation active.
pub recovery-Ended :
    (h : Hashing) (s : CycleSnapshot) (e : ProtocolEvent)
    → Reaches h s
    → s.phase ≡ Phase.recovery_required
    → identity_matches h s e ≡ true
    → is_known h s e ≡ false
    → RestoresLocked h s e
    → Ended h s e
recovery-Ended h s e p here mine unknown a = record {
  result = halted h s e (Reaches-Sound h s p) here a;
  returns = step-ok h s e (Reaches-Sound h s p) here a mine unknown;
  accepted = refl;
  terminal = terminal-halt_phase s.pending_interrupt;
  inactive = refl;
}
