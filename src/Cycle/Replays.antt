-- ===== src/Cycle/Replays.antt =====
-- Replays in extensions/ooptdd-mutation/src/ooptdd_mutation/ouroboros/reducer.py: an event that was
-- taken up is answered again with the effects that it had.
use ooptdd.Base.{
  Bool, true, false, ◌||◌, not, Option, none, some, str_eq_refl, keep, keep-append, if◌then◌else◌,
  Result, ok, ◌≡◌, ◌≢◌, refl, sym, subst, ap, ◌∙◌, inl, inr, ok-injective, arith,
}
use ooptdd.Cycle.Model.{
  is_terminal, ProtocolEvent, EventRecord, CycleSnapshot, Hashing, TransitionResult,
}
use ooptdd.Cycle.Runs.{rejected}
use ooptdd.Cycle.Step.{
  same_event, same_intent, caused_by, replay, admit, identity_matches, exact_record, step,
}
use ooptdd.Cycle.Commit.{Unmoved, Appended}
use ooptdd.Cycle.Reach.{Reaches, Reaches-Sound, step-Keeps}
use ooptdd.Cycle.Journal.{Reaches-traced, keep-uncaused, keep-all, find-keep-none, find-keep_last}

module _ (h : Hashing) (s : CycleSnapshot) (e : ProtocolEvent) where
  -- The two tests at the start of `step`, on their values
  abbrev gate : Bool → Option EventRecord → Result TransitionResult
  gate b o =
      if not b
      then ok (rejected h s e "cycle_identity_mismatch")
      else elim o [ none ↦ admit h s e | some _ ↦ ok (replay e s) ]

  gate_fresh :
      (b : Bool) (o : Option EventRecord) (r : TransitionResult)
      → gate b o ≡ ok r
      → r.accepted ≡ true
      → r.replayed ≡ false
      → (b ≡ true) × (o ≡ none)
  gate_fresh false o r t a f =
      let u = ap (λ (x : TransitionResult). x.accepted) (ok-injective t) in cc
  gate_fresh true none r t a f = (refl, refl)
  gate_fresh true (some x) r t a f =
      let u = ap (λ (y : TransitionResult). y.replayed) (ok-injective t) in cc

  gate_known :
      (b : Bool) (o : Option EventRecord) → b ≡ true → o ≢ none → gate b o ≡ ok (replay e s)
  gate_known false o t n = cc
  gate_known true none t n = absurd (n refl)
  gate_known true (some x) t n = refl

-- A second delivery of an event
pub record Redelivered (h : Hashing) (e : ProtocolEvent) (r : TransitionResult) : Type 0 where
  pub again : TransitionResult
  pub returns : step h r.snapshot e ≡ ok again
  pub accepted : again.accepted ≡ true
  pub replayed : again.replayed ≡ true
  pub same_snapshot : again.snapshot ≡ r.snapshot
  pub same_effects : again.effects ≡ r.effects

module _ (h : Hashing) (s : CycleSnapshot) (e : ProtocolEvent) (r : TransitionResult) where
  Unmoved-Redelivered : step h s e ≡ ok r → r.accepted ≡ true → Unmoved s r → Redelivered h e r
  Unmoved-Redelivered t a u = record {
    again = r;
    returns = subst (λ x. step h x e ≡ ok r) (sym u.same) t;
    accepted = a;
    replayed = passive_replayed r.accepted r.replayed a u.passive;
    same_snapshot = refl;
    same_effects = refl;
  }
    where
      passive_replayed : (b c : Bool) → b ≡ true → (not b || c) ≡ true → c ≡ true
      passive_replayed b c x y = ground arith

  Appended-Redelivered : Reaches h s → step h s e ≡ ok r → Appended s e r → Redelivered h e r
  unfolding step
  Appended-Redelivered p t a =
      let last : EventRecord = record {
        event = e;
        from_phase = s.phase;
        to_phase = r.snapshot.phase;
      } in
      let was =
        gate_fresh h s e (identity_matches h s e) (exact_record h s e) r t a.accepted a.fresh in
      let unseen = find-keep-none (same_intent e) (same_event e) s.events was.1 in
      record {
        again = replay e r.snapshot;
        returns =
            gate_known h r.snapshot e (identity_matches h r.snapshot e)
              (exact_record h r.snapshot e) (rw a.identity was.0)
              (rw a.events (
                find-keep_last (same_intent e) (same_event e) s.events last
                  (str_eq_refl e.intent_hash) (str_eq_refl e.event_id)));
        accepted = refl;
        replayed = refl;
        same_snapshot = refl;
        same_effects =
            ap (keep (caused_by e)) a.effects
            ∙ keep-append (caused_by e) s.effects r.effects
            ∙ rw (keep-uncaused e s.events s.effects unseen (Reaches-traced h s p))
                (keep-all (caused_by e) r.effects a.caused);
      }

-- From a snapshot that is reached, an event that is accepted can be delivered again: the second
-- delivery is accepted as a replay, leaves the snapshot as the first one left it, and has the same
-- effects.
pub step-Redelivered :
    (h : Hashing) (s : CycleSnapshot) (e : ProtocolEvent) (r : TransitionResult)
    → Reaches h s
    → step h s e ≡ ok r
    → r.accepted ≡ true
    → Redelivered h e r
step-Redelivered h s e r p t a = elim (step-Keeps h s e r (Reaches-Sound h s p) t).logged [
  | inl u ↦ Unmoved-Redelivered h s e r t a u
  | inr f ↦ Appended-Redelivered h s e r p t f
]

-- A terminal snapshot takes up no event: every step returns and leaves it as it is.
pub terminal_stays :
    (h : Hashing) (s : CycleSnapshot) (e : ProtocolEvent)
    → is_terminal s.phase ≡ true
    → (r : TransitionResult) × (step h s e ≡ ok r) × (r.snapshot ≡ s)
unfolding step admit
terminal_stays h s e ends = go (identity_matches h s e) (exact_record h s e)
  where
    go :
        (b : Bool) (o : Option EventRecord)
        → (r : TransitionResult) × (gate h s e b o ≡ ok r) × (r.snapshot ≡ s)
    go false o = (_, refl, refl)
    go true none = (rejected h s e "terminal_state", rw ends refl, refl)
    go true (some x) = (_, refl, refl)
