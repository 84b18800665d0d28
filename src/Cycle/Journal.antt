-- ===== src/Cycle/Journal.antt =====
-- The journal of extensions/ooptdd-mutation/src/ooptdd_mutation/ouroboros/reducer.py: the path of the
-- phases, the causes of the effects, and the replay of an event.
use ooptdd.Base.{
  Bool, true, false, ◌&&◌, none, str_eq, str_eq→eq, List, [], ◌∷◌, ◌++◌, any, all, keep, find,
  any-append, all-append, ◌≡◌, refl, sym, subst, ap, ◌∙◌, arith, ◌⊎◌, inl, inr, ◌≢◌, eq→str_eq,
  &&_true,
}
use ooptdd.Cycle.Model.{
  Phase, ProtocolEvent, EventRecord, EffectIntent, CycleSnapshot, Hashing, TransitionResult,
  first_snapshot,
}
use ooptdd.Cycle.Step.{same_event, same_intent, caused_by}
use ooptdd.Cycle.Commit.{Unmoved, Appended}
use ooptdd.Cycle.Reach.{Reaches, start, advance, Reaches-Sound, step-Keeps, constructed}

-- Each record leaves the phase that the one before it entered.
pub Linked : Phase → List EventRecord → Phase → Type 0
Linked p [] q = p ≡ q
Linked p (r ∷ rs) q = (r.from_phase ≡ p) × Linked r.to_phase rs q

Linked-append :
    (p q : Phase) (rs : List EventRecord) (r : EventRecord)
    → Linked p rs q
    → r.from_phase ≡ q
    → Linked p (rs ++ (r ∷ [])) r.to_phase
unfolding Linked
Linked-append p q [] r l t = (t ∙ sym l, refl)
Linked-append p q (x ∷ rs) r l t = (l.0, Linked-append x.to_phase q rs r l.1 t)

Linked-step :
    (s : CycleSnapshot) (e : ProtocolEvent) (r : TransitionResult)
    → Unmoved s r ⊎ Appended s e r
    → Linked Phase.init s.events s.phase
    → Linked Phase.init r.snapshot.events r.snapshot.phase
unfolding Linked
Linked-step s e r (inl u) l =
    subst (λ (x : CycleSnapshot). Linked Phase.init x.events x.phase) (sym u.same) l
Linked-step s e r (inr a) l =
    subst (λ rs. Linked Phase.init rs r.snapshot.phase) (sym a.events)
      (Linked-append Phase.init s.phase s.events
        (record { event = e; from_phase = s.phase; to_phase = r.snapshot.phase }) l refl)

-- The journal of a snapshot that is reached is a path of phases, from the first one to the phase of
-- the snapshot.
pub Reaches-Linked :
    (h : Hashing) (s : CycleSnapshot) → Reaches h s → Linked Phase.init s.events s.phase
unfolding Linked
Reaches-Linked h s (start identity budget t) =
    subst (λ (x : CycleSnapshot). Linked Phase.init x.events x.phase)
      (constructed (first_snapshot identity budget) s t).1 refl
Reaches-Linked h s (advance {s0} e {r} p t) =
    Linked-step s0 e r (step-Keeps h s0 e r (Reaches-Sound h s0 p) t).logged (Reaches-Linked h s0 p)

-- The record is of the very event.
abbrev is_exact : ProtocolEvent → EventRecord → Bool
is_exact e r = same_event e r && same_intent e r

-- The effect is caused by an event of the journal.
abbrev has_cause : List EventRecord → EffectIntent → Bool
has_cause rs f = any (λ (r : EventRecord). caused_by r.event f) rs

abbrev traced : CycleSnapshot → Bool
traced s = all (has_cause s.events) s.effects

has_cause-append :
    (rs ts : List EventRecord) (fs : List EffectIntent)
    → all (has_cause rs) fs ≡ true
    → all (has_cause (rs ++ ts)) fs ≡ true
has_cause-append rs ts [] t = refl
has_cause-append rs ts (f ∷ fs) t =
    let u = &&_true (has_cause rs f) (all (has_cause rs) fs) t in
    rw (any-append (λ (r : EventRecord). caused_by r.event f) rs ts)
      (rw u.0 (has_cause-append rs ts fs u.1))

has_cause-last :
    (rs : List EventRecord) (r : EventRecord) (fs : List EffectIntent)
    → all (caused_by r.event) fs ≡ true
    → all (has_cause (rs ++ (r ∷ []))) fs ≡ true
has_cause-last rs r [] t = refl
has_cause-last rs r (f ∷ fs) t =
    let u = &&_true (caused_by r.event f) (all (caused_by r.event) fs) t in
    rw (any-append (λ (x : EventRecord). caused_by x.event f) rs (r ∷ []))
      (rw u.0 (ground (arith, has_cause-last rs r fs u.1)))

traced-step :
    (s : CycleSnapshot) (e : ProtocolEvent) (r : TransitionResult)
    → Unmoved s r ⊎ Appended s e r
    → traced s ≡ true
    → traced r.snapshot ≡ true
traced-step s e r (inl u) t = subst (λ x. traced x ≡ true) (sym u.same) t
traced-step s e r (inr a) t =
    let last : EventRecord = record {
      event = e;
      from_phase = s.phase;
      to_phase = r.snapshot.phase;
    } in
    rw a.events (
      rw a.effects (
        all-append (has_cause (s.events ++ (last ∷ []))) s.effects r.effects
        ∙ rw (has_cause-append s.events (last ∷ []) s.effects t)
            (has_cause-last s.events last r.effects a.caused)))

pub Reaches-traced : (h : Hashing) (s : CycleSnapshot) → Reaches h s → traced s ≡ true
Reaches-traced h s (start identity budget t) =
    subst (λ x. traced x ≡ true) (constructed (first_snapshot identity budget) s t).1 refl
Reaches-traced h s (advance {s0} e {r} p t) =
    traced-step s0 e r (step-Keeps h s0 e r (Reaches-Sound h s0 p) t).logged (Reaches-traced h s0 p)

-- Two records that caused the same effect are of the same event.
exact-caused :
    (e g : ProtocolEvent) (f : EffectIntent)
    → caused_by g f ≡ true
    → caused_by e f ≡ true
    → (str_eq g.event_id e.event_id && str_eq g.intent_hash e.intent_hash) ≡ true
exact-caused e g f a b =
    let p =
      &&_true (str_eq f.causation_event_id g.event_id)
        (str_eq f.causation_intent_hash g.intent_hash) a in
    let q =
      &&_true (str_eq f.causation_event_id e.event_id)
        (str_eq f.causation_intent_hash e.intent_hash) b in
    rw
      (eq→str_eq g.event_id e.event_id (
        sym (str_eq→eq f.causation_event_id g.event_id p.0)
        ∙ str_eq→eq f.causation_event_id e.event_id q.0))
      (eq→str_eq g.intent_hash e.intent_hash (
        sym (str_eq→eq f.causation_intent_hash g.intent_hash p.1)
        ∙ str_eq→eq f.causation_intent_hash e.intent_hash q.1))

-- No effect of a journal without the event is caused by it.
uncaused :
    (e : ProtocolEvent) (rs : List EventRecord) (f : EffectIntent)
    → any (is_exact e) rs ≡ false
    → has_cause rs f ≡ true
    → caused_by e f ≡ false
uncaused e [] f n t = cc
uncaused e (r ∷ rs) f n t = ground (arith, uncaused e rs f, exact-caused e r.event f)

pub keep-uncaused :
    (e : ProtocolEvent) (rs : List EventRecord) (fs : List EffectIntent)
    → any (is_exact e) rs ≡ false
    → all (has_cause rs) fs ≡ true
    → keep (caused_by e) fs ≡ []
keep-uncaused e rs [] n t = refl
keep-uncaused e rs (f ∷ fs) n t =
    let u = &&_true (has_cause rs f) (all (has_cause rs) fs) t in
    rw (uncaused e rs f n u.0) (keep-uncaused e rs fs n u.1)

pub keep-all {ℓ} : {A : Type ℓ} (p : A → Bool) (xs : List A) → all p xs ≡ true → keep p xs ≡ xs
keep-all p [] t = refl
keep-all p (x ∷ xs) t =
    let u = &&_true (p x) (all p xs) t in rw u.0 (ap (λ ys. x ∷ ys) (keep-all p xs u.1))

pub find-keep-none {ℓ} :
    {A : Type ℓ} (p q : A → Bool) (xs : List A)
    → find p (keep q xs) ≡ none
    → any (λ x. q x && p x) xs ≡ false
find-keep-none p q [] t = refl
find-keep-none p q (x ∷ xs) t = ground (arith, find-keep-none p q xs)

pub find-keep_last {ℓ} :
    {A : Type ℓ} (p q : A → Bool) (xs : List A) (x : A)
    → p x ≡ true
    → q x ≡ true
    → find p (keep q (xs ++ (x ∷ []))) ≢ none
find-keep_last p q [] x a b t = ground (arith)
find-keep_last p q (y ∷ xs) x a b t = ground (arith, find-keep_last p q xs x)
