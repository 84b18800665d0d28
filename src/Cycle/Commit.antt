-- ===== src/Cycle/Commit.antt =====
-- `_commit`, `_commit_run`, `_collision` and `_budget_exhausted` of
-- extensions/ooptdd-mutation/src/ooptdd_mutation/ouroboros/reducer.py keep the invariant.
use ooptdd.Base.{
  ℕ, ◌+◌, ◌≤◌, Bool, true, false, ◌&&◌, ◌||◌, not, Option, String, List, [], ◌∷◌, ◌++◌,
  length-append, str_eq_refl, all, if◌then◌else◌, ok, Returns, returned, raised, ◌≡◌, refl, arith,
  Bool-cases, ◌⊎◌, inl, inr, &&_true, not-true, leb, ltb,
}
use ooptdd.Ouroboros.Model.{distinct}
use ooptdd.Cycle.Model.{
  Phase, is_terminal, ProtocolEvent, EffectIntent, CycleSnapshot, snapshot_ok, construct, Hashing,
  TransitionResult, is_given, InterruptReason,
}
use ooptdd.Cycle.Runs.{rejected, record_effect, advanced, accept, commit_with, restore_effect}
use ooptdd.Cycle.Step.{caused_by}
use ooptdd.Cycle.Invariant.{run_ids, namespaces, Stage, Findings, tail, Sound}

-- The snapshot took up the event: one record of it, from the phase before to the phase now, and the
-- effects of the result.
pub record Appended (s : CycleSnapshot) (e : ProtocolEvent) (r : TransitionResult) : Type 0 where
  pub accepted : r.accepted ≡ true
  pub fresh : r.replayed ≡ false
  pub identity : r.snapshot.identity ≡ s.identity
  pub budget : r.snapshot.budget ≡ s.budget
  pub revision : r.snapshot.revision ≡ s.revision + 1
  pub events :
      r.snapshot.events
      ≡ s.events ++ (record { event = e; from_phase = s.phase; to_phase = r.snapshot.phase } ∷ [])
  pub effects : r.snapshot.effects ≡ s.effects ++ r.effects
  pub caused : all (caused_by e) r.effects ≡ true

-- The snapshot is as it was, and the result is a rejection or a replay.
pub record Unmoved (s : CycleSnapshot) (r : TransitionResult) : Type 0 where
  pub same : r.snapshot ≡ s
  pub passive : (not r.accepted || r.replayed) ≡ true

pub record Keeps (h : Hashing) (s : CycleSnapshot) (e : ProtocolEvent) (r : TransitionResult)
    : Type 0 where
  pub sound : Sound h r.snapshot
  pub logged : Unmoved s r ⊎ Appended s e r

abbrev pub cost : Bool → ℕ
cost consume = if consume then 1 else 0

-- What `snapshot_ok` says
pub record Fits (s : CycleSnapshot) : Type 0 where
  pub revision : leb s.revision (s.budget.max_steps + 2) ≡ true
  pub steps : leb s.steps_used s.budget.max_steps ≡ true
  pub generation : ltb s.identity.generation s.budget.max_generations ≡ true
  pub identified :
      (not s.mutation_active || (is_given s.mutation_delta && is_given s.mutated_source)) ≡ true
  pub settled : (is_terminal s.phase && s.mutation_active) ≡ false

pub snapshot_ok-Fits : (s : CycleSnapshot) → snapshot_ok s ≡ true → Fits s
unfolding snapshot_ok
snapshot_ok-Fits s t =
    let a = leb s.revision (s.budget.max_steps + 2) in
    let b = leb s.steps_used s.budget.max_steps in
    let c = ltb s.identity.generation s.budget.max_generations in
    let d = not s.mutation_active || (is_given s.mutation_delta && is_given s.mutated_source) in
    let f = not (is_terminal s.phase && s.mutation_active) in
    let p = &&_true a (b && (c && (d && f))) t in
    let q = &&_true b (c && (d && f)) p.1 in
    let r = &&_true c (d && f) q.1 in
    let u = &&_true d f r.1 in
    record {
      revision = p.0;
      steps = q.0;
      generation = r.0;
      identified = u.0;
      settled = not-true _ u.1;
    }

pub Fits-snapshot_ok : (s : CycleSnapshot) → Fits s → snapshot_ok s ≡ true
unfolding snapshot_ok
Fits-snapshot_ok s f =
    rw f.revision (rw f.steps (rw f.generation (rw f.identified (rw f.settled refl))))

module _ (h : Hashing) (s : CycleSnapshot) (e : ProtocolEvent) where
  abbrev pub next : Phase → List EffectIntent → Bool → CycleSnapshot → CycleSnapshot
  next to extra consume t = advanced h s e to (record_effect h s e to ∷ extra) consume t

  pub commit_with-ok :
      (code : Option String) (to : Phase) (extra : List EffectIntent) (consume : Bool)
      (t : CycleSnapshot)
      → snapshot_ok (next to extra consume t) ≡ true
      → commit_with h code s e to extra consume t
        ≡ ok (accept h code (record_effect h s e to ∷ extra) (next to extra consume t))
  unfolding commit_with construct
  commit_with-ok code to extra consume t k = rw k refl

  -- The invariant after a commit, from what the caller knows of its updates
  pub next-Sound :
      (to : Phase) (extra : List EffectIntent) (consume : Bool) (t : CycleSnapshot)
      → snapshot_ok (next to extra consume t) ≡ true
      → Sound h s
      → s.revision + 1 ≤ s.steps_used + cost consume + tail to
      → distinct (run_ids t) ≡ true
      → distinct (namespaces t) ≡ true
      → Stage h (next to extra consume t) to
      → Findings h (next to extra consume t) to
      → Sound h (next to extra consume t)
  next-Sound to extra consume t fits k bound ids names stage findings = record {
    fits = fits;
    journal = rw (k.journal) (omega (arith, length-append s.events));
    bounded = bound;
    own_ids = ids;
    own_namespaces = names;
    stage = stage;
    findings = findings;
  }

  -- The intent to restore is the event's own effect.
  pub restore_effect-caused :
      (reason : InterruptReason) → all (caused_by e) (restore_effect h s e reason ∷ []) ≡ true
  restore_effect-caused reason = rw (str_eq_refl e.event_id) (rw (str_eq_refl e.intent_hash) refl)

  pub next-Keeps :
      (code : Option String) (to : Phase) (extra : List EffectIntent) (consume : Bool)
      (t : CycleSnapshot)
      → (t.identity ≡ s.identity) × (t.budget ≡ s.budget)
      → all (caused_by e) extra ≡ true
      → Sound h (next to extra consume t)
      → Keeps h s e (accept h code (record_effect h s e to ∷ extra) (next to extra consume t))
  next-Keeps code to extra consume t frame caused k = record {
    sound = k;
    logged = inr (record {
      accepted = refl;
      fresh = refl;
      identity = frame.0;
      budget = frame.1;
      revision = refl;
      events = refl;
      effects = refl;
      caused = rw (str_eq_refl e.event_id) (rw (str_eq_refl e.intent_hash) caused);
    });
  }

  pub rejected-Keeps : (code : String) → Sound h s → Keeps h s e (rejected h s e code)
  rejected-Keeps code k = record {
    sound = k;
    logged = inl (record { same = refl; passive = refl });
  }

  pub commit_with-Keeps :
      (code : Option String) (to : Phase) (extra : List EffectIntent) (consume : Bool)
      (t : CycleSnapshot)
      → Sound h s
      → (t.identity ≡ s.identity) × (t.budget ≡ s.budget)
      → all (caused_by e) extra ≡ true
      → s.revision + 1 ≤ s.steps_used + cost consume + tail to
      → distinct (run_ids t) ≡ true
      → distinct (namespaces t) ≡ true
      → Stage h (next to extra consume t) to
      → Findings h (next to extra consume t) to
      → Returns (Keeps h s e) (commit_with h code s e to extra consume t)
  unfolding commit_with construct
  commit_with-Keeps code to extra consume t k frame caused bound ids names stage findings =
      elim (Bool-cases (snapshot_ok (next to extra consume t))) [
        | inl p ↦ rw p (
            returned (
              next-Keeps code to extra consume t frame caused
                (next-Sound to extra consume t p k bound ids names stage findings)))
        | inr q ↦ rw q raised
      ]
