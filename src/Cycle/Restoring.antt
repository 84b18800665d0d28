-- ===== src/Cycle/Restoring.antt =====
-- `_restore` of extensions/ooptdd-mutation/src/ooptdd_mutation/ouroboros/reducer.py keeps the invariant:
-- what it commits passes the checks of the snapshot.
use ooptdd.Base.{
  ℕ, ◌+◌, ◌≤◌, Bool, true, false, ◌&&◌, ◌||◌, not, Option, none, some, [], ◌∷◌, Result, ok, Returns,
  returned, Returns-bind, Returns-split, ◌≡◌, refl, sym, subst, ap, ◌∙◌, arith, not-false, leb→le,
  le→leb, leb, ltb,
}
use ooptdd.Value.{Fields}
use ooptdd.Cycle.Model.{
  Phase, is_phase, ProtocolEvent, CycleSnapshot, snapshot_ok, Hashing, TransitionResult, Digest,
  digest_eq, MaterialLock, InterruptReason, budget_exhausted,
}
use ooptdd.Cycle.Payload.{require_keys, digest_item}
use ooptdd.Cycle.Runs.{rejected, accept, record_effect, commit_with, commit, steps_left}
use ooptdd.Cycle.Reducer.{halt_phase, put_back, restore_to, restore_under, restore}
use ooptdd.Cycle.Invariant.{undone_as, Halted, Stage, Findings, tail, Sound}
use ooptdd.Cycle.Facts.{Untouched-carry, is_phase→eq, halt_phase_elim}
use ooptdd.Cycle.Commit.{
  Keeps, cost, snapshot_ok-Fits, next, commit_with-ok, next-Sound, next-Keeps, rejected-Keeps,
}
use ooptdd.Cycle.Faults.{Settles, Settles-split, cost_fits, next-snapshot_ok, halt}
use ooptdd.Cycle.Evidence.{some-injective}

pub Settles-Returns :
    (h : Hashing) (s : CycleSnapshot) (e : ProtocolEvent) (r : Result TransitionResult)
    → Settles h s e r
    → Returns (Keeps h s e) r
Settles-Returns h s e r t = subst (Returns (Keeps h s e)) (sym t.returns) (returned t.keeps)

undone_as-restored :
    (m : Option Digest) (o : Option MaterialLock) (l : MaterialLock) (d : Digest)
    → o ≡ some l
    → digest_eq d l.source ≡ true
    → undone_as m o (some d) ≡ true
undone_as-restored none o l d t u = refl
undone_as-restored (some c) o l d t u = rw t u

halt_phase-Stage :
    (h : Hashing) (t : CycleSnapshot) (o : Option InterruptReason)
    → Halted h t
    → Stage h t (halt_phase o)
halt_phase-Stage h t o g = halt_phase_elim (Stage h t) g g g o

halt_phase-Findings :
    (h : Hashing) (t : CycleSnapshot) (o : Option InterruptReason) → Findings h t (halt_phase o)
halt_phase-Findings h t o = halt_phase_elim (Findings h t) tt tt tt o

tail-halt_phase : (o : Option InterruptReason) → tail (halt_phase o) ≡ 2
tail-halt_phase o = halt_phase_elim (λ p. tail p ≡ 2) refl refl refl o

pub cost_of_step : (used bound : ℕ) → ltb used bound ≡ true → leb (used + 1) bound ≡ true
cost_of_step used bound t = ground arith

-- A step is left where the guard on the budget was passed.
left_over : (a b left : Bool) → b ≡ true → ((a || b) && not left) ≡ false → left ≡ true
left_over a b left t u = ground arith

module _ (h : Hashing) (s : CycleSnapshot) (e : ProtocolEvent) (k : Sound h s) where
  -- A restoration to the locked source, from a phase with a tail of at most one
  module _ (l : MaterialLock) (d : Digest) (small : tail s.phase ≤ 1)
      (locked : s.material_lock ≡ some l) (same : digest_eq d l.source ≡ true) where
    settle_fits :
        (to : Phase) (consume : Bool) (halt pending : Option InterruptReason)
        → leb (s.steps_used + cost consume) s.budget.max_steps ≡ true
        → snapshot_ok (next h s e to [] consume (put_back h s e d halt pending)) ≡ true
    settle_fits to consume halt pending steps =
        let f = snapshot_ok-Fits s k.fits in
        let used = leb→le s.steps_used s.budget.max_steps f.steps in
        let b = k.bounded in
        next-snapshot_ok h s e to [] consume (put_back h s e d halt pending)
          (le→leb (s.revision + 1) (s.budget.max_steps + 2) (omega (arith, b, used, small))) steps
          f.generation refl (ground arith)

    settle :
        (to : Phase) (consume : Bool) (halt pending : Option InterruptReason)
        → leb (s.steps_used + cost consume) s.budget.max_steps ≡ true
        → s.revision + 1 ≤ s.steps_used + cost consume + tail to
        → Stage h (next h s e to [] consume (put_back h s e d halt pending)) to
        → Findings h (next h s e to [] consume (put_back h s e d halt pending)) to
        → Settles h s e (commit_with h none s e to [] consume (put_back h s e d halt pending))
    settle to consume halt pending steps bound stage findings =
        let t = put_back h s e d halt pending in
        let fits = settle_fits to consume halt pending steps in
        record {
          result = _;
          returns = commit_with-ok h s e none to [] consume t fits;
          keeps =
              next-Keeps h s e none to [] consume t (refl, refl) refl
                (next-Sound h s e to [] consume t fits k bound k.own_ids k.own_namespaces stage
                  findings);
        }

    -- A recovery commits the restoration.
    pub recovered-ok :
        commit_with h none s e
          (halt_phase s.pending_interrupt)
          []
          (steps_left h s)
          (put_back h s e d s.pending_interrupt none)
        ≡ ok (
            accept h none (record_effect h s e (halt_phase s.pending_interrupt) ∷ []) (
              next h s e
                (halt_phase s.pending_interrupt)
                []
                (steps_left h s)
                (put_back h s e d s.pending_interrupt none)))
    recovered-ok =
        commit_with-ok h s e none (halt_phase s.pending_interrupt) [] (steps_left h s)
          (put_back h s e d s.pending_interrupt none)
          (settle_fits (halt_phase s.pending_interrupt) (steps_left h s) s.pending_interrupt none
            (cost_fits s.steps_used s.budget.max_steps (snapshot_ok-Fits s k.fits).steps))

    halted :
        (to : Phase) (consume : Bool) (halt pending : Option InterruptReason)
        → Halted h (next h s e to [] consume (put_back h s e d halt pending))
    halted to consume halt pending = record {
      inactive = refl;
      undo = undone_as-restored s.mutated_source s.material_lock l d locked same;
    }

    settle_interrupted : Settles h s e (
        commit_with h none s e Phase.interrupted [] false
          (put_back h s e d (some budget_exhausted) s.pending_interrupt))
    settle_interrupted =
        let f = (snapshot_ok-Fits s k.fits).steps in
        let b = k.bounded in
        settle Phase.interrupted false (some budget_exhausted) s.pending_interrupt (ground arith)
          (omega (arith, b, small)) (halted Phase.interrupted false _ _) tt

    settle_recovered : Settles h s e (
        commit_with h none s e
          (halt_phase s.pending_interrupt)
          []
          (steps_left h s)
          (put_back h s e d s.pending_interrupt none))
    settle_recovered =
        let o = s.pending_interrupt in
        let b = k.bounded in
        let two = tail-halt_phase o in
        settle (halt_phase o) (steps_left h s) o none
          (cost_fits s.steps_used s.budget.max_steps (snapshot_ok-Fits s k.fits).steps)
          (omega (arith, b, small, two))
          (halt_phase-Stage h _ o (halted (halt_phase o) (steps_left h s) o none))
          (halt_phase-Findings h _ o)

    -- Back among the ordinary phases, with a step to spare
    settle_restored :
        s.phase ≡ Phase.negative_red_confirmed
        → steps_left h s ≡ true
        → Settles h s e
            (commit h s e Phase.restored (put_back h s e d s.halt_reason s.pending_interrupt))
    settle_restored here left =
        let g = subst (Stage h s) here k.stage in
        let u = subst (Findings h s) here k.findings in
        let b = k.bounded in
        let zero_tail = ap tail here in
        settle Phase.restored true s.halt_reason s.pending_interrupt
          (cost_of_step s.steps_used s.budget.max_steps left) (omega (arith, b, zero_tail))
          (record {
            lock = g.lock;
            source = g.source;
            locked = g.locked;
            mutated = g.mutated;
            changed = g.changed;
            is_active = refl;
            back =
                subst (λ (m : MaterialLock). digest_eq d m.source ≡ true)
                  (some-injective (sym locked ∙ g.locked)) same;
            ran = g.ran;
          })
          (Untouched-carry h s _ refl refl u)

    pub restore_to-Settles : Settles h s e (restore_to h s e d)
    unfolding restore_to
    restore_to-Settles =
        let active = is_phase s.phase Phase.mutation_active in
        let red = is_phase s.phase Phase.negative_red_confirmed in
        Settles-split h s e ((active || red) && not (steps_left h s)) _ _ (λ _. settle_interrupted)
          (λ spare.
            Settles-split h s e (is_phase s.phase Phase.recovery_required) _ _
              (λ _. settle_recovered)
              (λ _.
                Settles-split h s e (not red) _ _
                  (λ _. record { result = _; returns = refl; keeps = rejected-Keeps h s e _ k })
                  (λ t.
                    let here = is_phase→eq s.phase Phase.negative_red_confirmed (not-false _ t) in
                    settle_restored here
                      (left_over active red (steps_left h s) (not-false _ t) spare))))

  restore_under-Keeps :
      (l : MaterialLock) (p : Fields)
      → tail s.phase ≤ 1
      → s.material_lock ≡ some l
      → Returns (Keeps h s e) (restore_under h s e l p)
  unfolding restore_under
  restore_under-Keeps l p small locked =
      Returns-split (Keeps h s e) (not s.mutation_active) _ _
        (λ _. returned (rejected-Keeps h s e _ k))
        (λ _. Returns-bind (Keeps h s e) (digest_item h "restored_source" p) _ (λ d _.
          Returns-split (Keeps h s e) (not (digest_eq d l.source)) _ _
            (λ _. returned (rejected-Keeps h s e _ k))
            (λ same.
              Settles-Returns h s e _ (restore_to-Settles l d small locked (not-false _ same)))))

  -- `elim` on the lock, whichever it is
  restore_with :
      (o : Option MaterialLock) (p : Fields)
      → s.material_lock ≡ o
      → tail s.phase ≤ 1
      → Returns (Keeps h s e) (elim o [
        | none ↦ ok (rejected h s e "no_active_mutation")
        | some lock ↦ restore_under h s e lock p
      ])
  restore_with none p t small = returned (rejected-Keeps h s e _ k)
  restore_with (some l) p t small = restore_under-Keeps l p small t

  pub restore-Keeps : (p : Fields) → tail s.phase ≤ 1 → Returns (Keeps h s e) (restore h s e p)
  unfolding restore
  restore-Keeps p small =
      Returns-bind (Keeps h s e) (require_keys ("restored_source" ∷ []) [] p) _
        (λ _ _. restore_with s.material_lock p refl small)
