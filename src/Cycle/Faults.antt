-- ===== src/Cycle/Faults.antt =====
-- `_collision` and `_budget_exhausted` of
-- extensions/ooptdd-mutation/src/ooptdd_mutation/ouroboros/reducer.py: they always commit.
use ooptdd.Base.{
  ℕ, all, suc, ◌+◌, ◌≤◌, Bool, true, false, ◌&&◌, ◌||◌, not, Option, some, String, List, [], ◌∷◌,
  if◌then◌else◌, Result, ok, ◌≡◌, refl, arith, leb→le, le→leb, leb, ltb,
}
use ooptdd.Cycle.Model.{
  Phase, is_terminal, ProtocolEvent, EffectIntent, CycleSnapshot, snapshot_ok, Hashing,
  TransitionResult, is_given, InterruptReason, identity_clash, budget_exhausted,
}
use ooptdd.Cycle.Runs.{commit_with, steps_left, restore_effect, collision, out_of_budget}
use ooptdd.Cycle.Step.{caused_by}
use ooptdd.Cycle.Invariant.{Halted, Stage, Findings, tail, Sound}
use ooptdd.Cycle.Stages.{Stage-undone, Stage-Recovering}
use ooptdd.Cycle.Commit.{
  Keeps, cost, snapshot_ok-Fits, Fits-snapshot_ok, next, commit_with-ok, next-Sound, next-Keeps,
  restore_effect-caused,
}

-- The computation returns a result that keeps the invariant.
pub record Settles (h : Hashing) (s : CycleSnapshot) (e : ProtocolEvent)
    (r : Result TransitionResult) : Type 0 where
  pub result : TransitionResult
  pub returns : r ≡ ok result
  pub keeps : Keeps h s e result

pub Settles-split :
    (h : Hashing) (s : CycleSnapshot) (e : ProtocolEvent) (b : Bool) (x y : Result TransitionResult)
    → (b ≡ true → Settles h s e x)
    → (b ≡ false → Settles h s e y)
    → Settles h s e (if b then x else y)
Settles-split h s e true x y f g = f refl
Settles-split h s e false x y f g = g refl

-- `if steps are left` costs no more than the budget has.
pub cost_fits :
    (used bound : ℕ) → leb used bound ≡ true → leb (used + cost (ltb used bound)) bound ≡ true
cost_fits used bound t = ground arith

module _ (h : Hashing) (s : CycleSnapshot) (e : ProtocolEvent) where
  pub next-snapshot_ok :
      (to : Phase) (extra : List EffectIntent) (consume : Bool) (t : CycleSnapshot)
      → leb (s.revision + 1) (t.budget.max_steps + 2) ≡ true
      → leb (s.steps_used + cost consume) t.budget.max_steps ≡ true
      → ltb t.identity.generation t.budget.max_generations ≡ true
      → (not t.mutation_active || (is_given t.mutation_delta && is_given t.mutated_source)) ≡ true
      → (is_terminal to && t.mutation_active) ≡ false
      → snapshot_ok (next h s e to extra consume t) ≡ true
  next-snapshot_ok to extra consume t a b c d f =
      Fits-snapshot_ok (next h s e to extra consume t)
        (record { revision = a; steps = b; generation = c; identified = d; settled = f })

  -- A commit from a sound snapshot that leaves the mutation as it is
  module _ (k : Sound h s) (ordinary : tail s.phase ≡ 0) where
    pub revision_fits : leb (s.revision + 1) (s.budget.max_steps + 2) ≡ true
    revision_fits = le→leb _ _ (
        let a = k.bounded in
        let b = leb→le s.steps_used s.budget.max_steps (snapshot_ok-Fits s k.fits).steps in
        omega (arith, a, b, ordinary))

    pub fault_bound :
        (consume : Bool) (n : ℕ) → s.revision + 1 ≤ s.steps_used + cost consume + suc n
    fault_bound consume n = let a = k.bounded in omega (arith, a, ordinary)

    -- … into a recovery, with an active mutation
    pub recover :
        (code : Option String) (extra : List EffectIntent) (consume : Bool)
        (reason : InterruptReason)
        → leb (s.steps_used + cost consume) s.budget.max_steps ≡ true
        → all (caused_by e) extra ≡ true
        → s.mutation_active ≡ true
        → Settles h s e (
            commit_with h code s e Phase.recovery_required extra consume
              (record s { pending_interrupt = some reason }))
    recover code extra consume reason steps caused active =
        let t : CycleSnapshot = record s { pending_interrupt = some reason } in
        let f = snapshot_ok-Fits s k.fits in
        let g = Stage-Recovering h s s.phase k.stage active in
        let fits =
          next-snapshot_ok Phase.recovery_required extra consume t revision_fits steps f.generation
            f.identified refl in
        record {
          result = _;
          returns = commit_with-ok h s e code Phase.recovery_required extra consume t fits;
          keeps =
              next-Keeps h s e code Phase.recovery_required extra consume t (refl, refl) caused
                (next-Sound h s e Phase.recovery_required extra consume t fits k
                  (fault_bound consume 0) k.own_ids k.own_namespaces
                  (record { lock = g.lock; locked = g.locked; is_active = g.is_active }) tt);
        }

    -- … into a halt, without one
    pub halt :
        (code : Option String) (to : Phase) (consume : Bool) (reason : InterruptReason)
        → leb (s.steps_used + cost consume) s.budget.max_steps ≡ true
        → s.mutation_active ≡ false
        → ((t : CycleSnapshot) → Halted h t → Stage h t to)
        → ((t : CycleSnapshot) → Findings h t to)
        → tail to ≡ 2
        → Settles h s e
            (commit_with h code s e to [] consume (record s { halt_reason = some reason }))
    halt code to consume reason steps inactive stage findings two =
        let t : CycleSnapshot = record s { halt_reason = some reason } in
        let f = snapshot_ok-Fits s k.fits in
        let fits =
          next-snapshot_ok to [] consume t revision_fits steps f.generation f.identified
            (rw inactive (ground arith)) in
        record {
          result = _;
          returns = commit_with-ok h s e code to [] consume t fits;
          keeps =
              next-Keeps h s e code to [] consume t (refl, refl) refl
                (next-Sound h s e to [] consume t fits k (rw two (fault_bound consume 1)) k.own_ids
                  k.own_namespaces
                  (stage (next h s e to [] consume t) (record {
                    inactive = inactive;
                    undo = Stage-undone h s s.phase k.stage inactive;
                  }))
                  (findings (next h s e to [] consume t)));
        }

    pub collision-Settles : Settles h s e (collision h s e)
    unfolding collision
    collision-Settles =
        let steps = cost_fits _ _ (snapshot_ok-Fits s k.fits).steps in
        Settles-split h s e s.mutation_active _ _
          (λ a.
            recover _ (restore_effect h s e identity_clash ∷ []) (steps_left h s) identity_clash
              steps (restore_effect-caused h s e identity_clash) a)
          (λ b.
            halt _ Phase.identity_conflict (steps_left h s) identity_clash steps b (λ t u. u)
              (λ t. tt) refl)

    pub out_of_budget-Settles : Settles h s e (out_of_budget h s e)
    unfolding out_of_budget
    out_of_budget-Settles =
        let steps : leb (s.steps_used + 0) s.budget.max_steps ≡ true =
          (let f = (snapshot_ok-Fits s k.fits).steps in ground arith) in
        Settles-split h s e s.mutation_active _ _
          (λ a.
            recover _ (restore_effect h s e budget_exhausted ∷ []) false budget_exhausted steps
              (restore_effect-caused h s e budget_exhausted) a)
          (λ b. halt _ Phase.interrupted false budget_exhausted steps b (λ t u. u) (λ t. tt) refl)
