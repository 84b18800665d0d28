-- ===== src/Cycle/Interrupting.antt =====
-- `_interrupt` of extensions/ooptdd-mutation/src/ooptdd_mutation/ouroboros/reducer.py keeps the
-- invariant: what it commits passes the checks of the snapshot.
use ooptdd.Base.{true, none, some, [], ◌∷◌, if◌then◌else◌, ◌>>=◌, Returns, Returns-bind, ◌≡◌, refl}
use ooptdd.Value.{Fields}
use ooptdd.Cycle.Model.{
  Phase, ProtocolEvent, CycleSnapshot, Hashing, InterruptReason, cancelled, timed_out,
  budget_exhausted, retry_exhausted, no_conclusion, identity_clash,
}
use ooptdd.Cycle.Payload.{require_keys, item, member, reasons}
use ooptdd.Cycle.Runs.{commit_with, commit, steps_left, restore_effect}
use ooptdd.Cycle.Reducer.{is_reducer_owned, interrupt_for, interrupt}
use ooptdd.Cycle.Invariant.{Halted, Stage, Findings, tail, Sound}
use ooptdd.Cycle.Commit.{Keeps, restore_effect-caused}
use ooptdd.Cycle.Faults.{Settles, Settles-split, recover, halt}
use ooptdd.Cycle.Evidence.{Returns-guard}
use ooptdd.Cycle.Restoring.{Settles-Returns, cost_of_step}

module _ (h : Hashing) (s : CycleSnapshot) (e : ProtocolEvent) (k : Sound h s) where
  module _ (ordinary : tail s.phase ≡ 0) (left : steps_left h s ≡ true) where
    interrupted_for :
        (reason : InterruptReason) (to : Phase)
        → ((t : CycleSnapshot) → Halted h t → Stage h t to)
        → ((t : CycleSnapshot) → Findings h t to)
        → tail to ≡ 2
        → Settles h s e (
            if s.mutation_active
            then commit_with h none s e Phase.recovery_required
                (restore_effect h s e reason ∷ [])
                true
                (record s { pending_interrupt = some reason })
            else commit h s e to (record s { halt_reason = some reason }))
    interrupted_for reason to stage findings two =
        let steps = cost_of_step s.steps_used s.budget.max_steps left in
        Settles-split h s e s.mutation_active _ _
          (λ a.
            recover h s e k ordinary none (restore_effect h s e reason ∷ []) true reason steps
              (restore_effect-caused h s e reason) a)
          (λ a. halt h s e k ordinary none to true reason steps a stage findings two)

    pub interrupt_for-Settles :
        (reason : InterruptReason) → Settles h s e (interrupt_for h s e reason)
    unfolding interrupt_for
    interrupt_for-Settles cancelled =
        interrupted_for cancelled Phase.interrupted (λ t g. g) (λ t. tt) refl
    interrupt_for-Settles timed_out =
        interrupted_for timed_out Phase.interrupted (λ t g. g) (λ t. tt) refl
    interrupt_for-Settles budget_exhausted =
        interrupted_for budget_exhausted Phase.interrupted (λ t g. g) (λ t. tt) refl
    interrupt_for-Settles retry_exhausted =
        interrupted_for retry_exhausted Phase.interrupted (λ t g. g) (λ t. tt) refl
    interrupt_for-Settles no_conclusion =
        interrupted_for no_conclusion Phase.inconclusive (λ t g. g) (λ t. tt) refl
    interrupt_for-Settles identity_clash =
        interrupted_for identity_clash Phase.interrupted (λ t g. g) (λ t. tt) refl

    pub interrupt-Keeps : (p : Fields) → Returns (Keeps h s e) (interrupt h s e p)
    unfolding interrupt
    interrupt-Keeps p = Returns-bind (Keeps h s e) (require_keys ("reason" ∷ []) [] p) _ (λ _ _.
        Returns-bind (Keeps h s e) (item "reason" p >>= member reasons) _ (λ reason _.
          Returns-guard (Keeps h s e) (is_reducer_owned reason) _ _
            (λ _. Settles-Returns h s e _ (interrupt_for-Settles reason))))
