-- ===== src/Cycle/Kept.antt =====
-- `step` of extensions/ooptdd-mutation/src/ooptdd_mutation/ouroboros/reducer.py keeps the invariant
-- and returns.
use ooptdd.Base.{
  ◌≤◌, Bool, true, false, ◌&&◌, not, Option, none, some, String, Result, ok, raise, Returns,
  returned, raised, Returns-split, ◌≡◌, refl, subst, ap, arith, inl, inr, Bool-cases,
}
use ooptdd.Value.{Fields}
use ooptdd.Cycle.Model.{
  Phase, is_phase, is_terminal, EventKind, ProtocolEvent, EventRecord, CycleSnapshot, Hashing,
  TransitionResult,
}
use ooptdd.Cycle.Runs.{rejected, steps_left}
use ooptdd.Cycle.Step.{
  is_restore, replay, dispatch, rescue, admit, identity_matches, exact_record, is_known, step,
  when_in, restorable,
}
use ooptdd.Cycle.Invariant.{Stage, tail, Sound}
use ooptdd.Cycle.Facts.{is_phase→eq, tail_ordinary}
use ooptdd.Cycle.Commit.{Keeps, rejected-Keeps}
use ooptdd.Cycle.Faults.{Settles, Settles-split, collision-Settles, out_of_budget-Settles}
use ooptdd.Cycle.Ran.{initial_red-Keeps, green-Keeps, negative_red-Keeps, regreen-Keeps}
use ooptdd.Cycle.Moves.{size-Keeps, lock-Keeps, quarantine-Keeps, mutate-Keeps}
use ooptdd.Cycle.Bite.{enumerate_findings-Keeps, dispose_finding-Keeps, seal-Keeps}
use ooptdd.Cycle.Restoring.{restore-Keeps}
use ooptdd.Cycle.Interrupting.{interrupt-Keeps}

-- Every phase that is not terminal has a tail of at most one.
tail_small : (p : Phase) → is_terminal p ≡ false → tail p ≤ 1
tail_small p t = elim (Bool-cases (is_phase p Phase.recovery_required)) [
  | inl r ↦ let e = ap tail (is_phase→eq p Phase.recovery_required r) in omega (arith, e)
  | inr r ↦ let e = tail_ordinary p t r in omega (arith, e)
]

-- What the guards of `step` leave
unless : (a b : Bool) → (a && b) ≡ false → b ≡ true → a ≡ false
unless a b t u = ground arith

ordinary_when : (a r : Bool) → (a && not r) ≡ false → r ≡ false → a ≡ false
ordinary_when a r t u = ground arith

spare : (left m r : Bool) → (not left && not (m && r)) ≡ false → r ≡ false → left ≡ true
spare left m r t u = ground arith

no_way :
    (left m r a : Bool)
    → m ≡ true
    → a ≡ true
    → (a && not r) ≡ false
    → (not left && not (m && r)) ≡ true
    → ⊥
no_way left m r a t u v w = ground arith

module _ (h : Hashing) (s : CycleSnapshot) (e : ProtocolEvent) (k : Sound h s) where
  -- A transition that needs a phase
  in_phase :
      (p : Phase) (r : Result TransitionResult)
      → (s.phase ≡ p → Returns (Keeps h s e) r)
      → Returns (Keeps h s e) (when_in h s e p r)
  in_phase p r f =
      Returns-split (Keeps h s e) (is_phase s.phase p) _ _ (λ t. f (is_phase→eq s.phase p t))
        (λ _. returned (rejected-Keeps h s e _ k))

  ordinary-Keeps :
      (kind : EventKind) (p : Fields)
      → is_restore kind ≡ false
      → tail s.phase ≡ 0
      → steps_left h s ≡ true
      → Returns (Keeps h s e) (dispatch h s e kind p)
  unfolding dispatch
  ordinary-Keeps EventKind.interrupt p r o left = interrupt-Keeps h s e k o left p
  ordinary-Keeps EventKind.restore p r o left = cc
  ordinary-Keeps EventKind.size p r o left = in_phase Phase.init _ (size-Keeps h s e k o p)
  ordinary-Keeps EventKind.lock p r o left = in_phase Phase.sized _ (lock-Keeps h s e k o p)
  ordinary-Keeps EventKind.initial_red p r o left =
      in_phase Phase.locked _ (initial_red-Keeps h s e k o p)
  ordinary-Keeps EventKind.green p r o left =
      in_phase Phase.initial_red_confirmed _ (green-Keeps h s e k o p)
  ordinary-Keeps EventKind.quarantine p r o left =
      in_phase Phase.green_confirmed _ (quarantine-Keeps h s e k o p)
  ordinary-Keeps EventKind.mutation_applied p r o left =
      in_phase Phase.quarantined _ (mutate-Keeps h s e k o p)
  ordinary-Keeps EventKind.negative_red p r o left =
      in_phase Phase.mutation_active _ (negative_red-Keeps h s e k o p)
  ordinary-Keeps EventKind.regreen p r o left =
      in_phase Phase.restored _ (regreen-Keeps h s e k o p)
  ordinary-Keeps EventKind.enumerate_findings p r o left =
      in_phase Phase.regreen_confirmed _ (enumerate_findings-Keeps h s e k o p)
  ordinary-Keeps EventKind.dispose_finding p r o left =
      in_phase Phase.bite_pending _ (dispose_finding-Keeps h s e k o p)
  ordinary-Keeps EventKind.seal p r o left = in_phase Phase.bite_pending _ (seal-Keeps h s e k o p)

  restoring-Keeps :
      (kind : EventKind) (p : Fields)
      → is_restore kind ≡ true
      → tail s.phase ≤ 1
      → Returns (Keeps h s e) (dispatch h s e kind p)
  unfolding dispatch
  restoring-Keeps EventKind.restore p r small =
      Returns-split (Keeps h s e) (restorable h s e) _ _ (λ _. restore-Keeps h s e k p small)
        (λ _. returned (rejected-Keeps h s e _ k))
  restoring-Keeps EventKind.interrupt p r small = cc
  restoring-Keeps EventKind.size p r small = cc
  restoring-Keeps EventKind.lock p r small = cc
  restoring-Keeps EventKind.initial_red p r small = cc
  restoring-Keeps EventKind.green p r small = cc
  restoring-Keeps EventKind.quarantine p r small = cc
  restoring-Keeps EventKind.mutation_applied p r small = cc
  restoring-Keeps EventKind.negative_red p r small = cc
  restoring-Keeps EventKind.regreen p r small = cc
  restoring-Keeps EventKind.enumerate_findings p r small = cc
  restoring-Keeps EventKind.dispose_finding p r small = cc
  restoring-Keeps EventKind.seal p r small = cc

  stays : (code : String) → Settles h s e (ok (rejected h s e code))
  stays code = record { result = _; returns = refl; keeps = rejected-Keeps h s e code k }

  rescued :
      (r : Result TransitionResult) → Returns (Keeps h s e) r → Settles h s e (ok (rescue h s e r))
  rescued (ok a) (returned p) = record { result = _; returns = refl; keeps = p }
  rescued (raise x) raised = stays "invalid_payload"

  pub admit-Settles : Settles h s e (admit h s e)
  unfolding admit
  admit-Settles =
      let in_recovery = is_phase s.phase Phase.recovery_required in
      let restores = is_restore e.kind in
      let known = is_known h s e in
      let left = steps_left h s in
      Settles-split h s e (is_terminal s.phase) _ _ (λ _. stays _)
        (λ live.
          Settles-split h s e (in_recovery && not restores) _ _ (λ _. stays _)
            (λ a.
              Settles-split h s e (in_recovery && known) _ _ (λ _. stays _)
                (λ b.
                  Settles-split h s e known _ _
                    (λ c.
                      collision-Settles h s e k
                        (tail_ordinary s.phase live (unless in_recovery known b c)))
                    (λ c.
                      Settles-split h s e (not left && not (s.mutation_active && restores)) _ _
                        (λ d. elim (Bool-cases in_recovery) [
                          | inl t ↦
                              let g =
                                subst (Stage h s) (is_phase→eq s.phase Phase.recovery_required t)
                                  k.stage in
                              absurd (
                                no_way left s.mutation_active restores in_recovery g.is_active t a
                                  d)
                          | inr f ↦ out_of_budget-Settles h s e k (tail_ordinary s.phase live f)
                        ])
                        (λ d. elim (Bool-cases restores) [
                          | inl t ↦ rescued _ (restoring-Keeps e.kind _ t (tail_small s.phase live))
                          | inr f ↦ rescued _ (
                              ordinary-Keeps e.kind _ f
                                (tail_ordinary s.phase live
                                  (ordinary_when in_recovery restores a f))
                                (spare left s.mutation_active restores d f))
                        ])))))

  -- From a snapshot that keeps the invariant, `step` returns, its snapshot keeps the invariant, and
  -- either it is the one before and the result is a rejection or a replay, or the event was taken up
  -- once, with the effects of the result, each caused by it.
  pub step-Settles : Settles h s e (step h s e)
  unfolding step
  step-Settles =
      Settles-split h s e (not (identity_matches h s e)) _ _ (λ _. stays _)
        (λ _. go (exact_record h s e))
    where
      go :
          (o : Option EventRecord)
          → Settles h s e (elim o [ none ↦ admit h s e | some _ ↦ ok (replay e s) ])
      go none = admit-Settles
      go (some r) = record {
        result = _;
        returns = refl;
        keeps = record { sound = k; logged = inl (record { same = refl; passive = refl }) };
      }
