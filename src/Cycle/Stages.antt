-- ===== src/Cycle/Stages.antt =====
-- What the stages of the evidence cycle have in common
-- (extensions/ooptdd-mutation/src/ooptdd_mutation/ouroboros).
use ooptdd.Base.{true, false, List, ◌≡◌, refl}
use ooptdd.Cycle.Model.{Phase, CycleSnapshot, Hashing, RunRole}
use ooptdd.Cycle.Invariant.{undone, Locked, Mutated, Recovering, Stage}

module _ (h : Hashing) (s : CycleSnapshot) where
  -- What a stage without an active mutation leaves to undo: nothing
  Locked-undone : (roles : List RunRole) → Locked h s roles → undone s ≡ true
  Locked-undone roles l = rw l.unmutated refl

  Mutated-undone : (roles : List RunRole) → Mutated h s false roles → undone s ≡ true
  Mutated-undone roles m = rw m.mutated (rw m.locked m.back)

  pub Stage-undone : (p : Phase) → Stage h s p → s.mutation_active ≡ false → undone s ≡ true
  Stage-undone Phase.init g a = rw g.unmutated refl
  Stage-undone Phase.sized g a = rw g.unmutated refl
  Stage-undone Phase.locked g a = Locked-undone _ g
  Stage-undone Phase.initial_red_confirmed g a = Locked-undone _ g
  Stage-undone Phase.green_confirmed g a = Locked-undone _ g
  Stage-undone Phase.quarantined g a = Locked-undone _ g
  Stage-undone Phase.mutation_active g a = let t = g.is_active in cc
  Stage-undone Phase.negative_red_confirmed g a = let t = g.is_active in cc
  Stage-undone Phase.restored g a = Mutated-undone _ g
  Stage-undone Phase.regreen_confirmed g a = Mutated-undone _ g
  Stage-undone Phase.bite_pending g a = Mutated-undone _ g
  Stage-undone Phase.recovery_required g a = let t = g.is_active in cc
  Stage-undone Phase.complete g a = Mutated-undone _ g
  Stage-undone Phase.superseded_by_successor g a = Mutated-undone _ g
  Stage-undone Phase.inconclusive g a = g.undo
  Stage-undone Phase.interrupted g a = g.undo
  Stage-undone Phase.identity_conflict g a = g.undo

  -- A stage with an active mutation has a lock to restore.
  pub Stage-Recovering : (p : Phase) → Stage h s p → s.mutation_active ≡ true → Recovering h s
  Stage-Recovering Phase.init g a = let t = g.inactive in cc
  Stage-Recovering Phase.sized g a = let t = g.inactive in cc
  Stage-Recovering Phase.locked g a = let t = g.inactive in cc
  Stage-Recovering Phase.initial_red_confirmed g a = let t = g.inactive in cc
  Stage-Recovering Phase.green_confirmed g a = let t = g.inactive in cc
  Stage-Recovering Phase.quarantined g a = let t = g.inactive in cc
  Stage-Recovering Phase.mutation_active g a = record {
    lock = g.lock;
    locked = g.locked;
    is_active = a;
  }
  Stage-Recovering Phase.negative_red_confirmed g a = record {
    lock = g.lock;
    locked = g.locked;
    is_active = a;
  }
  Stage-Recovering Phase.restored g a = let t = g.is_active in cc
  Stage-Recovering Phase.regreen_confirmed g a = let t = g.is_active in cc
  Stage-Recovering Phase.bite_pending g a = let t = g.is_active in cc
  Stage-Recovering Phase.recovery_required g a = g
  Stage-Recovering Phase.complete g a = let t = g.is_active in cc
  Stage-Recovering Phase.superseded_by_successor g a = let t = g.is_active in cc
  Stage-Recovering Phase.inconclusive g a = let t = g.inactive in cc
  Stage-Recovering Phase.interrupted g a = let t = g.inactive in cc
  Stage-Recovering Phase.identity_conflict g a = let t = g.inactive in cc
