-- ===== src/Cycle/Invariant.antt =====
-- What the snapshots of extensions/ooptdd-mutation/src/ooptdd_mutation/ouroboros/reducer.py keep
-- true: the evidence that each phase stands for, and the bounds on the journal.
use ooptdd.Base.{
  ℕ, ◌+◌, ◌≤◌, Bool, true, false, ◌&&◌, ◌||◌, not, Option, none, some, String, str_eq, List, [],
  ◌∷◌, any, all, length, map, ◌≡◌,
}
use ooptdd.Ouroboros.Model.{mem, distinct}
use ooptdd.Cycle.Model.{
  Phase, CycleSnapshot, snapshot_ok, Hashing, RunRole, initial, positive, negative, regreened,
  RunEvidence, FindingDisposition, Digest, digest_eq, MaterialLock, is_completion_tier,
}
use ooptdd.Cycle.Runs.{run_is_inconclusive, outcome_fits, needs_readback, is_present}
use ooptdd.Cycle.Reducer.{disposed, same_set}

-- The source that a run of a role is about
abbrev pub subject : RunRole → MaterialLock → Option Digest → Option Digest
subject negative l m = m
subject initial l m = some l.source
subject positive l m = some l.source
subject regreened l m = some l.source

abbrev pub is_digest_of : Option Digest → Digest → Bool
is_digest_of none d = false
is_digest_of (some c) d = digest_eq d c

-- The source was restored, to the one given.
abbrev pub is_back : Option Digest → Digest → Bool
is_back none d = false
is_back (some c) d = digest_eq c d

-- The run bears out its role: it ran under the lock and on the source of its role, was conclusive
-- with the outcome that the role calls for, and was read back where that has to be.
abbrev pub confirms : Hashing → MaterialLock → Option Digest → RunRole → RunEvidence → Bool
confirms h l m role r =
    str_eq r.material_lock_sha256 (h.materials l)
    && (is_digest_of (subject role l m) r.executed_source
        && (not (run_is_inconclusive r)
            && (outcome_fits role r.outcome
                && (not (needs_readback role)
                    || (is_present r.observation && is_completion_tier r.evidence_tier)))))

-- The runs bear out the roles, one by one.
abbrev pub confirm_all :
    Hashing → MaterialLock → Option Digest → List RunRole → List RunEvidence → Bool
confirm_all h l m [] [] = true
confirm_all h l m [] (r ∷ rs) = false
confirm_all h l m (p ∷ ps) [] = false
confirm_all h l m (p ∷ ps) (r ∷ rs) = confirms h l m p r && confirm_all h l m ps rs

abbrev pub before : List RunRole
before = initial ∷ positive ∷ []

abbrev pub bitten : List RunRole
bitten = initial ∷ positive ∷ negative ∷ []

abbrev pub all_roles : List RunRole
all_roles = initial ∷ positive ∷ negative ∷ regreened ∷ []

abbrev pub run_ids : CycleSnapshot → List String
run_ids s = map (λ (r : RunEvidence). r.run_id) s.runs

abbrev pub namespaces : CycleSnapshot → List String
namespaces s = map (λ (r : RunEvidence). r.artifact_namespace) s.runs

-- A source that was ever mutated is the locked one again.
abbrev pub undone_as : Option Digest → Option MaterialLock → Option Digest → Bool
undone_as none l r = true
undone_as (some _) none r = false
undone_as (some _) (some l) r = is_back r l.source

abbrev pub undone : CycleSnapshot → Bool
undone s = undone_as s.mutated_source s.material_lock s.restored_source

module _ (h : Hashing) (s : CycleSnapshot) where
  pub record Unlocked : Type 0 where
    pub unmutated : s.mutated_source ≡ none
    pub inactive : s.mutation_active ≡ false
    pub no_runs : s.runs ≡ []

  pub record Locked (roles : List RunRole) : Type 0 where
    pub lock : MaterialLock
    pub locked : s.material_lock ≡ some lock
    pub unmutated : s.mutated_source ≡ none
    pub inactive : s.mutation_active ≡ false
    pub ran : confirm_all h lock none roles s.runs ≡ true

  pub record Mutated (active : Bool) (roles : List RunRole) : Type 0 where
    pub lock : MaterialLock
    pub source : Digest
    pub locked : s.material_lock ≡ some lock
    pub mutated : s.mutated_source ≡ some source
    pub changed : digest_eq source lock.source ≡ false
    pub is_active : s.mutation_active ≡ active
    pub back : (active || is_back s.restored_source lock.source) ≡ true
    pub ran : confirm_all h lock (some source) roles s.runs ≡ true

  pub record Recovering : Type 0 where
    pub lock : MaterialLock
    pub locked : s.material_lock ≡ some lock
    pub is_active : s.mutation_active ≡ true

  pub record Halted : Type 0 where
    pub inactive : s.mutation_active ≡ false
    pub undo : undone s ≡ true

  -- The evidence that a phase stands for
  abbrev pub Stage : Phase → Type 0
  Stage Phase.init = Unlocked
  Stage Phase.sized = Unlocked
  Stage Phase.locked = Locked []
  Stage Phase.initial_red_confirmed = Locked (initial ∷ [])
  Stage Phase.green_confirmed = Locked before
  Stage Phase.quarantined = Locked before
  Stage Phase.mutation_active = Mutated true before
  Stage Phase.negative_red_confirmed = Mutated true bitten
  Stage Phase.restored = Mutated false bitten
  Stage Phase.regreen_confirmed = Mutated false all_roles
  Stage Phase.bite_pending = Mutated false all_roles
  Stage Phase.recovery_required = Recovering
  Stage Phase.complete = Mutated false all_roles
  Stage Phase.superseded_by_successor = Mutated false all_roles
  Stage Phase.inconclusive = Halted
  Stage Phase.interrupted = Halted
  Stage Phase.identity_conflict = Halted

  pub record Untouched : Type 0 where
    pub no_dispositions : s.dispositions ≡ []
    pub unchanged : s.bound_material_changed ≡ false

  -- The findings that were disposed were declared, each is disposed once, and the snapshot knows
  -- whether one of them changed a bound material.
  pub record Disposing : Type 0 where
    pub declared : all (λ x. mem x s.finding_ids) (disposed s) ≡ true
    pub once : distinct (disposed s) ≡ true
    pub changes :
        s.bound_material_changed
        ≡ any (λ (d : FindingDisposition). d.bound_material_changed) s.dispositions

  pub record Sealed (changed : Bool) : Type 0 where
    pub disposing : Disposing
    pub every : same_set (disposed s) s.finding_ids ≡ true
    pub outcome : s.bound_material_changed ≡ changed

  abbrev pub Findings : Phase → Type 0
  Findings Phase.bite_pending = Disposing
  Findings Phase.complete = Sealed false
  Findings Phase.superseded_by_successor = Sealed true
  Findings Phase.inconclusive = Unit
  Findings Phase.interrupted = Unit
  Findings Phase.identity_conflict = Unit
  Findings Phase.recovery_required = Unit
  Findings Phase.init = Untouched
  Findings _ = Untouched

-- How far the revision may be ahead of the steps: a fault, and the restoration after it.
abbrev pub tail : Phase → ℕ
tail Phase.recovery_required = 1
tail Phase.complete = 2
tail Phase.superseded_by_successor = 2
tail Phase.inconclusive = 2
tail Phase.interrupted = 2
tail Phase.identity_conflict = 2
tail Phase.init = 0
tail _ = 0

pub record Sound (h : Hashing) (s : CycleSnapshot) : Type 0 where
  pub fits : snapshot_ok s ≡ true
  pub journal : s.revision ≡ length s.events
  pub bounded : s.revision ≤ s.steps_used + tail s.phase
  pub own_ids : distinct (run_ids s) ≡ true
  pub own_namespaces : distinct (namespaces s) ≡ true
  pub stage : Stage h s s.phase
  pub findings : Findings h s s.phase
