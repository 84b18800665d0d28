-- ===== src/Cycle/Reach.antt =====
-- The snapshots that `CycleSnapshot.start` and `step` of
-- extensions/ooptdd-mutation/src/ooptdd_mutation/ouroboros reach, and what holds of all of them.
use ooptdd.Base.{
  ◌+◌, ◌≤◌, Bool, true, false, ◌&&◌, length, if◌then◌else◌, ok, raise, Error, ◌≡◌, refl, sym, subst,
  ◌∙◌, arith, ok-injective, leb→le,
}
use ooptdd.Ouroboros.Model.{distinct}
use ooptdd.Cycle.Model.{
  Phase, is_terminal, ProtocolEvent, CycleSnapshot, Hashing, TransitionResult, first_snapshot,
  CycleIdentity, ProtocolBudget, snapshot_ok, construct,
}
use ooptdd.Cycle.Step.{step}
use ooptdd.Cycle.Invariant.{
  all_roles, run_ids, namespaces, undone, Mutated, Sealed, Stage, Findings, tail, Sound,
}
use ooptdd.Cycle.Stages.{Stage-undone}
use ooptdd.Cycle.Commit.{Keeps, snapshot_ok-Fits}
use ooptdd.Cycle.Kept.{step-Settles}

settled_off : (a b : Bool) → a ≡ true → (a && b) ≡ false → b ≡ false
settled_off a b t u = ground arith

tail_at_most : (p : Phase) → tail p ≤ 2
tail_at_most Phase.init = omega arith
tail_at_most Phase.sized = omega arith
tail_at_most Phase.locked = omega arith
tail_at_most Phase.initial_red_confirmed = omega arith
tail_at_most Phase.green_confirmed = omega arith
tail_at_most Phase.quarantined = omega arith
tail_at_most Phase.mutation_active = omega arith
tail_at_most Phase.negative_red_confirmed = omega arith
tail_at_most Phase.restored = omega arith
tail_at_most Phase.regreen_confirmed = omega arith
tail_at_most Phase.bite_pending = omega arith
tail_at_most Phase.recovery_required = omega arith
tail_at_most Phase.complete = omega arith
tail_at_most Phase.superseded_by_successor = omega arith
tail_at_most Phase.inconclusive = omega arith
tail_at_most Phase.interrupted = omega arith
tail_at_most Phase.identity_conflict = omega arith

pub data Reaches (h : Hashing) : CycleSnapshot → Type 0 where
  start :
      (identity : CycleIdentity) (budget : ProtocolBudget) {s : CycleSnapshot}
      → construct (first_snapshot identity budget) ≡ ok s
      → Reaches h s
  advance :
      {s0 : CycleSnapshot} (e : ProtocolEvent) {r : TransitionResult}
      → Reaches h s0
      → step h s0 e ≡ ok r
      → Reaches h r.snapshot

first-Sound :
    (h : Hashing) (identity : CycleIdentity) (budget : ProtocolBudget)
    → snapshot_ok (first_snapshot identity budget) ≡ true
    → Sound h (first_snapshot identity budget)
first-Sound h identity budget t = record {
  fits = t;
  journal = refl;
  bounded = omega arith;
  own_ids = refl;
  own_namespaces = refl;
  stage = record { unmutated = refl; inactive = refl; no_runs = refl };
  findings = record { no_dispositions = refl; unchanged = refl };
}

-- What is constructed has passed the checks.
pub constructed : (x s : CycleSnapshot) → construct x ≡ ok s → (snapshot_ok x ≡ true) × (x ≡ s)
unfolding construct
constructed x s t = go (snapshot_ok x) refl t
  where
    go :
        (b : Bool)
        → snapshot_ok x ≡ b
        → (if b then ok x else raise Error.value_error) ≡ ok s
        → (snapshot_ok x ≡ true) × (x ≡ s)
    go true c t = (c, ok-injective t)
    go false c t = cc

pub step-Keeps :
    (h : Hashing) (s : CycleSnapshot) (e : ProtocolEvent) (r : TransitionResult)
    → Sound h s
    → step h s e ≡ ok r
    → Keeps h s e r
step-Keeps h s e r k t =
    let settles = step-Settles h s e k in
    subst (Keeps h s e) (ok-injective (sym settles.returns ∙ t)) settles.keeps

pub Reaches-Sound : (h : Hashing) (s : CycleSnapshot) → Reaches h s → Sound h s
Reaches-Sound h s (start identity budget t) =
    let c = constructed (first_snapshot identity budget) s t in
    subst (Sound h) c.1 (first-Sound h identity budget c.0)
Reaches-Sound h s (advance {s0} e {r} p t) = (step-Keeps h s0 e r (Reaches-Sound h s0 p) t).sound

-- In a snapshot that is reached, the revision is the number of the events of the journal, is at most
-- two above the steps used, and is at most two above the budget of steps.
pub Reaches-bounded :
    (h : Hashing) (s : CycleSnapshot)
    → Reaches h s
    → (s.revision ≡ length s.events)
      × ((s.revision ≤ s.steps_used + 2) × (s.revision ≤ s.budget.max_steps + 2))
Reaches-bounded h s p =
    let k = Reaches-Sound h s p in
    let f = snapshot_ok-Fits s k.fits in
    let a = k.bounded in
    let b = leb→le s.steps_used s.budget.max_steps f.steps in
    let c = tail_at_most s.phase in (k.journal, (omega (arith, a, c), omega (arith, a, b, c)))

-- A snapshot that is reached and complete holds four runs that bear out their roles under its lock,
-- the negative one on a source that is not the locked source, with distinct identities and
-- namespaces; the mutation is over and the locked source restored; each finding that was enumerated
-- is disposed once, nothing else is, and no disposition changed a bound material.
pub complete_earned :
    (h : Hashing) (s : CycleSnapshot)
    → Reaches h s
    → s.phase ≡ Phase.complete
    → Mutated h s false all_roles
      × (Sealed h s false × ((distinct (run_ids s) ≡ true) × (distinct (namespaces s) ≡ true)))
complete_earned h s p here =
    let k = Reaches-Sound h s p in
    (
      subst (Stage h s) here k.stage,
      (subst (Findings h s) here k.findings, (k.own_ids, k.own_namespaces)),
    )

-- A snapshot that is reached and terminal has no active mutation, and if a source was mutated, the
-- locked source is restored.
pub terminal_undone :
    (h : Hashing) (s : CycleSnapshot)
    → Reaches h s
    → is_terminal s.phase ≡ true
    → (s.mutation_active ≡ false) × (undone s ≡ true)
terminal_undone h s p ends =
    let k = Reaches-Sound h s p in
    let f = snapshot_ok-Fits s k.fits in
    let inactive = settled_off (is_terminal s.phase) s.mutation_active ends f.settled in
    (inactive, Stage-undone h s s.phase k.stage inactive)
