-- ===== src/Cycle/Ran.antt =====
-- `_commit_run` of extensions/ooptdd-mutation/src/ooptdd_mutation/ouroboros/reducer.py, and the four
-- transitions that take the evidence of a run, keep the invariant.
use ooptdd.Base.{
  ℕ, ◌+◌, ◌≤◌, Bool, true, false, not, none, some, String, str_eq, List, [], ◌∷◌, ◌++◌, any, map,
  ◌>>=◌, Returns, Returns-bind, Returns-eq, Returns-split, ◌≡◌, refl, subst, ◌∙◌, arith, ◌⊎◌, inl,
  inr, not-true,
}
use ooptdd.Value.{Fields}
use ooptdd.Ouroboros.Model.{distinct}
use ooptdd.Cycle.Model.{
  Phase, ProtocolEvent, CycleSnapshot, Hashing, MaterialLock, RunRole, initial, positive, negative,
  regreened, RunEvidence, no_conclusion,
}
use ooptdd.Cycle.Runs.{commit_run, parse_run}
use ooptdd.Cycle.Invariant.{confirms, before, bitten, Stage, Findings, tail, Sound}
use ooptdd.Cycle.Facts.{
  Untouched-carry, mem-map, map-append, distinct-append_last, confirm_all-append,
}
use ooptdd.Cycle.Stages.{Stage-undone, Stage-Recovering}
use ooptdd.Cycle.Commit.{Keeps, next, commit_with-Keeps, restore_effect-caused}
use ooptdd.Cycle.Evidence.{Parsed, parse_run-Parsed}

-- The verdict of a conclusive run
verdict_of {κ} : {C : Type κ} {b : Bool} → not b ≡ true → (b ≡ true) ⊎ C → C
verdict_of t (inl f) = let g = not-true _ t in cc
verdict_of t (inr c) = c

-- A new name keeps the names of the runs apart.
distinct-run :
    (f : RunEvidence → String) (rs : List RunEvidence) (r : RunEvidence)
    → distinct (map f rs) ≡ true
    → any (λ x. str_eq (f x) (f r)) rs ≡ false
    → distinct (map f (rs ++ (r ∷ []))) ≡ true
distinct-run f rs r d a =
    rw (map-append f rs (r ∷ [])) (distinct-append_last (map f rs) (f r) d (mem-map f (f r) rs ∙ a))

module _ (h : Hashing) (s : CycleSnapshot) (e : ProtocolEvent) (k : Sound h s)
    (ordinary : tail s.phase ≡ 0) where
  bound : (n : ℕ) → s.revision + 1 ≤ s.steps_used + 1 + n
  bound n = let a = k.bounded in omega (arith, a, ordinary)

  abbrev with_run : RunEvidence → CycleSnapshot
  with_run r = record s { runs = s.runs ++ (r ∷ []) }

  commit_run-Keeps :
      (role : RunRole) (l : MaterialLock) (r : RunEvidence) (success : Phase)
      → Parsed h s l role r
      → (confirms h l s.mutated_source role r ≡ true
          → Stage h (next h s e success [] true (with_run r)) success
            × Findings h (next h s e success [] true (with_run r)) success)
      → Returns (Keeps h s e) (commit_run h s e r success)
  unfolding commit_run
  commit_run-Keeps role l r success p good =
      let ids = distinct-run (λ (x : RunEvidence). x.run_id) s.runs r k.own_ids p.fresh_id in
      let names =
        distinct-run (λ (x : RunEvidence). x.artifact_namespace) s.runs r k.own_namespaces
          p.fresh_namespace in
      Returns-split (Keeps h s e) _ _ _
        (λ t.
          let c = good (verdict_of t p.verdict) in
          commit_with-Keeps h s e none success [] true (with_run r) k (refl, refl) refl (bound _)
            ids names c.0 c.1)
        (λ _.
          Returns-split (Keeps h s e) s.mutation_active _ _
            (λ a.
              let g = Stage-Recovering h s s.phase k.stage a in
              commit_with-Keeps h s e none Phase.recovery_required _ true _ k (refl, refl)
                (restore_effect-caused h s e no_conclusion) (bound _) ids names
                (record { lock = g.lock; locked = g.locked; is_active = g.is_active }) tt)
            (λ a.
              commit_with-Keeps h s e none Phase.inconclusive _ true _ k (refl, refl) refl (bound _)
                ids names (record { inactive = a; undo = Stage-undone h s s.phase k.stage a }) tt))

  -- The evidence of a run, from the stage that it belongs to
  run_event-Keeps :
      (role : RunRole) (l : MaterialLock) (success : Phase) (p : Fields)
      → s.material_lock ≡ some l
      → ((r : RunEvidence)
          → confirms h l s.mutated_source role r ≡ true
          → Stage h (next h s e success [] true (with_run r)) success
            × Findings h (next h s e success [] true (with_run r)) success)
      → Returns (Keeps h s e) (parse_run h s p role >>= λ run. commit_run h s e run success)
  run_event-Keeps role l success p locked good =
      Returns-bind (Keeps h s e) (parse_run h s p role) _ (λ r t.
        commit_run-Keeps role l r success
          (Returns-eq (Parsed h s l role) t (parse_run-Parsed h s l p role locked)) (good r))

  abbrev Run : RunRole → Phase → Fields → Type 0
  Run role success p =
      Returns (Keeps h s e) (parse_run h s p role >>= λ run. commit_run h s e run success)

  pub initial_red-Keeps :
      (p : Fields) → s.phase ≡ Phase.locked → Run initial Phase.initial_red_confirmed p
  initial_red-Keeps p here =
      let g = subst (Stage h s) here k.stage in
      let u = subst (Findings h s) here k.findings in
      run_event-Keeps initial g.lock Phase.initial_red_confirmed p g.locked (λ r c. (
        record {
          lock = g.lock;
          locked = g.locked;
          unmutated = g.unmutated;
          inactive = g.inactive;
          ran = confirm_all-append h g.lock none [] s.runs initial r g.ran c;
        },
        Untouched-carry h s _ refl refl u,
      ))

  pub green-Keeps :
      (p : Fields) → s.phase ≡ Phase.initial_red_confirmed → Run positive Phase.green_confirmed p
  green-Keeps p here =
      let g = subst (Stage h s) here k.stage in
      let u = subst (Findings h s) here k.findings in
      run_event-Keeps positive g.lock Phase.green_confirmed p g.locked (λ r c. (
        record {
          lock = g.lock;
          locked = g.locked;
          unmutated = g.unmutated;
          inactive = g.inactive;
          ran = confirm_all-append h g.lock none (initial ∷ []) s.runs positive r g.ran c;
        },
        Untouched-carry h s _ refl refl u,
      ))

  pub negative_red-Keeps :
      (p : Fields) → s.phase ≡ Phase.mutation_active → Run negative Phase.negative_red_confirmed p
  negative_red-Keeps p here =
      let g = subst (Stage h s) here k.stage in
      let u = subst (Findings h s) here k.findings in
      run_event-Keeps negative g.lock Phase.negative_red_confirmed p g.locked (λ r c. (
        record {
          lock = g.lock;
          source = g.source;
          locked = g.locked;
          mutated = g.mutated;
          changed = g.changed;
          is_active = g.is_active;
          back = g.back;
          ran =
              confirm_all-append h g.lock (some g.source) before s.runs negative r g.ran
                (subst (λ m. confirms h g.lock m negative r ≡ true) g.mutated c);
        },
        Untouched-carry h s _ refl refl u,
      ))

  pub regreen-Keeps :
      (p : Fields) → s.phase ≡ Phase.restored → Run regreened Phase.regreen_confirmed p
  regreen-Keeps p here =
      let g = subst (Stage h s) here k.stage in
      let u = subst (Findings h s) here k.findings in
      run_event-Keeps regreened g.lock Phase.regreen_confirmed p g.locked (λ r c. (
        record {
          lock = g.lock;
          source = g.source;
          locked = g.locked;
          mutated = g.mutated;
          changed = g.changed;
          is_active = g.is_active;
          back = g.back;
          ran = confirm_all-append h g.lock (some g.source) bitten s.runs regreened r g.ran c;
        },
        Untouched-carry h s _ refl refl u,
      ))
