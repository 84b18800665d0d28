-- ===== src/Cycle/Moves.antt =====
-- The transitions of extensions/ooptdd-mutation/src/ooptdd_mutation/ouroboros/reducer.py that take
-- no run keep the invariant, up to the mutation.
use ooptdd.Base.{
  true, false, not, none, some, [], ◌∷◌, any, ◌>>=◌, Returns, Returns-bind, ◌≡◌, refl, subst, ap,
  arith, not-false,
}
use ooptdd.Value.{Fields}
use ooptdd.Cycle.Model.{Phase, ProtocolEvent, CycleSnapshot, Hashing, Digest, digest_eq}
use ooptdd.Cycle.Payload.{require_keys, item, text_item, lock_from, oracle_from, digest_item}
use ooptdd.Cycle.Runs.{commit, same_namespace}
use ooptdd.Cycle.Reducer.{size, lock, quarantine, mutate, mutate_under}
use ooptdd.Cycle.Invariant.{confirm_all, before, Locked, Untouched, Stage, Findings, tail, Sound}
use ooptdd.Cycle.Facts.{Untouched-carry, confirm_all-before, digest_eq→eq}
use ooptdd.Cycle.Commit.{Keeps, next, commit_with-Keeps}
use ooptdd.Cycle.Evidence.{Returns-guard, Returns-some}

module _ (h : Hashing) (s : CycleSnapshot) (e : ProtocolEvent) (k : Sound h s)
    (ordinary : tail s.phase ≡ 0) where
  -- A commit that costs a step and leaves the runs as they are
  pub commit-Keeps :
      (to : Phase) (t : CycleSnapshot)
      → (t.runs ≡ s.runs) × ((t.identity ≡ s.identity) × (t.budget ≡ s.budget))
      → Stage h (next h s e to [] true t) to
      → Findings h (next h s e to [] true t) to
      → Returns (Keeps h s e) (commit h s e to t)
  commit-Keeps to t same stage findings =
      commit_with-Keeps h s e none to [] true t k same.1 refl
        (let a = k.bounded in omega (arith, a, ordinary)) (rw same.0 k.own_ids)
        (rw same.0 k.own_namespaces) stage findings

  pub size-Keeps : (p : Fields) → s.phase ≡ Phase.init → Returns (Keeps h s e) (size h s e p)
  unfolding size
  size-Keeps p here =
      let g = subst (Stage h s) here k.stage in
      let u = subst (Findings h s) here k.findings in
      Returns-bind (Keeps h s e) (require_keys ("policy_version" ∷ []) [] p) _ (λ _ _.
        Returns-bind (Keeps h s e) (text_item h "policy_version" p) _ (λ _ _.
          commit-Keeps Phase.sized s (refl, (refl, refl))
            (record { unmutated = g.unmutated; inactive = g.inactive; no_runs = g.no_runs })
            (Untouched-carry h s _ refl refl u)))

  pub lock-Keeps : (p : Fields) → s.phase ≡ Phase.sized → Returns (Keeps h s e) (lock h s e p)
  unfolding lock
  lock-Keeps p here =
      let g = subst (Stage h s) here k.stage in
      let u = subst (Findings h s) here k.findings in
      Returns-bind (Keeps h s e) (require_keys ("materials" ∷ "oracle" ∷ []) [] p) _ (λ _ _.
        Returns-bind (Keeps h s e) (item "materials" p >>= lock_from h) _ (λ materials _.
          Returns-bind (Keeps h s e) (item "oracle" p >>= oracle_from h) _ (λ oracle _.
            commit-Keeps Phase.locked
              (record s { material_lock = some materials; oracle = some oracle })
              (refl, (refl, refl))
              (record {
                lock = materials;
                locked = refl;
                unmutated = g.unmutated;
                inactive = g.inactive;
                ran = ap (confirm_all h materials none []) g.no_runs;
              })
              (Untouched-carry h s _ refl refl u))))

  pub quarantine-Keeps :
      (p : Fields) → s.phase ≡ Phase.green_confirmed → Returns (Keeps h s e) (quarantine h s e p)
  unfolding quarantine
  quarantine-Keeps p here =
      let g = subst (Stage h s) here k.stage in
      let u = subst (Findings h s) here k.findings in
      Returns-bind (Keeps h s e) (require_keys ("artifact_namespace" ∷ "quarantine" ∷ []) [] p) _
        (λ _ _. Returns-bind (Keeps h s e) (text_item h "artifact_namespace" p) _ (λ name _.
          Returns-guard (Keeps h s e) (any (same_namespace name) s.runs) _ _ (λ _.
            Returns-bind (Keeps h s e) (digest_item h "quarantine" p) _ (λ d _.
              commit-Keeps Phase.quarantined
                (record s { quarantine = some d; quarantine_namespace = some name })
                (refl, (refl, refl))
                (record {
                  lock = g.lock;
                  locked = g.locked;
                  unmutated = g.unmutated;
                  inactive = g.inactive;
                  ran = g.ran;
                })
                (Untouched-carry h s _ refl refl u)))))

  -- The mutated source is not the locked one.
  changed_lem :
      (lock_source old new : Digest)
      → not (digest_eq old lock_source) ≡ false
      → digest_eq new old ≡ false
      → digest_eq new lock_source ≡ false
  changed_lem lock_source old new same other =
      subst (λ d. digest_eq new d ≡ false) (digest_eq→eq old lock_source (not-false _ same)) other

  mutate_under-Keeps :
      (p : Fields) (g : Locked h s before)
      → Untouched h s
      → Returns (Keeps h s e) (mutate_under h s e g.lock p)
  unfolding mutate_under
  mutate_under-Keeps p g u =
      Returns-bind (Keeps h s e) (digest_item h "mutation_delta" p) _ (λ delta _.
        Returns-bind (Keeps h s e) (digest_item h "source_before" p) _ (λ old _.
          Returns-bind (Keeps h s e) (digest_item h "source_after" p) _ (λ new _.
            Returns-guard (Keeps h s e) _ _ _ (λ same. Returns-guard (Keeps h s e) _ _ _ (λ other.
              commit-Keeps Phase.mutation_active
                (record s {
                  mutation_delta = some delta;
                  mutated_source = some new;
                  mutation_active = true;
                })
                (refl, (refl, refl))
                (record {
                  lock = g.lock;
                  source = new;
                  locked = g.locked;
                  mutated = refl;
                  changed = changed_lem g.lock.source old new same other;
                  is_active = refl;
                  back = refl;
                  ran = confirm_all-before h g.lock none (some new) s.runs g.ran;
                })
                (Untouched-carry h s _ refl refl u))))))

  pub mutate-Keeps :
      (p : Fields) → s.phase ≡ Phase.quarantined → Returns (Keeps h s e) (mutate h s e p)
  unfolding mutate
  mutate-Keeps p here =
      let g = subst (Stage h s) here k.stage in
      Returns-bind (Keeps h s e)
        (require_keys ("mutation_delta" ∷ "source_before" ∷ "source_after" ∷ []) [] p) _
        (λ _ _.
          Returns-some (Keeps h s e) s.material_lock g.lock _ _ g.locked
            (mutate_under-Keeps p g (subst (Findings h s) here k.findings)))
