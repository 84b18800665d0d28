-- ===== src/Cycle/Bite.antt =====
-- The findings of extensions/ooptdd-mutation/src/ooptdd_mutation/ouroboros/reducer.py: their
-- enumeration, their dispositions and the seal keep the invariant.
use ooptdd.Base.{
  ◌+◌, Bool, true, false, ◌||◌, some, str_eq, List, [], ◌∷◌, ◌++◌, any-append, all-append,
  if◌then◌else◌, Result, ok, raise, Error, ◌>>=◌, Returns, Returns-bind, Returns-split, raised, ◌≡◌,
  refl, subst, ◌∙◌, arith, not-false, ok-injective, leb,
}
use ooptdd.Value.{Value, null, bool, num, str, list, dict, Fields, get}
use ooptdd.Ouroboros.Model.{mem}
use ooptdd.Cycle.Model.{Phase, ProtocolEvent, CycleSnapshot, Hashing, FindingDisposition, RunRole}
use ooptdd.Cycle.Payload.{
  require_keys, item, text_item, require_text, as_bool, member, disposition_names,
  construct_disposition, disposition_ok,
}
use ooptdd.Cycle.Runs.{commit}
use ooptdd.Cycle.Reducer.{
  disposed, finding_list, optional_digest, enumerate_findings, dispose_finding, supersede, complete,
  seal,
}
use ooptdd.Cycle.Invariant.{all_roles, Mutated, Disposing, Sealed, Stage, Findings, tail, Sound}
use ooptdd.Cycle.Facts.{map-append, distinct-append_last}
use ooptdd.Cycle.Commit.{Keeps, next}
use ooptdd.Cycle.Evidence.{Returns-guard}
use ooptdd.Cycle.Moves.{commit-Keeps}

-- What is checked is what is built.
construct_disposition-eq :
    (h : Hashing) (x d : FindingDisposition) → construct_disposition h x ≡ ok d → x ≡ d
construct_disposition-eq h x d t = go (disposition_ok h x) t
  where
    go : (b : Bool) → (if b then ok x else raise Error.value_error) ≡ ok d → x ≡ d
    go true t = ok-injective t
    go false t = cc

Returns-null {ℓ κ} :
    {A : Type ℓ} (P : A → Type κ) (v : Value) (x : Result A)
    → Returns P x
    → Returns P (elim v [ null ↦ x | _ ↦ raise Error.value_error ])
Returns-null P null x r = r
Returns-null P (bool b) x r = raised
Returns-null P (num n) x r = raised
Returns-null P (str t) x r = raised
Returns-null P (list xs) x r = raised
Returns-null P (dict fs) x r = raised

-- The two snapshots agree on the mutation.
Mutated-carry :
    (h : Hashing) (s t : CycleSnapshot) (active : Bool) (roles : List RunRole)
    → t.material_lock ≡ s.material_lock
    → t.mutated_source ≡ s.mutated_source
    → t.mutation_active ≡ s.mutation_active
    → t.restored_source ≡ s.restored_source
    → t.runs ≡ s.runs
    → Mutated h s active roles
    → Mutated h t active roles
Mutated-carry h s t active roles a b c d f g = record {
  lock = g.lock;
  source = g.source;
  locked = a ∙ g.locked;
  mutated = b ∙ g.mutated;
  changed = g.changed;
  is_active = c ∙ g.is_active;
  back = rw d g.back;
  ran = rw f g.ran;
}

module _ (h : Hashing) (s : CycleSnapshot) (e : ProtocolEvent) (k : Sound h s)
    (ordinary : tail s.phase ≡ 0) where
  pub enumerate_findings-Keeps :
      (p : Fields)
      → s.phase ≡ Phase.regreen_confirmed
      → Returns (Keeps h s e) (enumerate_findings h s e p)
  unfolding enumerate_findings
  enumerate_findings-Keeps p here =
      let g = subst (Stage h s) here k.stage in
      let u = subst (Findings h s) here k.findings in
      Returns-bind (Keeps h s e) (require_keys ("finding_ids" ∷ []) [] p) _ (λ _ _.
        Returns-bind (Keeps h s e) (item "finding_ids" p >>= finding_list h) _ (λ ids _.
          commit-Keeps h s e k ordinary Phase.bite_pending (record s { finding_ids = ids })
            (refl, (refl, refl)) (Mutated-carry h s _ false all_roles refl refl refl refl refl g)
            (record {
              declared = rw u.no_dispositions refl;
              once = rw u.no_dispositions refl;
              changes = rw u.no_dispositions u.unchanged;
            })))

  -- One more disposition, of a declared finding that had none
  abbrev with_disposition : FindingDisposition → CycleSnapshot
  with_disposition d = record s {
    dispositions = s.dispositions ++ (d ∷ []);
    bound_material_changed = s.bound_material_changed || d.bound_material_changed;
  }

  disposed-append :
      (d : FindingDisposition) → disposed (with_disposition d) ≡ disposed s ++ (d.finding_id ∷ [])
  disposed-append d = map-append (λ (x : FindingDisposition). x.finding_id) s.dispositions (d ∷ [])

  Disposing-append :
      (d : FindingDisposition)
      → Disposing h s
      → mem d.finding_id s.finding_ids ≡ true
      → mem d.finding_id (disposed s) ≡ false
      → Disposing h (next h s e Phase.bite_pending [] true (with_disposition d))
  Disposing-append d f known new = record {
    declared = rw (disposed-append d) (
        all-append (λ x. mem x s.finding_ids) (disposed s) (d.finding_id ∷ [])
        ∙ rw f.declared (rw known refl));
    once = rw (disposed-append d) (distinct-append_last (disposed s) d.finding_id f.once new);
    changes =
        let test : FindingDisposition → Bool = λ x. x.bound_material_changed in
        let p = any-append test s.dispositions (d ∷ []) in let q = f.changes in ground arith;
  }

  dispose-Keeps :
      (d : FindingDisposition)
      → s.phase ≡ Phase.bite_pending
      → mem d.finding_id s.finding_ids ≡ true
      → mem d.finding_id (disposed s) ≡ false
      → Returns (Keeps h s e) (commit h s e Phase.bite_pending (with_disposition d))
  dispose-Keeps d here known new =
      let g = subst (Stage h s) here k.stage in
      let u = subst (Findings h s) here k.findings in
      commit-Keeps h s e k ordinary Phase.bite_pending (with_disposition d) (refl, (refl, refl))
        (Mutated-carry h s _ false all_roles refl refl refl refl refl g)
        (Disposing-append d u known new)

  pub dispose_finding-Keeps :
      (p : Fields) → s.phase ≡ Phase.bite_pending → Returns (Keeps h s e) (dispose_finding h s e p)
  unfolding dispose_finding
  dispose_finding-Keeps p here =
      Returns-bind (Keeps h s e)
        (require_keys
          ("finding_id" ∷ "disposition" ∷ "bound_material_changed" ∷ "change_evidence" ∷ []) [] p)
        _
        (λ _ _. Returns-bind (Keeps h s e) (text_item h "finding_id" p) _ (λ id _.
          Returns-guard (Keeps h s e) _ _ _ (λ known. Returns-guard (Keeps h s e) _ _ _ (λ new.
            Returns-bind (Keeps h s e) (item "bound_material_changed" p >>= as_bool) _ (λ changed _.
              Returns-bind (Keeps h s e) (item "disposition" p >>= member disposition_names) _
                (λ disposition _.
                  Returns-bind (Keeps h s e) (item "change_evidence" p >>= optional_digest h) _
                    (λ evidence _.
                      let x : FindingDisposition = record {
                        finding_id = id;
                        disposition = disposition;
                        bound_material_changed = changed;
                        change_evidence = evidence;
                      } in
                      Returns-bind (Keeps h s e) (construct_disposition h x) _ (λ d t.
                        subst
                          (λ y. Returns (Keeps h s e) (
                            commit h s e Phase.bite_pending (record s {
                              dispositions = s.dispositions ++ (y ∷ []);
                              bound_material_changed = s.bound_material_changed || changed;
                            })))
                          (construct_disposition-eq h x d t)
                          (dispose-Keeps x here (not-false _ known) new)))))))))

  supersede-Keeps :
      (p : Fields)
      → Mutated h s false all_roles
      → Sealed h s true
      → Returns (Keeps h s e) (supersede h s e p)
  unfolding supersede
  supersede-Keeps p g f =
      Returns-bind (Keeps h s e) (require_text h (get "successor_cycle_id" p)) _ (λ successor _.
        Returns-guard (Keeps h s e) (str_eq successor s.identity.cycle_id) Error.value_error _ (λ _.
          Returns-guard (Keeps h s e) (leb s.budget.max_generations (s.identity.generation + 1))
            Error.value_error _
            (λ _.
              commit-Keeps h s e k ordinary Phase.superseded_by_successor
                (record s { successor_cycle_id = some successor }) (refl, (refl, refl))
                (Mutated-carry h s _ false all_roles refl refl refl refl refl g)
                (record {
                  disposing = record {
                    declared = f.disposing.declared;
                    once = f.disposing.once;
                    changes = f.disposing.changes;
                  };
                  every = f.every;
                  outcome = f.outcome;
                }))))

  complete-Keeps :
      (p : Fields)
      → Mutated h s false all_roles
      → Sealed h s false
      → Returns (Keeps h s e) (complete h s e p)
  unfolding complete
  complete-Keeps p g f = Returns-null (Keeps h s e) (get "successor_cycle_id" p) _ (
      commit-Keeps h s e k ordinary Phase.complete s (refl, (refl, refl))
        (Mutated-carry h s _ false all_roles refl refl refl refl refl g)
        (record {
          disposing = record {
            declared = f.disposing.declared;
            once = f.disposing.once;
            changes = f.disposing.changes;
          };
          every = f.every;
          outcome = f.outcome;
        }))

  pub seal-Keeps :
      (p : Fields) → s.phase ≡ Phase.bite_pending → Returns (Keeps h s e) (seal h s e p)
  unfolding seal
  seal-Keeps p here =
      let g = subst (Stage h s) here k.stage in
      let u = subst (Findings h s) here k.findings in
      Returns-bind (Keeps h s e) (require_keys [] ("successor_cycle_id" ∷ []) p) _ (λ _ _.
        Returns-guard (Keeps h s e) _ _ _ (λ every.
          Returns-split (Keeps h s e) s.bound_material_changed _ _
            (λ t.
              supersede-Keeps p g
                (record { disposing = u; every = not-false _ every; outcome = t }))
            (λ t.
              complete-Keeps p g
                (record { disposing = u; every = not-false _ every; outcome = t }))))
