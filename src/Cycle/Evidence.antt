-- ===== src/Cycle/Evidence.antt =====
-- `_parse_run` of extensions/ooptdd-mutation/src/ooptdd_mutation/ouroboros/reducer.py: what a run
-- that it lets through has been checked for.
use ooptdd.Base.{
  Bool, true, false, ◌&&◌, ◌||◌, not, Option, none, some, str_eq, [], any, Result, ok, raise_if,
  Error, ◌>>◌, Returns, returned, raised, Returns-bind, Returns-eq, ◌≡◌, refl, sym, subst, ap,
  arith, not-false, ok-injective, ◌⊎◌, inl, inr, Bool-cases,
}
use ooptdd.Value.{Fields}
use ooptdd.Cycle.Model.{
  CycleSnapshot, Hashing, MaterialLock, Digest, RunRole, initial, positive, negative, regreened,
  RunEvidence, is_completion_tier,
}
use ooptdd.Cycle.Payload.{require_keys}
use ooptdd.Cycle.Runs.{
  same_run_id, same_namespace, expected_source, check_run, check_verdict, parse_run, read_run,
  run_is_inconclusive, outcome_fits, needs_readback, is_present, run_keys,
}
use ooptdd.Cycle.Invariant.{confirms, subject, is_digest_of}

-- A guard that was passed
pub Returns-guard {ℓ κ} :
    {A : Type ℓ} (P : A → Type κ) (b : Bool) (e : Error) (rest : Result A)
    → (b ≡ false → Returns P rest)
    → Returns P (raise_if b e >> rest)
Returns-guard P true e rest f = raised
Returns-guard P false e rest f = f refl

pub Returns-guarded {κ} :
    (P : Unit {0} → Type κ) (b : Bool) (e : Error) → (b ≡ false → P tt) → Returns P (raise_if b e)
Returns-guarded P true e f = raised
Returns-guarded P false e f = returned (f refl)

pub some-injective {ℓ} : {A : Type ℓ} {a b : A} → some a ≡ some b → a ≡ b
some-injective e = cc

-- The branch of a lock that is there
pub Returns-some {ℓ κ μ} :
    {A : Type ℓ} {B : Type μ} (P : A → Type κ) (o : Option B) (b : B) (x : Result A)
    (f : B → Result A)
    → o ≡ some b
    → Returns P (f b)
    → Returns P (elim o [ none ↦ x | some c ↦ f c ])
Returns-some P none b x f t r = cc
Returns-some P (some c) b x f t r = subst (λ d. Returns P (f d)) (sym (some-injective t)) r

expected_source-subject :
    (role : RunRole) (l : MaterialLock) (m : Option Digest) (d : Digest)
    → expected_source role l.source m ≡ ok d
    → subject role l m ≡ some d
unfolding expected_source
expected_source-subject initial l m d t = ap some (ok-injective t)
expected_source-subject positive l m d t = ap some (ok-injective t)
expected_source-subject regreened l m d t = ap some (ok-injective t)
expected_source-subject negative l none d t = cc
expected_source-subject negative l (some c) d t = ap some (ok-injective t)

verdict_bits :
    (inc fits needs present tier : Bool)
    → (not inc && not fits) ≡ false
    → (not inc && (needs && not present)) ≡ false
    → (not inc && (needs && not tier)) ≡ false
    → inc ≡ false
    → (not inc && (fits && (not needs || (present && tier)))) ≡ true
verdict_bits inc fits needs present tier a b c d = ground arith

module _ (h : Hashing) (s : CycleSnapshot) (l : MaterialLock) (role : RunRole)
    (r : RunEvidence) where
  record Checked : Type 0 where
    under : str_eq r.material_lock_sha256 (h.materials l) ≡ true
    fresh_id : any (same_run_id r.run_id) s.runs ≡ false
    fresh_namespace : any (same_namespace r.artifact_namespace) s.runs ≡ false
    executed : is_digest_of (subject role l s.mutated_source) r.executed_source ≡ true

  check_run-Checked : Returns (λ _. Checked) (check_run h s l role r)
  unfolding check_run
  check_run-Checked =
      Returns-guard (λ _. Checked) _ _ _
        (λ under.
          Returns-guard (λ _. Checked) _ _ _
            (λ id.
              Returns-guard (λ _. Checked) _ _ _
                (λ namespace.
                  Returns-bind (λ _. Checked) (expected_source role l.source s.mutated_source) _
                    (λ d t.
                      Returns-guarded (λ _. Checked) _ _
                        (λ same. record {
                          under = not-false _ under;
                          fresh_id = id;
                          fresh_namespace = namespace;
                          executed =
                              rw (expected_source-subject role l s.mutated_source d t)
                                (not-false _ same);
                        })))))

  -- The verdict part of `confirms`
  abbrev bears_out : Bool
  bears_out =
      not (run_is_inconclusive r)
      && (outcome_fits role r.outcome
          && (not (needs_readback role)
              || (is_present r.observation && is_completion_tier r.evidence_tier)))

  Bearing : Type 0
  Bearing = (run_is_inconclusive r ≡ true) ⊎ (bears_out ≡ true)

  check_verdict-Bearing : Returns (λ _. Bearing) (check_verdict h s role r)
  unfolding check_verdict Bearing
  check_verdict-Bearing =
      Returns-guard (λ _. Bearing) _ _ _
        (λ a.
          Returns-guard (λ _. Bearing) _ _ _
            (λ b.
              Returns-guard (λ _. Bearing) _ _ _
                (λ c.
                  Returns-guarded (λ _. Bearing) _ _
                    (λ _. elim (Bool-cases (run_is_inconclusive r)) [
                      | inl t ↦ inl t
                      | inr f ↦ inr (
                          verdict_bits _ (outcome_fits role r.outcome) (needs_readback role)
                            (is_present r.observation) (is_completion_tier r.evidence_tier) a b c f)
                    ]))))

  -- The run is new, and is inconclusive or bears out its role.
  pub record Parsed : Type 0 where
    pub fresh_id : any (same_run_id r.run_id) s.runs ≡ false
    pub fresh_namespace : any (same_namespace r.artifact_namespace) s.runs ≡ false
    pub verdict : (run_is_inconclusive r ≡ true) ⊎ (confirms h l s.mutated_source role r ≡ true)

  parsed : Checked → Bearing → Parsed
  unfolding Bearing
  parsed c b = record {
    fresh_id = c.fresh_id;
    fresh_namespace = c.fresh_namespace;
    verdict = elim b [ inl t ↦ inl t | inr f ↦ inr (rw c.under (rw c.executed f)) ];
  }

pub parse_run-Parsed :
    (h : Hashing) (s : CycleSnapshot) (l : MaterialLock) (p : Fields) (role : RunRole)
    → s.material_lock ≡ some l
    → Returns (Parsed h s l role) (parse_run h s p role)
unfolding parse_run
parse_run-Parsed h s l p role locked =
    Returns-bind (Parsed h s l role) (require_keys run_keys [] p) _ (λ _ _.
      Returns-some (Parsed h s l role) s.material_lock l _ _ locked (
        Returns-bind (Parsed h s l role) (read_run h p role) _ (λ r _.
          Returns-bind (Parsed h s l role) (check_run h s l role r) _ (λ _ c.
            Returns-bind (Parsed h s l role) (check_verdict h s role r) _ (λ _ v. returned (
              parsed h s l role r
                (Returns-eq (λ _. Checked h s l role r) c (check_run-Checked h s l role r))
                (Returns-eq (λ _. Bearing h s l role r) v
                  (check_verdict-Bearing h s l role r))))))))
