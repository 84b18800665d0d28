-- ===== src/Cycle/Facts.antt =====
-- Lemmas on the phases, the texts and the runs of the evidence cycle
-- (extensions/ooptdd-mutation/src/ooptdd_mutation/ouroboros).
use ooptdd.Base.{
  Option, none, some, ℕ, zero, suc, true, false, ◌&&◌, Option, String, str_eq, str_eq→eq, List, [],
  ◌∷◌, ◌++◌, any, map, ◌≡◌, refl, sym, ap, ◌∙◌, &&_true, ==_iff,
}
pub use ooptdd.Ouroboros.Distinct.{str_eq_sym, mem-append, distinct-append_last}
use ooptdd.Ouroboros.Model.{mem}
use ooptdd.Cycle.Model.{
  CycleSnapshot, InterruptReason, cancelled, timed_out, budget_exhausted, retry_exhausted,
  no_conclusion, identity_clash, Phase, phase_index, is_phase, is_terminal, Hashing, RunRole,
  RunEvidence, Digest, digest_eq, MaterialLock,
}
use ooptdd.Cycle.Reducer.{halt_phase}
use ooptdd.Cycle.Invariant.{Untouched, confirms, confirm_all, before, tail}

abbrev phases : List Phase
phases =
    Phase.init ∷ Phase.sized ∷ Phase.locked ∷ Phase.initial_red_confirmed ∷ Phase.green_confirmed
    ∷ Phase.quarantined ∷ Phase.mutation_active ∷ Phase.negative_red_confirmed ∷ Phase.restored
    ∷ Phase.regreen_confirmed ∷ Phase.bite_pending ∷ Phase.recovery_required ∷ Phase.complete
    ∷ Phase.superseded_by_successor ∷ Phase.inconclusive ∷ Phase.interrupted
    ∷ Phase.identity_conflict ∷ []

abbrev nth : ℕ → List Phase → Phase
nth n [] = Phase.init
nth zero (p ∷ ps) = p
nth (suc n) (p ∷ ps) = nth n ps

-- The phase at an index
abbrev phase_at : ℕ → Phase
phase_at n = nth n phases

phase_at-phase_index : (p : Phase) → phase_at (phase_index p) ≡ p
phase_at-phase_index Phase.init = refl
phase_at-phase_index Phase.sized = refl
phase_at-phase_index Phase.locked = refl
phase_at-phase_index Phase.initial_red_confirmed = refl
phase_at-phase_index Phase.green_confirmed = refl
phase_at-phase_index Phase.quarantined = refl
phase_at-phase_index Phase.mutation_active = refl
phase_at-phase_index Phase.negative_red_confirmed = refl
phase_at-phase_index Phase.restored = refl
phase_at-phase_index Phase.regreen_confirmed = refl
phase_at-phase_index Phase.bite_pending = refl
phase_at-phase_index Phase.recovery_required = refl
phase_at-phase_index Phase.complete = refl
phase_at-phase_index Phase.superseded_by_successor = refl
phase_at-phase_index Phase.inconclusive = refl
phase_at-phase_index Phase.interrupted = refl
phase_at-phase_index Phase.identity_conflict = refl

pub is_phase→eq : (p q : Phase) → is_phase p q ≡ true → p ≡ q
is_phase→eq p q t =
    sym (phase_at-phase_index p)
    ∙ ap phase_at ((==_iff (phase_index p) (phase_index q)).0 t)
    ∙ phase_at-phase_index q

-- An ordinary phase has no tail.
pub tail_ordinary :
    (p : Phase) → is_terminal p ≡ false → is_phase p Phase.recovery_required ≡ false → tail p ≡ 0
tail_ordinary Phase.init t r = refl
tail_ordinary Phase.sized t r = refl
tail_ordinary Phase.locked t r = refl
tail_ordinary Phase.initial_red_confirmed t r = refl
tail_ordinary Phase.green_confirmed t r = refl
tail_ordinary Phase.quarantined t r = refl
tail_ordinary Phase.mutation_active t r = refl
tail_ordinary Phase.negative_red_confirmed t r = refl
tail_ordinary Phase.restored t r = refl
tail_ordinary Phase.regreen_confirmed t r = refl
tail_ordinary Phase.bite_pending t r = refl
tail_ordinary Phase.recovery_required t r = cc
tail_ordinary Phase.complete t r = cc
tail_ordinary Phase.superseded_by_successor t r = cc
tail_ordinary Phase.inconclusive t r = cc
tail_ordinary Phase.interrupted t r = cc
tail_ordinary Phase.identity_conflict t r = cc

-- The three phases in which a recovery ends
pub halt_phase_elim {κ} :
    (P : Phase → Type κ)
    → P Phase.identity_conflict
    → P Phase.inconclusive
    → P Phase.interrupted
    → (o : Option InterruptReason) → P (halt_phase o)
halt_phase_elim P a b c none = c
halt_phase_elim P a b c (some cancelled) = c
halt_phase_elim P a b c (some timed_out) = c
halt_phase_elim P a b c (some budget_exhausted) = c
halt_phase_elim P a b c (some retry_exhausted) = c
halt_phase_elim P a b c (some no_conclusion) = b
halt_phase_elim P a b c (some identity_clash) = a

pub confirm_all-append :
    (h : Hashing) (l : MaterialLock) (m : Option Digest) (ps : List RunRole) (rs : List RunEvidence)
    (p : RunRole) (r : RunEvidence)
    → confirm_all h l m ps rs ≡ true
    → confirms h l m p r ≡ true
    → confirm_all h l m (ps ++ (p ∷ [])) (rs ++ (r ∷ [])) ≡ true
confirm_all-append h l m [] [] p r e f = rw f refl
confirm_all-append h l m [] (x ∷ rs) p r e f = cc
confirm_all-append h l m (q ∷ ps) [] p r e f = cc
confirm_all-append h l m (q ∷ ps) (x ∷ rs) p r e f =
    let t = &&_true (confirms h l m q x) (confirm_all h l m ps rs) e in
    rw t.0 (confirm_all-append h l m ps rs p r t.1 f)

-- The runs before the mutation do not depend on it.
pub confirm_all-before :
    (h : Hashing) (l : MaterialLock) (m n : Option Digest) (rs : List RunEvidence)
    → confirm_all h l m before rs ≡ true
    → confirm_all h l n before rs ≡ true
confirm_all-before h l m n [] e = e
confirm_all-before h l m n (a ∷ []) e = e
confirm_all-before h l m n (a ∷ (b ∷ [])) e = e
confirm_all-before h l m n (a ∷ (b ∷ (c ∷ rs))) e = e

pub mem-map {ℓ} :
    {A : Type ℓ} (f : A → String) (x : String) (xs : List A)
    → mem x (map f xs) ≡ any (λ a. str_eq (f a) x) xs
mem-map f x [] = refl
mem-map f x (a ∷ xs) = rw (str_eq_sym x (f a)) (rw (mem-map f x xs) refl)

pub map-append {ℓ κ} :
    {A : Type ℓ} {B : Type κ} (f : A → B) (xs ys : List A) → map f (xs ++ ys) ≡ map f xs ++ map f ys
map-append f [] ys = refl
map-append f (x ∷ xs) ys = ap (λ zs. f x ∷ zs) (map-append f xs ys)

-- Five texts that are equal one by one
pub digest_eq→eq : (c d : Digest) → digest_eq c d ≡ true → c ≡ d
digest_eq→eq c d t =
    let a = str_eq c.algorithm d.algorithm in
    let b = str_eq c.scope d.scope in
    let e = str_eq c.canonicalization d.canonicalization in
    let f = str_eq c.schema_version d.schema_version in
    let g = str_eq c.value d.value in
    let p = &&_true a (b && (e && (f && g))) t in
    let q = &&_true b (e && (f && g)) p.1 in
    let r = &&_true e (f && g) q.1 in
    let u = &&_true f g r.1 in
    λ i. record {
      algorithm = str_eq→eq c.algorithm d.algorithm p.0 i;
      scope = str_eq→eq c.scope d.scope q.0 i;
      canonicalization = str_eq→eq c.canonicalization d.canonicalization r.0 i;
      schema_version = str_eq→eq c.schema_version d.schema_version u.0 i;
      value = str_eq→eq c.value d.value u.1 i;
    }

-- The two snapshots agree on the dispositions.
pub Untouched-carry :
    (h : Hashing) (s t : CycleSnapshot)
    → t.dispositions ≡ s.dispositions
    → t.bound_material_changed ≡ s.bound_material_changed
    → Untouched h s
    → Untouched h t
Untouched-carry h s t a b u = record {
  no_dispositions = a ∙ u.no_dispositions;
  unchanged = b ∙ u.unchanged;
}
