-- ===== src/Ouroboros/Distinct.antt =====
-- Lemmas on `mem` and `distinct`, the tests that src/ooptdd/ouroboros/model.py makes of identities.
use ooptdd.Base.{
  true, false, ◌||◌, String, str_eq, str_eq→eq, eq→str_eq, List, [], ◌∷◌, ◌++◌, ◌≡◌, refl, sym, ◌∙◌,
  arith, Bool-cases, inl, inr,
}
use ooptdd.Ouroboros.Model.{mem, distinct}

pub str_eq_sym : (x y : String) → str_eq x y ≡ str_eq y x
str_eq_sym x y = elim (Bool-cases (str_eq x y)) [
  | inl t ↦ t ∙ sym (eq→str_eq y x (sym (str_eq→eq x y t)))
  | inr f ↦ elim (Bool-cases (str_eq y x)) [
    | inl t ↦ eq→str_eq x y (sym (str_eq→eq y x t)) ∙ sym t
    | inr g ↦ f ∙ sym g
  ]
]

pub mem-append : (x : String) (xs ys : List String) → mem x (xs ++ ys) ≡ (mem x xs || mem x ys)
mem-append x [] ys = refl
mem-append x (y ∷ xs) ys = ground (arith, mem-append x xs ys)

pub distinct-append_last :
    (xs : List String) (x : String)
    → distinct xs ≡ true
    → mem x xs ≡ false
    → distinct (xs ++ (x ∷ [])) ≡ true
distinct-append_last [] x d m = refl
distinct-append_last (y ∷ xs) x d m =
    ground (arith, distinct-append_last xs x, mem-append y xs (x ∷ []), str_eq_sym x y)
