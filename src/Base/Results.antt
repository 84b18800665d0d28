-- ===== src/Base/Results.antt =====
-- Python exceptions as values.
use mathlib.Core.Path.{◌≡◌, refl, subst}
use mathlib.Core.Bool.{Bool, true, false}
use ooptdd.Base.Tests.{if◌then◌else◌}
use mathlib.Core.List.{List, [], ◌∷◌}

pub data Error : Type 0 where
  value_error type_error key_error attribute_error runtime_error : Error

pub data Result {ℓ} (A : Type ℓ) : Type ℓ where
  ok : A → Result A
  raise : Error → Result A

infixl 5 ◌>>=◌
abbrev pub ◌>>=◌ {ℓ μ} : {X : Type ℓ} {Y : Type μ} (x : Result X) (next : X → Result Y) → Result Y
raise e >>= next = raise e
ok x >>= next = next x

-- `if test: raise error`
abbrev pub raise_if : Bool → Error → Result (Unit {0})
raise_if true e = raise e
raise_if false e = ok tt

-- One statement after the other
infixl 5 ◌>>◌
abbrev pub ◌>>◌ {μ} : {Y : Type μ} (x : Result (Unit {0})) (next : Result Y) → Result Y
x >> next = x >>= λ _. next

-- `any` and `all` over a test that may raise; they stop at the first item that decides.
module _ {ℓ} {A : Type ℓ} where
  abbrev pub any_m : (A → Result Bool) → List A → Result Bool
  any_m p [] = ok false
  any_m p (x ∷ xs) = p x >>= elim [ true ↦ ok true | false ↦ any_m p xs ]

  abbrev pub map_m {κ} : {B : Type κ} → (A → Result B) → List A → Result (List B)
  map_m f [] = ok []
  map_m f (x ∷ xs) = do y ← f x; ys ← map_m f xs; ok (y ∷ ys)

-- Inversion of a successful bind.
pub >>=-eq-ok {ℓ μ} :
    {X : Type ℓ} {Y : Type μ} (x : Result X) (next : X → Result Y) {y : Y}
    → (x >>= next) ≡ ok y
    → (v : X) × (x ≡ ok v) × (next v ≡ ok y)
>>=-eq-ok (raise e) next h = cc
>>=-eq-ok (ok v) next h = (v, refl, h)

-- What a computation establishes if it returns.
pub data Returns {ℓ κ} {A : Type ℓ} (P : A → Type κ) : Result A → Type (ℓ ⊔ κ) where
  returned : {a : A} → P a → Returns P (ok a)
  raised : {e : Error} → Returns P (raise e)

pub Returns-bind {ℓ κ μ} :
    {A : Type ℓ} {B : Type κ} (P : B → Type μ) (m : Result A) (f : A → Result B)
    → ((a : A) → m ≡ ok a → Returns P (f a))
    → Returns P (m >>= f)
Returns-bind P (ok a) f h = h a refl
Returns-bind P (raise e) f h = raised

Returns-value {ℓ κ} : {A : Type ℓ} (P : A → Type κ) {a : A} → Returns P (ok a) → P a
Returns-value P (returned p) = p

pub Returns-eq {ℓ κ} :
    {A : Type ℓ} (P : A → Type κ) {r : Result A} {a : A} → r ≡ ok a → Returns P r → P a
Returns-eq P e h = Returns-value P (subst (Returns P) e h)

pub Returns-map {ℓ κ μ} :
    {A : Type ℓ} (P : A → Type κ) (Q : A → Type μ) (f : (a : A) → P a → Q a) {r : Result A}
    → Returns P r
    → Returns Q r
Returns-map P Q f (returned {a} p) = returned (f a p)
Returns-map P Q f raised = raised

-- A conditional returns what both of its branches return.
pub Returns-if {ℓ κ} :
    {A : Type ℓ} (P : A → Type κ) (b : Bool) (x y : Result A)
    → Returns P x
    → Returns P y
    → Returns P (if b then x else y)
Returns-if P true x y h k = h
Returns-if P false x y h k = k

pub ok-injective {ℓ} : {A : Type ℓ} {a b : A} → ok a ≡ ok b → a ≡ b
ok-injective e = cc

pub Returns-intro {ℓ κ} :
    {A : Type ℓ} (P : A → Type κ) (r : Result A) → ((a : A) → r ≡ ok a → P a) → Returns P r
Returns-intro P (ok a) h = returned (h a refl)
Returns-intro P (raise e) h = raised

-- A split on the test, with its value at hand in each branch.
pub Returns-split {ℓ κ} :
    {A : Type ℓ} (P : A → Type κ) (b : Bool) (x y : Result A)
    → (b ≡ true → Returns P x)
    → (b ≡ false → Returns P y)
    → Returns P (if b then x else y)
Returns-split P true x y h k = h refl
Returns-split P false x y h k = k refl
