-- ===== src/Gate/Alike.antt =====
-- Lists of checks that give the same outcome.
use ooptdd.Base.{ap, map, ◌≡◌, refl, List, [], ◌∷◌, all, Bool-cases, inl, inr}
use ooptdd.Value.{Value, float}
use ooptdd.Builtins.{Builtins}
use ooptdd.Gate.Scope.{Check, is_some_check, corroborations}
use ooptdd.Gate.Kernel.{weights, required_outcome, passed_checks, weighted}

-- Two lists of checks that `_required_outcome` and the policy cannot tell apart
abbrev pub Alike : List Check → List Check → Type 0
Alike [] [] = Unit
Alike (c ∷ cs) (c' ∷ cs') =
    (c'.passed ≡ c.passed) × (c'.weight ≡ c.weight) × (c'.grounding ≡ c.grounding) × Alike cs cs'
Alike _ _ = ⊥

all_passed-Alike :
    (cs cs' : List Check)
    → Alike cs cs'
    → all (λ (c : Check). c.passed) cs' ≡ all (λ (c : Check). c.passed) cs
all_passed-Alike [] [] k = refl
all_passed-Alike [] (c' ∷ cs') k = absurd k
all_passed-Alike (c ∷ cs) [] k = absurd k
all_passed-Alike (c ∷ cs) (c' ∷ cs') (p, w, g, k) = rw (p, all_passed-Alike cs cs' k) refl

same_weights :
    (cs cs' : List Check)
    → Alike cs cs'
    → map (λ (c : Check). float c.weight) cs' ≡ map (λ (c : Check). float c.weight) cs
same_weights [] [] k = refl
same_weights [] (c' ∷ cs') k = absurd k
same_weights (c ∷ cs) [] k = absurd k
same_weights (c ∷ cs) (c' ∷ cs') (p, w, g, k) = rw (w, same_weights cs cs' k) refl

weights-Alike :
    (py : Builtins) (cs cs' : List Check) → Alike cs cs' → weights py cs' ≡ weights py cs
weights-Alike py cs cs' k = ap py.total (same_weights cs cs' k)

passed_checks-Alike :
    (cs cs' : List Check) → Alike cs cs' → Alike (passed_checks cs) (passed_checks cs')
passed_checks-Alike [] [] k = tt
passed_checks-Alike [] (c' ∷ cs') k = absurd k
passed_checks-Alike (c ∷ cs) [] k = absurd k
passed_checks-Alike (c ∷ cs) (c' ∷ cs') (p, w, g, k) = elim (Bool-cases c.passed) [
  | inl b ↦ rw (p, b) (refl, w, g, passed_checks-Alike cs cs' k)
  | inr b ↦ rw (p, b) (passed_checks-Alike cs cs' k)
]

pub corroborations-Alike :
    (cs cs' : List Check) → Alike cs cs' → corroborations cs' ≡ corroborations cs
unfolding corroborations
corroborations-Alike [] [] k = refl
corroborations-Alike [] (c' ∷ cs') k = absurd k
corroborations-Alike (c ∷ cs) [] k = absurd k
corroborations-Alike (c ∷ cs) (c' ∷ cs') (p, w, g, k) =
    rw (p, g, corroborations-Alike cs cs' k) refl

pub is_some_check-Alike :
    (cs cs' : List Check) → Alike cs cs' → is_some_check cs' ≡ is_some_check cs
is_some_check-Alike [] [] k = refl
is_some_check-Alike [] (c' ∷ cs') k = absurd k
is_some_check-Alike (c ∷ cs) [] k = absurd k
is_some_check-Alike (c ∷ cs) (c' ∷ cs') k = refl

pub required_outcome-Alike :
    (py : Builtins) (t : Value) (cs cs' : List Check)
    → Alike cs cs'
    → required_outcome py cs' t ≡ required_outcome py cs t
unfolding required_outcome weighted
required_outcome-Alike py t cs cs' k =
    rw
      (
        all_passed-Alike cs cs' k,
        weights-Alike py cs cs' k,
        weights-Alike py (passed_checks cs) (passed_checks cs') (passed_checks-Alike cs cs' k),
      )
      refl
