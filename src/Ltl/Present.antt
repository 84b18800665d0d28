-- ===== src/Ltl/Present.antt =====
-- `PresentMonitor` settles only when every matcher has fired, and a fired matcher stays fired.
use ooptdd.Base.{
  ◌≡◌, refl, Bool, true, false, ℤ, List, [], ◌∷◌, all, ok, Returns, returned, subst, Option,
  if◌then◌else◌, Returns-bind, Returns-eq, arith,
}
use ooptdd.Value.{Value, Event}
use ooptdd.Match.{Matcher, matches}
use ooptdd.Monitor.Verdicts.{Verdict, sat, viol, pend, latch, Keeps}
use ooptdd.Monitor.Present.{PresentMonitor, id, mark, advance, missing, is_empty, passed}

abbrev pub settled : Verdict → List Bool → Bool
settled sat hits = all id hits
settled viol hits = false
settled pend hits = true

abbrev pub IsSound : PresentMonitor → Type 0
IsSound m = settled m.latched.verdict m.hits ≡ true

abbrev Grows : List Bool → List Bool → Type 0
Grows hs hs' = all id hs ≡ true → all id hs' ≡ true

pub mark-Grows :
    (ev : Event) (ms : List Matcher) (hs : List Bool) → Returns (Grows hs) (mark ev ms hs)
unfolding mark
mark-Grows ev [] hs = returned (λ e. refl)
mark-Grows ev (m ∷ ms) [] = returned (λ e. refl)
mark-Grows ev (m ∷ ms) (true ∷ hs) =
    Returns-bind (Grows (true ∷ hs)) (mark ev ms hs) (λ rest. ok (true ∷ rest))
      (λ rest e. returned (Returns-eq (Grows hs) e (mark-Grows ev ms hs)))
mark-Grows ev (m ∷ ms) (false ∷ hs) = Returns-bind (Grows (false ∷ hs)) (matches ev m) _ (λ now _.
    Returns-bind (Grows (false ∷ hs)) (mark ev ms hs) (λ rest. ok (now ∷ rest))
      (λ rest _. returned (λ e. cc)))

advance_settled :
    (v : Verdict) (at : Option ℤ) (hs hs' : List Bool) (idx : ℤ)
    → settled v hs ≡ true
    → Grows hs hs'
    → settled
        (if all id hs'
          then latch sat idx (record { verdict = v; settled_at = at })
          else record { verdict = v; settled_at = at }).verdict
        hs'
      ≡ true
unfolding latch
advance_settled v at hs hs' idx h g = ground arith

pub advance-IsSound :
    (m : PresentMonitor) (idx : ℤ) (hs : List Bool)
    → IsSound m
    → Grows m.hits hs
    → IsSound (advance m idx hs)
unfolding advance
advance-IsSound m idx hs h g =
    advance_settled m.latched.verdict m.latched.settled_at m.hits hs idx h g

pub advance-Keeps :
    (m : PresentMonitor) (idx : ℤ) (hs : List Bool) → Keeps m.latched (advance m idx hs).latched
unfolding advance latch
advance-Keeps m idx hs h = ground arith

missing_none :
    (ls : List Value) (hs : List Bool) → all id hs ≡ true → is_empty (missing ls hs) ≡ true
unfolding missing
missing_none [] hs h = refl
missing_none (l ∷ ls) [] h = refl
missing_none (l ∷ ls) (true ∷ hs) h = missing_none ls hs h
missing_none (l ∷ ls) (false ∷ hs) h = cc

pub passed_of_sat :
    (m : PresentMonitor) → IsSound m → m.latched.verdict ≡ sat → passed m true ≡ true
unfolding passed
passed_of_sat m s e = missing_none m.labels m.hits (subst (λ v. settled v m.hits ≡ true) e s)

pub never_viol : (m : PresentMonitor) → IsSound m → m.latched.verdict ≡ viol → ⊥
never_viol m s e = cc (subst (λ v. settled v m.hits ≡ true) e s)
