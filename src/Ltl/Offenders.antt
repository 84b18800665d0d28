-- ===== src/Ltl/Offenders.antt =====
-- The monitors that settle on the first offender: `AbsentMonitor`, `DurationMonitor` and
-- `ConformsMonitor`. What they have collected is never dropped.
use ooptdd.Base.{
  ◌≡◌, refl, Bool, true, false, ℤ, Option, none, some, List, [], ◌∷◌, ◌++◌, not, subst, arith,
  Bool-cases, inl, inr, suc,
}
use ooptdd.Value.{Value, Event, get}
use ooptdd.Ontology.{Ontology, EventType, Problem, validate}
use ooptdd.Monitor.Verdicts.{Verdict, sat, viol, pend, Latch, latch, Keeps, latch-Keeps}
use ooptdd.Monitor.Absent.{AbsentMonitor}
use ooptdd.Monitor.Absent
use ooptdd.Monitor.Duration.{DurationMonitor}
use ooptdd.Monitor.Duration
use ooptdd.Monitor.Conforms.{
  ConformsMonitor, Violation, violate, undeclared, declared, judge, step_with, out_of_scope,
  type_of,
}
use ooptdd.Monitor.Conforms

abbrev pub is_empty {ℓ} : {A : Type ℓ} → List A → Bool
is_empty [] = true
is_empty (_ ∷ _) = false

-- `viol` rests on an offender, and `sat` is never claimed.
abbrev pub settled {ℓ} : {A : Type ℓ} → Verdict → List A → Bool
settled sat xs = false
settled viol xs = not (is_empty xs)
settled pend xs = true

settled-append {ℓ} :
    {A : Type ℓ} (l : Latch) (idx : ℤ) (xs : List A) (x : A)
    → settled l.verdict xs ≡ true
    → settled (latch viol idx l).verdict (xs ++ (x ∷ [])) ≡ true
unfolding latch
settled-append l idx [] x h = ground arith
settled-append l idx (y ∷ xs) x h = ground arith

abbrev pub AbsentSound : AbsentMonitor → Type 0
AbsentSound m = settled m.latched.verdict m.offenders ≡ true

abbrev pub DurationSound : DurationMonitor → Type 0
DurationSound m = settled m.latched.verdict m.offenders ≡ true

abbrev pub ConformsSound : ConformsMonitor → Type 0
ConformsSound m = settled m.latched.verdict m.violations ≡ true

pub absent-advance :
    (m : AbsentMonitor) (ev : Event) (idx : ℤ) (bad : Bool)
    → AbsentSound m
    → AbsentSound (Absent.advance m ev idx bad)
      × Keeps m.latched (Absent.advance m ev idx bad).latched
unfolding Absent.advance
absent-advance m ev idx true h =
    (settled-append m.latched idx m.offenders ev h, latch-Keeps viol idx m.latched)
absent-advance m ev idx false h = (h, λ _. refl)

pub duration-advance :
    (m : DurationMonitor) (ev : Event) (idx : ℤ) (hit : Bool)
    → DurationSound m
    → DurationSound (Duration.advance m ev idx hit)
      × Keeps m.latched (Duration.advance m ev idx hit).latched
unfolding Duration.advance
duration-advance m ev idx false h = (h, λ _. refl)
duration-advance m ev idx true h = elim (Bool-cases (Duration.conforming m ev)) [
  | inl good ↦ rw good (h, λ _. refl)
  | inr bad ↦ rw bad (settled-append m.latched idx m.offenders ev h, latch-Keeps viol idx m.latched)
]

violate-Sound :
    (m : ConformsMonitor) (name : Value) (idx : ℤ) (ps : List Problem)
    → ConformsSound m
    → ConformsSound (violate m name idx ps) × Keeps m.latched (violate m name idx ps).latched
unfolding violate
violate-Sound m name idx ps h =
    (settled-append m.latched idx m.violations _ h, latch-Keeps viol idx m.latched)

undeclared-Sound :
    (m : ConformsMonitor) (name : Value) (idx : ℤ)
    → ConformsSound m
    → ConformsSound (undeclared m name idx) × Keeps m.latched (undeclared m name idx).latched
unfolding undeclared
undeclared-Sound m name idx h = elim (Bool-cases m.closed) [
  | inl c ↦ rw c (violate-Sound (record m { unknown = m.unknown ++ (name ∷ []) }) name idx _ h)
  | inr c ↦ rw c (h, λ _. refl)
]

declared-Sound :
    (m : ConformsMonitor) (name : Value) (idx : ℤ) (ps : List Problem)
    → ConformsSound m
    → ConformsSound (declared m name idx ps) × Keeps m.latched (declared m name idx ps).latched
unfolding declared
declared-Sound m name idx [] h = (h, λ _. refl)
declared-Sound m name idx (p ∷ ps) h =
    violate-Sound (record m { checked = suc m.checked }) name idx (p ∷ ps) h

judge-Sound :
    (m : ConformsMonitor) (et : Option EventType) (ev : Event) (idx : ℤ)
    → ConformsSound m
    → ConformsSound (judge m et ev idx) × Keeps m.latched (judge m et ev idx).latched
unfolding judge
judge-Sound m none ev idx h = undeclared-Sound m (get "event" ev) idx h
judge-Sound m (some et) ev idx h = declared-Sound m (get "event" ev) idx (validate et ev) h

step_with-Sound :
    (m : ConformsMonitor) (o : Option Ontology) (ev : Event) (idx : ℤ)
    → ConformsSound m
    → ConformsSound (step_with m o ev idx) × Keeps m.latched (step_with m o ev idx).latched
unfolding step_with
step_with-Sound m none ev idx h = (h, λ _. refl)
step_with-Sound m (some o) ev idx h = elim (Bool-cases (out_of_scope m ev)) [
  | inl out ↦ rw out (h, λ _. refl)
  | inr in_scope ↦ rw in_scope (judge-Sound m (type_of o (get "event" ev)) ev idx h)
]

pub conforms-step :
    (m : ConformsMonitor) (ev : Event) (idx : ℤ)
    → ConformsSound m
    → ConformsSound (Conforms.step m ev idx) × Keeps m.latched (Conforms.step m ev idx).latched
unfolding Conforms.step
conforms-step m ev idx h = step_with-Sound m m.ontology ev idx h

-- With an offender the check does not pass; without one the verdict is not settled.
pub absent_viol :
    (m : AbsentMonitor) (r : Bool)
    → AbsentSound m
    → m.latched.verdict ≡ viol
    → Absent.passed m r ≡ false
unfolding Absent.passed
absent_viol m r h e = ground arith

pub duration_viol :
    (m : DurationMonitor) (r : Bool)
    → DurationSound m
    → m.latched.verdict ≡ viol
    → Duration.passed m r ≡ false
unfolding Duration.passed
duration_viol m r h e = ground arith

pub conforms_viol :
    (m : ConformsMonitor) (r : Bool)
    → ConformsSound m
    → m.latched.verdict ≡ viol
    → Conforms.passed m r ≡ false
unfolding Conforms.passed
conforms_viol m r h e = ground arith

pub never_sat {ℓ} : {A : Type ℓ} {v : Verdict} (xs : List A) → settled v xs ≡ true → v ≡ sat → ⊥
never_sat xs h e = cc (subst (λ v. settled v xs ≡ true) e h)
