-- ===== src/Gate/Bounds.antt =====
-- The counts that `_scope` reports.
use ooptdd.Base.{
  ◌≡◌, refl, ◌+◌, ◌≤◌, Bool, List, [], ◌∷◌, length, keep, count_if, Returns, returned, Returns-bind,
  Returns-eq, arith,
}
use ooptdd.Value.{Fields, Event, get}
use ooptdd.Builtins.{Builtins}
use ooptdd.Chain.{Crypto}
use ooptdd.Poll.Sorting.{sorted}
use ooptdd.Gate.Values.{Handler, GateEvaluation}
use ooptdd.Gate.Rules.{expand_rules}
use ooptdd.Gate.Scope.{Check, is_gating, is_some_check, asserted_from, Scope, scope}
use ooptdd.Gate.Kernel.{
  evaluate_checks, required_outcome, authentication, GateResult, build_result, judge_events,
}

keep-length {ℓ} : {A : Type ℓ} (p : A → Bool) (xs : List A) → length (keep p xs) ≤ length xs
keep-length p [] = omega arith
keep-length p (x ∷ xs) = ground (arith, keep-length p xs)

count_if-length {ℓ} : {A : Type ℓ} (p : A → Bool) (xs : List A) → count_if p xs ≤ length xs
count_if-length p [] = omega arith
count_if-length p (x ∷ xs) = ground (arith, count_if-length p xs)

-- Each check counts at most once as gating, as optional and as pending.
abbrev pub Disjoint : Scope → Type 0
Disjoint s = (s.gating + s.optional ≤ s.total) × (s.gating + s.pending ≤ s.total)

gating-optional :
    (cs : List Check)
    → length (keep is_gating cs) + count_if (λ (c : Check). c.optional) cs ≤ length cs
gating-optional [] = omega arith
gating-optional (c ∷ cs) = ground (arith, gating-optional cs)

gating-pending :
    (cs : List Check)
    → length (keep is_gating cs) + count_if (λ (c : Check). c.pending) cs ≤ length cs
gating-pending [] = omega arith
gating-pending (c ∷ cs) = ground (arith, gating-pending cs)

-- The counts of a scope, of the checks `cs`
pub record Bounded (cs : List Check) (s : Scope) : Type 0 where
  pub total : s.total ≡ length cs
  pub gating : s.gating ≡ length (keep is_gating cs)
  pub asserts : s.asserts_anything ≡ is_some_check (keep is_gating cs)
  pub disjoint : Disjoint s
  pub charged : s.charged ≤ s.gating
  pub named : s.named_event_types ≤ s.observed_event_types

pub scope-Bounded :
    (py : Builtins) (cs : List Check) (events : List Event) (rules : List Fields)
    (registry : List Handler)
    → Returns (Bounded cs) (scope py cs (keep is_gating cs) events rules registry)
unfolding scope
scope-Bounded py cs events rules registry =
    Returns-bind (Bounded cs) (asserted_from [] rules registry) _ (λ names h. returned (record {
      total = refl;
      gating = refl;
      asserts = refl;
      disjoint = (gating-optional cs, gating-pending cs);
      charged = count_if-length _ (keep is_gating cs);
      named = keep-length _ _;
    }))

build_result-Bounded :
    (py : Builtins) (crypto : Crypto) (e : GateEvaluation) (checks : List Check)
    (rules : List Fields)
    → Returns (λ (r : GateResult). Bounded r.checks r.scope) (build_result py crypto e checks rules)
unfolding build_result
build_result-Bounded py crypto e checks rules =
    let P = λ (r : GateResult). Bounded r.checks r.scope in
    Returns-bind P (required_outcome py (keep is_gating checks) (get "threshold" e.spec)) _ (λ o j.
      Returns-bind P
        (authentication crypto e.policy e.events (is_some_check (keep is_gating checks))) _
        (λ a k.
          Returns-bind P (scope py checks (keep is_gating checks) e.events rules e.registry) _
            (λ sc h.
              returned (
                Returns-eq (Bounded checks) h
                  (scope-Bounded py checks e.events rules e.registry)))))

-- The counts of a result that `judge_events` returns fit together: the total is the number of its
-- checks, the gating count that of the checks with authority, no check counts both as gating and as
-- optional, or both as gating and as pending, the charged ones are at most the gating ones, and the
-- named event types at most the observed ones.
pub judge_events-Bounded :
    (py : Builtins) (crypto : Crypto) (e : GateEvaluation)
    → Returns (λ (r : GateResult). Bounded r.checks r.scope) (judge_events py crypto e)
unfolding judge_events
judge_events-Bounded py crypto e =
    let P = λ (r : GateResult). Bounded r.checks r.scope in
    Returns-bind P (sorted e.events) _ (λ events h.
      Returns-bind P (expand_rules py e.spec e.policy) _ (λ rules k.
        Returns-bind P (evaluate_checks py e events rules) _
          (λ checks l. build_result-Bounded py crypto e checks rules)))
