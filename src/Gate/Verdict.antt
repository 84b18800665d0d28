-- ===== src/Gate/Verdict.antt =====
-- What the verdict of a gate means.
use ooptdd.Base.{
  ◌≡◌, inl, inr, refl, sym, ap, ◌∙◌, Bool, true, false, ◌&&◌, ◌||◌, not, Option, none, some, String,
  str_eq, List, [], ◌∷◌, any, all, keep, ◌==◌, ok, ◌>>=◌, arith, Bool-cases, not-false,
  if◌then◌else◌, Returns, returned, Returns-bind, Returns-eq, Returns-if, Returns-split, raise_if,
  Error, pos,
}
use ooptdd.Value.{Float, float, ge, le, int, apply_op, Value, Fields, get, is_null}
use ooptdd.Builtins.{Builtins}
use ooptdd.Chain.{Crypto, Report, intact, broken, verify_chain}
use ooptdd.Poll.Sorting.{sorted}
use ooptdd.Gate.Values.{GateEvaluation}
use ooptdd.Gate.Rules.{expand_rules, gate_threshold}
use ooptdd.Gate.Scope.{Check, is_gating, is_some_check, is_corroborated, corroborations, scope}
use ooptdd.Gate.Kernel.{
  evaluate_checks, Outcome, weighted, required_outcome, authentication, GateResult, is_green,
  build_result, judge_events, stripped, result_of, finite_weight, weights, passed_checks, is_intact,
  is_true,
}

-- A check that the gate rests on has passed.
abbrev pub stands : Check → Bool
stands c = not (is_gating c) || c.passed

-- A check that the gate rests on has passed on the word of another source.
abbrev pub backs : Check → Bool
backs c = is_gating c && (is_corroborated c.grounding && c.passed)

pub some-gating : (cs : List Check) → is_some_check (keep is_gating cs) ≡ any is_gating cs
some-gating [] = refl
some-gating (c ∷ cs) = ground (arith, some-gating cs)

all-gating : (cs : List Check) → all (λ (c : Check). c.passed) (keep is_gating cs) ≡ all stands cs
all-gating [] = refl
all-gating (c ∷ cs) = ground (arith, all-gating cs)

some_backing : (cs : List Check) → (corroborations (keep is_gating cs) == 0) ≡ not (any backs cs)
unfolding corroborations
some_backing [] = refl
some_backing (c ∷ cs) = ground (arith, some_backing cs)

-- The required checks: all of them without a threshold, and else a score that reaches it
pub data Required (py : Builtins) (threshold : Value) (r : GateResult) : Type 0 where
  all_stand : is_null threshold ≡ true → all stands r.checks ≡ true → Required py threshold r
  scored :
      (s t : Float)
      → is_null threshold ≡ false
      → r.score ≡ some s
      → gate_threshold py threshold ≡ ok t
      → apply_op ge (float s) (float t) ≡ true
      → Required py threshold r

-- The chain of the events verifies under the key of the policy.
pub record Signed (crypto : Crypto) (e : GateEvaluation) : Type 0 where
  pub key : String
  pub given : e.policy.signing_key ≡ some key
  pub nonempty : str_eq key "" ≡ false
  pub verified : verify_chain crypto (stripped e.events) key false none none ≡ ok intact

-- What a green verdict rests on
pub record Green (py : Builtins) (crypto : Crypto) (e : GateEvaluation) (r : GateResult)
    : Type 0 where
  pub reachable : e.source.reachable ≡ true
  pub complete : e.source.complete ≡ true
  pub asserts : any is_gating r.checks ≡ true
  pub required : Required py (get "threshold" e.spec) r
  pub corroborated : e.policy.require_corroboration ≡ true → any backs r.checks ≡ true
  pub authentic : e.policy.require_signature ≡ true → Signed crypto e
  pub independent :
      e.policy.require_independent_store ≡ true
      → e.source.emit_independent ≡ some false
      → any backs r.checks ≡ true

-- The parts of a result that was built
pub record Built (py : Builtins) (crypto : Crypto) (e : GateEvaluation) (r : GateResult)
    : Type 0 where
  pub outcome : Outcome
  pub auth : Option Bool
  pub judged : required_outcome py (keep is_gating r.checks) (get "threshold" e.spec) ≡ ok outcome
  pub authenticated :
      authentication crypto e.policy e.events (is_some_check (keep is_gating r.checks)) ≡ ok auth
  pub verdict : r.ok? ≡ is_green e (keep is_gating r.checks) outcome auth
  pub score : r.score ≡ outcome.score

pub build_result-Built :
    (py : Builtins) (crypto : Crypto) (e : GateEvaluation) (checks : List Check)
    (rules : List Fields)
    → Returns (Built py crypto e) (build_result py crypto e checks rules)
unfolding build_result
build_result-Built py crypto e checks rules =
    Returns-bind (Built py crypto e)
      (required_outcome py (keep is_gating checks) (get "threshold" e.spec)) _
      (λ o j.
        Returns-bind (Built py crypto e)
          (authentication crypto e.policy e.events (is_some_check (keep is_gating checks))) _
          (λ a k.
            Returns-bind (Built py crypto e)
              (scope py checks (keep is_gating checks) e.events rules e.registry) _
              (λ sc h. returned {a = result_of e checks (keep is_gating checks) o a sc} (record {
                outcome = o;
                auth = a;
                judged = j;
                authenticated = k;
                verdict = refl;
                score = refl;
              }))))

judge_events-Built :
    (py : Builtins) (crypto : Crypto) (e : GateEvaluation)
    → Returns (Built py crypto e) (judge_events py crypto e)
unfolding judge_events
judge_events-Built py crypto e = Returns-bind (Built py crypto e) (sorted e.events) _ (λ events h.
    Returns-bind (Built py crypto e) (expand_rules py e.spec e.policy) _ (λ rules k.
      Returns-bind (Built py crypto e) (evaluate_checks py e events rules) _
        (λ checks l. build_result-Built py crypto e checks rules)))

-- The outcome of the required checks, by the two kinds of threshold
data Met (py : Builtins) (threshold : Value) (cs : List Check) (o : Outcome) : Type 0 where
  plain :
      is_null threshold ≡ true
      → o.required_ok ≡ all (λ (c : Check). c.passed) cs
      → Met py threshold cs o
  scored_as :
      (s t : Float)
      → is_null threshold ≡ false
      → o.score ≡ some s
      → gate_threshold py threshold ≡ ok t
      → o.required_ok ≡ apply_op ge (float s) (float t)
      → Met py threshold cs o

required_outcome-Met :
    (py : Builtins) (cs : List Check) (threshold : Value)
    → Returns (Met py threshold cs) (required_outcome py cs threshold)
unfolding required_outcome weighted
required_outcome-Met py cs threshold = elim (Bool-cases (is_null threshold)) [
  | inl n ↦ rw n (returned (plain n refl))
  | inr n ↦ rw n (
      Returns-bind (Met py threshold cs) (gate_threshold py threshold) _ (λ t g.
        Returns-bind (Met py threshold cs) (finite_weight (weights py cs)) _ (λ total h.
          Returns-bind (Met py threshold cs)
            (raise_if (apply_op le total (int (pos 0))) Error.value_error) _
            (λ u k.
              Returns-bind (Met py threshold cs) (finite_weight (weights py (passed_checks cs))) _
                (λ passed l.
                  returned
                    {a = record {
                      required_ok = apply_op ge (float (py.quotient passed total)) (float t);
                      score = some (py.quotient passed total);
                      threshold = some t;
                    }}
                    (scored_as (py.quotient passed total) t n refl g refl))))))
]

is_intact-eq : (r : Report) → is_intact r ≡ true → r ≡ intact
is_intact-eq intact h = refl
is_intact-eq (broken i x) h = cc

-- An authentication that holds has verified the chain.
Authentic : Crypto → GateEvaluation → Option Bool → Type 0
Authentic crypto e a = is_true a ≡ true → Signed crypto e

authentication-Authentic :
    (crypto : Crypto) (e : GateEvaluation) (asserts : Bool)
    → Returns (Authentic crypto e) (authentication crypto e.policy e.events asserts)
unfolding authentication Authentic
authentication-Authentic crypto e asserts =
    Returns-if (Authentic crypto e) (not e.policy.require_signature || not asserts) (ok none) _
      (returned (λ h. cc)) (keyed e.policy.signing_key refl)
  where
    keyed :
        (k : Option String)
        → e.policy.signing_key ≡ k
        → Returns
            (λ (a : Option Bool). is_true a ≡ true → Signed crypto e)
            (elim k [
              | none ↦ ok (some false)
              | some k ↦
                  if str_eq k ""
                  then ok (some false)
                  else (verify_chain crypto (stripped e.events) k false none none >>= λ r.
                      ok (some (is_intact r)))
            ])
    keyed none q = returned (λ h. cc)
    keyed (some k) q =
        Returns-split (λ (a : Option Bool). is_true a ≡ true → Signed crypto e) (str_eq k "")
          (ok (some false)) _ (λ _. returned (λ h. cc))
          (λ n.
            Returns-bind (λ (a : Option Bool). is_true a ≡ true → Signed crypto e)
              (verify_chain crypto (stripped e.events) k false none none) _
              (λ r v. returned (λ h. record {
                key = k;
                given = q;
                nonempty = n;
                verified = v ∙ ap ok (is_intact-eq r h);
              })))

green_parts :
    (e : GateEvaluation) (gating : List Check) (o : Outcome) (a : Option Bool)
    → is_green e gating o a ≡ true
    → (e.source.reachable ≡ true)
      × (e.source.complete ≡ true)
      × (is_some_check gating ≡ true)
      × (o.required_ok ≡ true)
      × (e.policy.require_corroboration ≡ true → (corroborations gating == 0) ≡ false)
      × (e.policy.require_signature ≡ true → is_true a ≡ true)
      × (e.policy.require_independent_store ≡ true
          → e.source.emit_independent ≡ some false
          → (corroborations gating == 0) ≡ false)
green_parts e gating o a h = ground arith

met-Required :
    (py : Builtins) (threshold : Value) (r : GateResult) (o : Outcome)
    → Met py threshold (keep is_gating r.checks) o
    → r.score ≡ o.score
    → o.required_ok ≡ true
    → Required py threshold r
met-Required py threshold r o (plain n q) s h = all_stand n (sym (all-gating r.checks) ∙ sym q ∙ h)
met-Required py threshold r o (scored_as v t n sc g q) s h = scored v t n (s ∙ sc) g (sym q ∙ h)

pub backed :
    (cs : List Check) → (corroborations (keep is_gating cs) == 0) ≡ false → any backs cs ≡ true
backed cs h = not-false (any backs cs) (sym (some_backing cs) ∙ h)

-- A green verdict is never vacuous and never blind. If `judge_events` returns a result that is `ok`,
-- the store was reached and read to its end; at least one check is neither optional, pending nor a
-- tautology, and all such checks have passed, or, with a threshold, their score reaches it; and each
-- wing of the policy that is on holds: a passing check on the word of another source, a signature
-- chain that verifies under the key of the policy, and, where the store is the writer's own, again
-- a check on the word of another source.
pub judge_events-Green :
    (py : Builtins) (crypto : Crypto) (e : GateEvaluation) (r : GateResult)
    → judge_events py crypto e ≡ ok r
    → r.ok? ≡ true
    → Green py crypto e r
unfolding Authentic
judge_events-Green py crypto e r h g =
    let b = Returns-eq (Built py crypto e) h (judge_events-Built py crypto e) in
    let (reach, full, asserts, required, corr, auth, indep) =
      green_parts e (keep is_gating r.checks) b.outcome b.auth (sym b.verdict ∙ g) in
    record {
      reachable = reach;
      complete = full;
      asserts = sym (some-gating r.checks) ∙ asserts;
      required =
          met-Required py (get "threshold" e.spec) r b.outcome
            (Returns-eq (Met py (get "threshold" e.spec) (keep is_gating r.checks)) b.judged
              (required_outcome-Met py (keep is_gating r.checks) (get "threshold" e.spec)))
            b.score required;
      corroborated = λ p. backed r.checks (corr p);
      authentic = λ p.
          Returns-eq (Authentic crypto e) b.authenticated
            (authentication-Authentic crypto e (is_some_check (keep is_gating r.checks))) (auth p);
      independent = λ p q. backed r.checks (indep p q);
    }
