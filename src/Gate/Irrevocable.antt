-- ===== src/Gate/Irrevocable.antt =====
-- A green that `_settled_green` lets through is the green of the whole stream.
use ooptdd.Base.{
  ◌≡◌, refl, sym, ap, ◌∙◌, ℕ, Bool, true, false, ◌&&◌, ◌||◌, not, Option, none, some, List, [], ◌∷◌,
  ◌++◌, all, keep, ok, ◌>>=◌, >>=-eq-ok, Returns, returned, Returns-bind, Returns-eq, Returns-intro,
  ok-injective, &&_true, arith, Bool-cases, inl, inr,
}
use ooptdd.Value.{Fields, Event, dict, get, end}
use ooptdd.Builtins.{Builtins}
use ooptdd.Chain.{Crypto}
use ooptdd.Poll.Sorting.{sorted}
use ooptdd.Gate.Values.{GateEvaluation}
use ooptdd.Gate.Rules.{expand_rules, allowed_errors, or_else}
use ooptdd.Gate.Scope.{Check, is_gating, is_some_check, oracle, scope}
use ooptdd.Gate.Kernel.{
  evaluate_from, evaluate_checks, required_outcome, judge_events, GateResult, build_result,
  authentication, as_mapping, is_green, Outcome,
}
use ooptdd.Gate.Handlers.{core_registry, monitor_check}
use ooptdd.Gate.Settle.{is_final, settles, settled_green}
use ooptdd.Gate.Silent.{core_registry-AllDrive}
use ooptdd.Gate.Agreement.{AllKept, over, evaluate_from-Kept}
use ooptdd.Gate.Alike.{Alike, corroborations-Alike, is_some_check-Alike, required_outcome-Alike}
use ooptdd.Gate.Verdict.{Built, build_result-Built, judge_events-Green}

settles_gating : (c : Check) → is_gating c ≡ true → settles c ≡ true → is_final c ≡ true
settles_gating c g h = ap (λ b. not b || is_final c) (sym g) ∙ h

AllKept-Alike :
    (cs cs' : List Check)
    → AllKept cs cs'
    → all settles cs ≡ true
    → Alike (keep is_gating cs) (keep is_gating cs')
AllKept-Alike [] [] k h = tt
AllKept-Alike [] (c' ∷ cs') k h = absurd k
AllKept-Alike (c ∷ cs) [] k h = absurd k
AllKept-Alike (c ∷ cs) (c' ∷ cs') (k, ks) h =
    let (now, rest) = &&_true (settles c) (all settles cs) h in
    elim (Bool-cases (is_gating c)) [
      | inl g ↦
          let final = settles_gating c g now in
          rw (k.role, g)
            (
              sym ((k.passes final).0 ∙ sym (k.passes final).1),
              k.weight,
              k.grounding final,
              AllKept-Alike cs cs' ks rest,
            )
      | inr g ↦ rw (k.role, g) (AllKept-Alike cs cs' ks rest)
    ]

-- What a result has of the checks and of the policy
record Carries (e : GateEvaluation) (checks : List Check) (r : GateResult) : Type 0 where
  checks_are : r.checks ≡ checks
  signature : r.oracle.signature_enforced ≡ e.policy.require_signature

build_result-Carries :
    (py : Builtins) (crypto : Crypto) (e : GateEvaluation) (checks : List Check)
    (rules : List Fields)
    → Returns (Carries e checks) (build_result py crypto e checks rules)
unfolding build_result oracle
build_result-Carries py crypto e checks rules =
    Returns-bind (Carries e checks)
      (required_outcome py (keep is_gating checks) (get "threshold" e.spec)) _
      (λ o j.
        Returns-bind (Carries e checks)
          (authentication crypto e.policy e.events (is_some_check (keep is_gating checks))) _
          (λ a k.
            Returns-bind (Carries e checks)
              (scope py checks (keep is_gating checks) e.events rules e.registry) _
              (λ sc h. returned (record { checks_are = refl; signature = refl }))))

-- The steps of a judgement that returned
record Judged (py : Builtins) (crypto : Crypto) (e : GateEvaluation) (events : List Event)
    (r : GateResult) : Type 0 where
  rules : List Fields
  indicators : Fields
  allow : List Fields
  expanded : expand_rules py e.spec e.policy ≡ ok rules
  mapped : as_mapping (or_else (get "indicators" e.spec) (dict end)) ≡ ok indicators
  allowed : allowed_errors e.spec ≡ ok allow
  evaluated : evaluate_from py e indicators allow events 0 rules ≡ ok r.checks
  built : Built py crypto e r
  signature : r.oracle.signature_enforced ≡ e.policy.require_signature

judge_events-Judged :
    (py : Builtins) (crypto : Crypto) (e : GateEvaluation) (events : List Event)
    → sorted e.events ≡ ok events
    → Returns (Judged py crypto e events) (judge_events py crypto e)
unfolding judge_events evaluate_checks
judge_events-Judged py crypto e events s =
    let P = Judged py crypto e events in
    rw s (
      Returns-bind P (expand_rules py e.spec e.policy) _ (λ rules hr.
        Returns-bind P (evaluate_checks py e events rules) _ (λ checks hc.
          let (indicators, hi, k) =
            >>=-eq-ok (as_mapping (or_else (get "indicators" e.spec) (dict end)))
              (λ i. allowed_errors e.spec >>= λ a. evaluate_from py e i a events 0 rules) hc in
          let (allow, ha, he) =
            >>=-eq-ok (allowed_errors e.spec) (λ a. evaluate_from py e indicators a events 0 rules)
              k in
          Returns-intro P (build_result py crypto e checks rules) (λ r h.
            let c =
              Returns-eq (Carries e checks) h (build_result-Carries py crypto e checks rules) in
            record {
              rules = rules;
              indicators = indicators;
              allow = allow;
              expanded = hr;
              mapped = hi;
              allowed = ha;
              evaluated = he ∙ ap ok (sym c.checks_are);
              built =
                  Returns-eq (Built py crypto e) h (build_result-Built py crypto e checks rules);
              signature = c.signature;
            }))))

-- The two judgements have the same rules, indicators and allowed errors.
same_inputs :
    (py : Builtins) (crypto : Crypto) (e : GateEvaluation) (evs seen whole : List Event)
    (r r' : GateResult)
    → (a : Judged py crypto e seen r) → (b : Judged py crypto (over e evs) whole r')
    → evaluate_from py (over e evs) a.indicators a.allow whole 0 a.rules ≡ ok r'.checks
same_inputs py crypto e evs seen whole r r' a b =
    ap (λ i. evaluate_from py (over e evs) i a.allow whole 0 a.rules)
      (ok-injective (sym a.mapped ∙ b.mapped))
    ∙ ap (λ w. evaluate_from py (over e evs) b.indicators w whole 0 a.rules)
        (ok-injective (sym a.allowed ∙ b.allowed))
    ∙ ap (λ rules. evaluate_from py (over e evs) b.indicators b.allow whole 0 rules)
        (ok-injective (sym a.expanded ∙ b.expanded))
    ∙ b.evaluated

-- The entry `ok` is the same for lists of checks that are alike, where no signature is asked for.
is_green-Alike :
    (e : GateEvaluation) (evs : List Event) (cs cs' : List Check) (o o' : Outcome)
    (a a' : Option Bool)
    → Alike cs cs'
    → o'.required_ok ≡ o.required_ok
    → e.policy.require_signature ≡ false
    → is_green (over e evs) cs' o' a' ≡ is_green e cs o a
is_green-Alike e evs cs cs' o o' a a' k q s =
    rw (is_some_check-Alike cs cs' k, corroborations-Alike cs cs' k, q, s) refl

settled_parts :
    (r : GateResult)
    → settled_green r ≡ true
    → (r.ok? ≡ true) × (r.oracle.signature_enforced ≡ false) × (all settles r.checks ≡ true)
unfolding settled_green
settled_parts r h = ground arith

-- A green that `_settled_green` accepts on a poll before the last is the green of the whole stream.
-- Suppose that the registry and the default handler are the built-in ones, that no result was
-- captured beforehand, that the stream of the later poll, in the order of its timestamps, is that of
-- the earlier poll with events after it, and that both judgements return. If the earlier result is
-- settled, the later result is `ok`, whatever the added events are, for every spec and every policy,
-- thresholds and weights included.
pub settled_green_irrevocable :
    (py : Builtins) (crypto : Crypto) (e : GateEvaluation) (evs seen later : List Event)
    (r r' : GateResult)
    → e.registry ≡ core_registry py
    → e.count_handler ≡ some (monitor_check py "__count__")
    → ((i : ℕ) → e.captured_check_results i ≡ none)
    → sorted e.events ≡ ok seen
    → sorted evs ≡ ok (seen ++ later)
    → judge_events py crypto e ≡ ok r
    → judge_events py crypto (over e evs) ≡ ok r'
    → settled_green r ≡ true
    → r'.ok? ≡ true
settled_green_irrevocable py crypto e evs seen later r r' core default uncaptured s s' h h' g =
    let (green, unsigned, settled) = settled_parts r g in
    let v = judge_events-Green py crypto e r h green in
    let a = Returns-eq (Judged py crypto e seen) h (judge_events-Judged py crypto e seen s) in
    let b =
      Returns-eq (Judged py crypto (over e evs) (seen ++ later)) h'
        (judge_events-Judged py crypto (over e evs) (seen ++ later) s') in
    let alike =
      AllKept-Alike r.checks r'.checks
        (evaluate_from-Kept py e evs a.indicators a.allow seen later
          (core_registry-AllDrive py e core default) uncaptured (both v.reachable v.complete) 0
          a.rules r.checks r'.checks a.evaluated
          (same_inputs py crypto e evs seen (seen ++ later) r r' a b))
        settled in
    b.built.verdict
    ∙ is_green-Alike e evs (keep is_gating r.checks) (keep is_gating r'.checks) a.built.outcome
        b.built.outcome a.built.auth b.built.auth alike
        (ap (λ (o : Outcome). o.required_ok)
          (ok-injective (
            sym b.built.judged
            ∙ required_outcome-Alike py (get "threshold" e.spec) _ _ alike
            ∙ a.built.judged)))
        (sym a.signature ∙ unsigned)
    ∙ sym a.built.verdict
    ∙ green
  where
    both : {x y : Bool} → x ≡ true → y ≡ true → (x && y) ≡ true
    both p q = ground arith
