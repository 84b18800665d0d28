-- ===== src/Gate/Agreement.antt =====
-- The same rule over a prefix of the stream and over the whole of it.
use ooptdd.Base.{
  ◌≡◌, refl, sym, ap, ◌∙◌, ℕ, suc, true, false, ◌&&◌, Option, none, some, String, str_eq, List, [],
  ◌∷◌, ◌++◌, ok, ◌>>=◌, >>=-eq-ok, Returns-eq, ok-injective, &&_true, Bool-cases, inl, inr, subst,
}
use ooptdd.Value.{Fields, Event, str, dict, get, truthy, value_eq, find_key, or_null}
use ooptdd.Builtins.{Builtins}
use ooptdd.Gate.Values.{CheckCtx, GateSource, GateEvaluation, Handler}
use ooptdd.Gate.Rules.{detect_check_key}
use ooptdd.Gate.Scope.{Check, derived_self, is_gating}
use ooptdd.Gate.Decorate.{passed_of, grounding_of}
use ooptdd.Gate.Kernel.{handler_of, the_handler, evaluate_check, evaluate_from, context}
use ooptdd.Gate.Settle.{is_final}
use ooptdd.Gate.Evaluated.{Decorated, Evaluated, evaluate_check-Evaluated, chosen}
use ooptdd.Gate.Silent.{AllDrive, Known, drives, mute, Silent, Unjudged}
use ooptdd.Gate.Kept.{
  Ran, run-Ran, same_tautology, prefix_passes, whole_passes, prefix_source, whole_source,
}

-- What a check of the prefix tells of the same check of the whole stream
pub record Kept (c c' : Check) : Type 0 where
  pub role : is_gating c' ≡ is_gating c
  pub weight : c'.weight ≡ c.weight
  pub passes : is_final c ≡ true → (c.passed ≡ true) × (c'.passed ≡ true)
  pub grounding : is_final c ≡ true → c'.grounding ≡ c.grounding

-- The dictionaries of the two runs agree as far as the verdict needs.
record Agrees (fs fs' : Fields) : Type 0 where
  tautology : truthy (get "tautological" fs') ≡ truthy (get "tautological" fs)
  passes :
      value_eq (get "verdict" fs) (str "sat") ≡ true
      → (passed_of fs ≡ ok true) × (passed_of fs' ≡ ok true)
  source :
      value_eq (get "verdict" fs) (str "sat") ≡ true
      → (truthy (get "separate_source" fs) ≡ false) × (truthy (get "separate_source" fs') ≡ false)

Unjudged-Agrees : (fs fs' : Fields) → Unjudged fs → Unjudged fs' → Agrees fs fs'
unfolding get truthy value_eq
Unjudged-Agrees fs fs' (v, t) (v', t') = record {
  tautology = ap (λ o. truthy (or_null o)) (t' ∙ sym t);
  passes = λ h. absurd (unjudged h);
  source = λ h. absurd (unjudged h);
}
  where
    unjudged : value_eq (or_null (find_key "verdict" fs)) (str "sat") ≡ true → ⊥
    unjudged h = subst (λ o. value_eq (or_null o) (str "sat") ≡ true → ⊥) (sym v) (λ k. cc) h

module _ (py : Builtins) (handler : Handler) (rule : Fields) (ctx : CheckCtx)
    (seen later : List Event) (fs fs' : Fields) (reach : ctx.reachable ≡ true)
    (before : handler.run seen rule ctx ≡ ok (dict fs))
    (after : handler.run (seen ++ later) rule ctx ≡ ok (dict fs')) where
  runs-Agrees : Known py handler → Agrees fs fs'
  unfolding truthy
  runs-Agrees (drives h) =
      let a =
        Returns-eq (Ran py seen rule ctx) (ap (λ f. f seen rule ctx) (sym h) ∙ before)
          (run-Ran py seen rule ctx) in
      let b =
        Returns-eq (Ran py (seen ++ later) rule ctx)
          (ap (λ f. f (seen ++ later) rule ctx) (sym h) ∙ after)
          (run-Ran py (seen ++ later) rule ctx) in
      record {
        tautology = same_tautology py rule ctx seen later fs fs' reach a b;
        passes = λ v. (
          prefix_passes py rule ctx seen later fs fs' reach a b v,
          whole_passes py rule ctx seen later fs fs' reach a b v,
        );
        source = λ v. (
          ap truthy (prefix_source py rule ctx seen later fs fs' reach a b),
          ap truthy (whole_source py rule ctx seen later fs fs' reach a b),
        );
      }
  runs-Agrees (mute h) =
      Unjudged-Agrees fs fs' (Returns-eq Silent before (h seen rule ctx))
        (Returns-eq Silent after (h (seen ++ later) rule ctx))

own-derived :
    (py : Builtins) (raw : Fields) (s : String) (source : GateSource)
    → truthy (get "separate_source" raw) ≡ false
    → grounding_of py raw s source ≡ derived_self
unfolding grounding_of
own-derived py raw s source h = elim (Bool-cases (str_eq s "external")) [
  | inl e ↦ rw (e, h) refl
  | inr e ↦ rw e refl
]

gating-of :
    (c c' : Check)
    → c'.optional ≡ c.optional
    → c'.pending ≡ c.pending
    → c'.tautological ≡ c.tautological
    → is_gating c' ≡ is_gating c
gating-of c c' o p t = rw (o, p, t) refl

final-verdict : (c : Check) → is_final c ≡ true → value_eq (get "verdict" c.raw) (str "sat") ≡ true
unfolding is_final
final-verdict c h = (&&_true (value_eq (get "verdict" c.raw) (str "sat")) _ h).0

-- Two checks of the same rule
Decorated-Kept :
    (py : Builtins) (rule fs fs' : Fields) (source : GateSource) (c c' : Check)
    → Decorated py fs rule source c
    → Decorated py fs' rule source c'
    → Agrees fs fs'
    → Kept c c'
Decorated-Kept py rule fs fs' source c c' d d' a = record {
  role =
      gating-of c c' (d'.optional ∙ sym d.optional) (d'.pending ∙ sym d.pending)
        (d'.tautological ∙ a.tautology ∙ sym d.tautological);
  weight = ok-injective (sym d'.weighs ∙ d.weighs);
  passes = λ h.
      let q = a.passes (verdict h) in
      (ok-injective (sym d.passes ∙ q.0), ok-injective (sym d'.passes ∙ q.1));
  grounding = λ h.
      let q = a.source (verdict h) in
      d'.grounds
      ∙ own-derived py fs' c'.strength source q.1
      ∙ sym (d.grounds ∙ own-derived py fs c.strength source q.0);
}
  where
    verdict : is_final c ≡ true → value_eq (get "verdict" fs) (str "sat") ≡ true
    verdict h =
        ap (λ (x : Fields). value_eq (get "verdict" x) (str "sat")) (sym d.kept) ∙ final-verdict c h

abbrev pub AllKept : List Check → List Check → Type 0
AllKept [] [] = Unit
AllKept (c ∷ cs) (c' ∷ cs') = Kept c c' × AllKept cs cs'
AllKept _ _ = ⊥

pub the_handler-eq : (o : Option Handler) (h : Handler) → the_handler o ≡ ok h → o ≡ some h
the_handler-eq none h e = cc
the_handler-eq (some g) h e = ap some (ok-injective e)

chosen-Known :
    (py : Builtins) (e : GateEvaluation) (rule : Fields) (h : Handler)
    → AllDrive py e
    → chosen e rule ≡ ok h
    → Known py h
unfolding chosen AllDrive
chosen-Known py e rule h drive q =
    let (key, a, b) =
      >>=-eq-ok (detect_check_key rule e.registry) (λ key. the_handler (handler_of e key)) q in
    drive key h (the_handler-eq (handler_of e key) h b)

-- The evaluation over more events
abbrev pub over : GateEvaluation → List Event → GateEvaluation
over e evs = record e { events = evs }

module _ (py : Builtins) (e : GateEvaluation) (evs : List Event) (indicators : Fields)
    (allow : List Fields) (seen later : List Event) (drive : AllDrive py e)
    (uncaptured : (i : ℕ) → e.captured_check_results i ≡ none)
    (reach : (e.source.reachable && e.source.complete) ≡ true) where
  evaluate_check-Kept :
      (i : ℕ) (rule : Fields) (c c' : Check)
      → evaluate_check py e indicators allow seen i rule ≡ ok c
      → evaluate_check py (over e evs) indicators allow (seen ++ later) i rule ≡ ok c'
      → Kept c c'
  unfolding chosen
  evaluate_check-Kept i rule c c' h h' =
      let a =
        Returns-eq (Evaluated py e indicators allow seen i rule) h
          (evaluate_check-Evaluated py e indicators allow seen i rule (uncaptured i)) in
      let b = Returns-eq (Evaluated py (over e evs) indicators allow (seen ++ later) i rule) h' (
        evaluate_check-Evaluated py (over e evs) indicators allow (seen ++ later) i rule
          (uncaptured i)) in
      let ctx = context e indicators allow (e.external_observations i) in
      Decorated-Kept py rule a.raw b.raw e.source c c' a.decorated b.decorated (
        runs-Agrees py a.handler rule ctx seen later a.raw b.raw reach a.runs
          (ap (λ (g : Handler). g.run (seen ++ later) rule ctx)
              (ok-injective (sym a.selects ∙ b.selects))
            ∙ b.runs)
          (chosen-Known py e rule a.handler drive a.selects))

  pub evaluate_from-Kept :
      (i : ℕ) (rules : List Fields) (cs cs' : List Check)
      → evaluate_from py e indicators allow seen i rules ≡ ok cs
      → evaluate_from py (over e evs) indicators allow (seen ++ later) i rules ≡ ok cs'
      → AllKept cs cs'
  unfolding evaluate_from
  evaluate_from-Kept i [] cs cs' h h' =
      subst (λ xs. AllKept xs cs') (ok-injective h)
        (subst (λ xs. AllKept [] xs) (ok-injective h') tt)
  evaluate_from-Kept i (rule ∷ rules) cs cs' h h' =
      let (c, a, k) =
        >>=-eq-ok (evaluate_check py e indicators allow seen i rule)
          (λ c. evaluate_from py e indicators allow seen (suc i) rules >>= λ ds. ok (c ∷ ds)) h in
      let (ds, b, l) =
        >>=-eq-ok (evaluate_from py e indicators allow seen (suc i) rules) (λ ds. ok (c ∷ ds)) k in
      let (c', a', k') =
        >>=-eq-ok (evaluate_check py (over e evs) indicators allow (seen ++ later) i rule)
          (λ c.
            evaluate_from py (over e evs) indicators allow (seen ++ later) (suc i) rules >>= λ ds.
            ok (c ∷ ds))
          h' in
      let (ds', b', l') =
        >>=-eq-ok (evaluate_from py (over e evs) indicators allow (seen ++ later) (suc i) rules)
          (λ ds. ok (c' ∷ ds)) k' in
      subst (λ xs. AllKept xs cs') (ok-injective l)
        (subst (λ xs. AllKept (c ∷ ds) xs) (ok-injective l')
          (evaluate_check-Kept i rule c c' a a', evaluate_from-Kept (suc i) rules ds ds' b b'))
