-- ===== src/Gate/Reread.antt =====
-- `evaluate_events` on a later read of the store.
use ooptdd.Base.{
  ◌≡◌, refl, sym, ap, ◌∙◌, ℕ, suc, Bool, true, false, Option, none, some, String, str_eq, List, [],
  ◌∷◌, ◌++◌, ok, Returns, returned, Returns-bind, Returns-eq, Returns-intro, ok-injective, subst,
}
use ooptdd.Value.{Fields, Event}
use ooptdd.Builtins.{Builtins}
use ooptdd.Chain.{Crypto}
use ooptdd.Poll.Sorting.{sorted}
use ooptdd.Gate.Values.{Handler, GateEvaluation}
use ooptdd.Gate.Rules.{detect_check_key, expand_rules}
use ooptdd.Gate.Kernel.{handler_of, the_handler, judge_events, GateResult}
use ooptdd.Gate.Handlers.{core_registry, monitor_check}
use ooptdd.Gate.Settle.{settled_green}
use ooptdd.Gate.Silent.{Each, find-Each, some-injective}
use ooptdd.Gate.Agreement.{over, the_handler-eq}
use ooptdd.Gate.Irrevocable.{settled_green_irrevocable}
use ooptdd.Gate.Shell.{
  Request, resolve_cid, resolve_gate_policy, capture_external_observations, is_extension, at_index,
  capture_custom_from, capture_custom_check_results, given, or_default, close_input,
  evaluate_events,
}

-- Without a registry of the caller, no handler is one of an extension.
abbrev IsCore : Builtins → GateEvaluation → Type 0
IsCore py e =
    (e.registry ≡ core_registry py) × (e.count_handler ≡ some (monitor_check py "__count__"))

core-not_extension :
    (py : Builtins) (e : GateEvaluation)
    → IsCore py e
    → (key : Option String) (h : Handler) → handler_of e key ≡ some h
    → is_extension h ≡ false
core-not_extension py e (r, c) none h k =
    subst (λ g. is_extension g ≡ false) (some-injective (sym c ∙ k)) refl
core-not_extension py e (r, c) (some key) h k =
    find-Each (λ g. is_extension g ≡ false) (λ (g : Handler). str_eq g.key key) e.registry h
      (subst (Each (λ g. is_extension g ≡ false)) (sym r)
        (refl, (refl, (refl, (refl, (refl, (refl, (refl, (refl, (refl, (refl, (refl, tt))))))))))))
      k

capture_custom_from-core :
    (py : Builtins) (e : GateEvaluation) (events : List Event) (index : ℕ) (rules : List Fields)
    → IsCore py e
    → Returns (λ ps. ps ≡ []) (capture_custom_from e events index rules)
unfolding capture_custom_from
capture_custom_from-core py e events index [] core = returned refl
capture_custom_from-core py e events index (rule ∷ rules) core =
    Returns-bind (λ ps. ps ≡ []) (detect_check_key rule e.registry) _
      (λ key hk.
        Returns-bind (λ ps. ps ≡ []) (the_handler (handler_of e key)) _
          (λ h hh.
            rw (core-not_extension py e core key h (the_handler-eq (handler_of e key) h hh)) (
              Returns-bind (λ ps. ps ≡ []) (capture_custom_from e events (suc index) rules) _
                (λ rest hr. returned (
                  Returns-eq (λ ps. ps ≡ []) hr
                    (capture_custom_from-core py e events (suc index) rules core))))))

capture_custom-core :
    (py : Builtins) (e : GateEvaluation)
    → IsCore py e
    → Returns (λ ps. ps ≡ []) (capture_custom_check_results py e)
unfolding capture_custom_check_results
capture_custom-core py e core =
    Returns-bind (λ ps. ps ≡ []) (sorted e.events) _
      (λ events a.
        Returns-bind (λ ps. ps ≡ []) (expand_rules py e.spec e.policy) _
          (λ rules b. capture_custom_from-core py e events 0 rules core))

-- What closing the input over the one read tells of closing it over another
record Closed (py : Builtins) (q : Request) (events evs : List Event) (b c : Bool)
    (e : GateEvaluation) : Type 0 where
  reads : e.events ≡ events
  again : close_input py q evs b c ≡ ok (over e evs)
  registry : e.registry ≡ or_default (core_registry py) q.registry
  count : e.count_handler ≡ some (or_default (monitor_check py "__count__") q.count_handler)
  uncaptured : e.captured_check_results ≡ (λ _. none)

close_input-Closed :
    (py : Builtins) (q : Request) (events evs : List Event) (b c : Bool)
    → Returns (Closed py q events evs b c) (close_input py q events b c)
unfolding close_input
close_input-Closed py q events evs b c =
    Returns-bind (Closed py q events evs b c)
      (given q.cid (resolve_cid py q.spec q.environ q.env_keys)) _
      (λ cid h.
        Returns-bind (Closed py q events evs b c)
          (given q.policy (resolve_gate_policy py q.spec q.environ q.env_keys)) _
          (λ policy k.
            Returns-bind (Closed py q events evs b c)
              (capture_external_observations py q.spec policy q.probe cid
                (or_default (core_registry py) q.registry)
                (some (or_default (monitor_check py "__count__") q.count_handler)))
              _
              (λ os l. returned (record {
                reads = refl;
                again = rw (h, k, l) refl;
                registry = refl;
                count = refl;
                uncaptured = refl;
              }))))

is_core :
    (py : Builtins) (q : Request) {events evs : List Event} {b c : Bool} (e : GateEvaluation)
    → Closed py q events evs b c e
    → q.registry ≡ none
    → q.count_handler ≡ none
    → IsCore py e
is_core py q e d r n = (
  d.registry ∙ ap (or_default (core_registry py)) r,
  d.count ∙ ap (λ o. some (or_default (monitor_check py "__count__") o)) n,
)

without_captures :
    (py : Builtins) (e : GateEvaluation) (captured : List (ℕ × Fields))
    → e.captured_check_results ≡ (λ _. none)
    → captured ≡ []
    → record e { captured_check_results = at_index captured } ≡ e
without_captures py e captured u h =
    ap (λ f. record e { captured_check_results = f }) (ap at_index h ∙ sym u)

-- The result of `evaluate_events` is that of the kernel on the closed input.
record Shelled (py : Builtins) (crypto : Crypto) (q : Request) (events evs : List Event)
    (b c : Bool) (r : GateResult) : Type 0 where
  closed : GateEvaluation
  closes : close_input py q events b c ≡ ok closed
  about : Closed py q events evs b c closed
  judges : judge_events py crypto closed ≡ ok r

evaluate_events-Shelled :
    (py : Builtins) (crypto : Crypto) (q : Request) (events evs : List Event) (b c : Bool)
    → q.registry ≡ none
    → q.count_handler ≡ none
    → Returns (Shelled py crypto q events evs b c) (evaluate_events py crypto q events b c)
unfolding evaluate_events
evaluate_events-Shelled py crypto q events evs b c r n =
    Returns-bind (Shelled py crypto q events evs b c) (close_input py q events b c) _ (λ e h.
      let d = Returns-eq (Closed py q events evs b c) h (close_input-Closed py q events evs b c) in
      Returns-bind (Shelled py crypto q events evs b c) (capture_custom_check_results py e) _
        (λ captured k.
          let none_captured =
            Returns-eq (λ ps. ps ≡ []) k (capture_custom-core py e (is_core py q e d r n)) in
          Returns-intro (Shelled py crypto q events evs b c) _ (λ res j. record {
            closed = e;
            closes = h;
            about = d;
            judges =
                ap (judge_events py crypto)
                  (sym (without_captures py e captured d.uncaptured none_captured))
                ∙ j;
          })))

-- A settled green of a poll holds for every later poll. Suppose that a call of `evaluate_events` with
-- the built-in checks returns a result that `_settled_green` accepts, and that a later call, with
-- the same arguments but the events, returns too, where the later stream in the order of its
-- timestamps is the earlier one with events after it. Then the later result is `ok`.
pub evaluate_events-irrevocable :
    (py : Builtins) (crypto : Crypto) (q : Request) (events evs seen later : List Event)
    (b c : Bool) (r r' : GateResult)
    → q.registry ≡ none
    → q.count_handler ≡ none
    → sorted events ≡ ok seen
    → sorted evs ≡ ok (seen ++ later)
    → evaluate_events py crypto q events b c ≡ ok r
    → evaluate_events py crypto q evs b c ≡ ok r'
    → settled_green r ≡ true
    → r'.ok? ≡ true
evaluate_events-irrevocable py crypto q events evs seen later b c r r' core default s s' h h' g =
    let x =
      Returns-eq (Shelled py crypto q events evs b c) h
        (evaluate_events-Shelled py crypto q events evs b c core default) in
    let y =
      Returns-eq (Shelled py crypto q evs evs b c) h'
        (evaluate_events-Shelled py crypto q evs evs b c core default) in
    let (registry, count) = is_core py q x.closed x.about core default in
    settled_green_irrevocable py crypto x.closed evs seen later r r' registry count
      (λ i. ap (λ f. f i) x.about.uncaptured) (ap sorted x.about.reads ∙ s) s' x.judges
      (ap (judge_events py crypto) (ok-injective (sym x.about.again ∙ y.closes)) ∙ y.judges) g
