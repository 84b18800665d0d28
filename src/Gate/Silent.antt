-- ===== src/Gate/Silent.antt =====
-- The handlers of src/ooptdd/engine/gate.py that drive no monitor have no three-valued verdict.
use ooptdd.Base.{
  ◌≡◌, refl, Bool, true, false, ◌||◌, not, Option, none, some, String, List, [], ◌∷◌, find,
  if◌then◌else◌, Returns, returned, Returns-bind, Returns-if, Bool-cases, inl, inr, str_eq,
  raise_if, Error, Returns-eq, subst, sym, ◌∙◌,
}
use ooptdd.Value.{Float, Number, Op, Value, Fields, Event, str, dict, find_key, get, has_key}
use ooptdd.Builtins.{Builtins}
use ooptdd.Match.{ops}
use ooptdd.Monitor.Compile.{get_or, op_text}
use ooptdd.Gate.Values.{CheckCtx, Handler, ExternalObservation, GateEvaluation}
use ooptdd.Gate.Kernel.{handler_of}
use ooptdd.Gate.Rules.{finite_gate_number}
use ooptdd.Gate.Handlers.{run, monitor_check, core_registry}
use ooptdd.Gate.Handlers.Aggregate.{
  or_raise, check_aggregate, finish, Rollup, rollup_of, samples, is_sum,
}
use ooptdd.Gate.Handlers.Aggregate
use ooptdd.Gate.Handlers.External
use ooptdd.Gate.Handlers.External.{check_external, observed, external_holds}

-- No entry `verdict`, and no entry `tautological`
abbrev pub Unjudged : Fields → Type 0
Unjudged fs = (find_key "verdict" fs ≡ none) × (find_key "tautological" fs ≡ none)

abbrev pub Silent : Value → Type 0
Silent (dict fs) = Unjudged fs
Silent _ = Unit

finish-Unjudged :
    (py : Builtins) (fn : Rollup) (op : Op) (t : Float) (xs : List Number)
    → Unjudged (finish py fn op t xs)
unfolding finish find_key
finish-Unjudged py fn op t [] = elim (Bool-cases (is_sum fn)) [
  | inl e ↦ rw e (refl, refl)
  | inr e ↦ rw e (refl, refl)
]
finish-Unjudged py fn op t (x ∷ xs) = (refl, refl)

check_aggregate-Silent :
    (py : Builtins) (events : List Event) (rule : Fields) (ctx : CheckCtx)
    → Returns Silent (check_aggregate py events rule ctx)
unfolding check_aggregate find_key
check_aggregate-Silent py events rule ctx =
    Returns-bind Silent (Aggregate.spec_of (get "aggregate" rule)) _ (λ spec a.
      Returns-bind Silent (or_raise (rollup_of (get_or "fn" (str "sum") spec))) _ (λ fn b.
        Returns-bind Silent
          (raise_if (not (has_key "attr" spec) || not (has_key "target" spec)) Error.value_error) _
          (λ u c.
            Returns-bind Silent (or_raise (ops (op_text (get_or "op" (str "<=") spec)))) _ (λ op d.
              Returns-bind Silent (finite_gate_number py (get "target" spec) none none) _ (λ t g.
                returned (
                  finish-Unjudged py fn op t
                    (samples py (get "event" spec) (get "attr" spec) events)))))))

observed-Unjudged :
    (py : Builtins) (spec : Fields) (op : String) (o : Option ExternalObservation)
    → Returns Unjudged (observed py spec op o)
unfolding observed find_key
observed-Unjudged py spec op none = returned (refl, refl)
observed-Unjudged py spec op (some o) =
    Returns-if Unjudged (not o.reachable || not o.complete) _ _ (returned (refl, refl))
      (Returns-bind Unjudged (external_holds py spec op o.value) _ (λ p h. returned (refl, refl)))

check_external-Silent :
    (py : Builtins) (events : List Event) (rule : Fields) (ctx : CheckCtx)
    → Returns Silent (check_external py events rule ctx)
unfolding check_external find_key
check_external-Silent py events rule ctx =
    Returns-bind Silent (External.spec_of (get "external" rule)) _ (λ spec a.
      Returns-bind Silent
        (observed py spec (op_text (get_or "op" (str "==") spec)) ctx.external_observation) _
        (λ rest b. returned (
          Returns-eq Unjudged b (
            observed-Unjudged py spec (op_text (get_or "op" (str "==") spec))
              ctx.external_observation))))

-- A handler drives a monitor, or claims no verdict.
pub data Known (py : Builtins) (h : Handler) : Type 0 where
  drives : h.run ≡ run py → Known py h
  mute :
      ((events : List Event) (rule : Fields) (ctx : CheckCtx)
        → Returns Silent (h.run events rule ctx))
      → Known py h

abbrev pub Each : (Handler → Type 0) → List Handler → Type 0
Each P [] = Unit
Each P (h ∷ hs) = P h × Each P hs

pub some-injective {ℓ} : {A : Type ℓ} {a b : A} → some a ≡ some b → a ≡ b
some-injective e = cc

pub find-Each :
    (P : Handler → Type 0) (p : Handler → Bool) (hs : List Handler) (h : Handler)
    → Each P hs
    → find p hs ≡ some h
    → P h
find-Each P p [] h k e = cc
find-Each P p (g ∷ hs) h (k, ks) e = picked (p g) (find-Each P p hs h ks) e
  where
    picked :
        (b : Bool) → (find p hs ≡ some h → P h) → (if b then some g else find p hs) ≡ some h → P h
    picked true rest e = subst P (some-injective e) k
    picked false rest e = rest e

monitor_check-Known : (py : Builtins) (k : String) → Known py (monitor_check py k)
monitor_check-Known py k = drives refl

core_registry-Each : (py : Builtins) → Each (Known py) (core_registry py)
core_registry-Each py = (
  drives refl,
  (
    drives refl,
    (
      drives refl,
      (
        drives refl,
        (
          drives refl,
          (
            drives refl,
            (
              drives refl,
              (
                drives refl,
                (
                  drives refl,
                  (mute (check_aggregate-Silent py), (mute (check_external-Silent py), tt)),
                ),
              ),
            ),
          ),
        ),
      ),
    ),
  ),
)

-- The handlers that a check can reach
unfoldable pub AllDrive : Builtins → GateEvaluation → Type 0
AllDrive py e = (key : Option String) (h : Handler) → handler_of e key ≡ some h → Known py h

pub core_registry-AllDrive :
    (py : Builtins) (e : GateEvaluation)
    → e.registry ≡ core_registry py
    → e.count_handler ≡ some (monitor_check py "__count__")
    → AllDrive py e
unfolding AllDrive
core_registry-AllDrive py e r c none h k =
    subst (Known py) (some-injective (sym c ∙ k)) (monitor_check-Known py "__count__")
core_registry-AllDrive py e r c (some key) h k =
    find-Each (Known py) (λ (g : Handler). str_eq g.key key) e.registry h
      (subst (Each (Known py)) (sym r) (core_registry-Each py)) k
