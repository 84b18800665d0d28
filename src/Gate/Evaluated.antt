-- ===== src/Gate/Evaluated.antt =====
-- What a check that `evaluate_checks` returns rests on.
use ooptdd.Base.{
  ◌≡◌, refl, ℕ, Option, none, some, String, List, Result, ok, ◌>>=◌, Returns, returned,
  Returns-bind, Returns-eq, Returns-intro, ok-injective, sym, ◌∙◌, ap,
}
use ooptdd.Value.{num, float, Value, Fields, Event, dict, get, truthy}
use ooptdd.Builtins.{Builtins}
use ooptdd.Monitor.Compile.{get_or}
use ooptdd.Gate.Values.{CheckCtx, Handler, GateSource, GateEvaluation}
use ooptdd.Gate.Rules.{detect_check_key, finite_gate_number, strength, zero_f, one_f}
use ooptdd.Gate.Charged.{check_charged}
use ooptdd.Gate.Label.{label}
use ooptdd.Gate.Scope.{Check}
use ooptdd.Gate.Decorate.{passed_of, labelled, grounding_of, decorate_check}
use ooptdd.Gate.Kernel.{handler_of, the_handler, raw_of, as_dict, context, evaluate_check}

-- The entries that `_decorate_check` sets, by what decides them
pub record Decorated (py : Builtins) (raw rule : Fields) (source : GateSource) (c : Check)
    : Type 0 where
  pub kept : c.raw ≡ raw
  pub passes : passed_of raw ≡ ok c.passed
  pub weighs :
      finite_gate_number py (get_or "weight" (num (float one_f)) rule) (some zero_f) none
      ≡ ok c.weight
  pub optional : c.optional ≡ truthy (get "optional" rule)
  pub pending : c.pending ≡ truthy (get "pending" rule)
  pub tautological : c.tautological ≡ truthy (get "tautological" raw)
  pub grounds : c.grounding ≡ grounding_of py raw c.strength source

decorate_check-Decorated :
    (py : Builtins) (raw rule : Fields) (key : Option String) (source : GateSource)
    (registry : List Handler) (table : List (String × String))
    → Returns (Decorated py raw rule source) (decorate_check py raw rule key source registry table)
unfolding decorate_check
decorate_check-Decorated py raw rule key source registry table =
    Returns-bind (Decorated py raw rule source) (passed_of raw) _ (λ p hp.
      Returns-bind (Decorated py raw rule source)
        (finite_gate_number py (get_or "weight" (num (float one_f)) rule) (some zero_f) none) _
        (λ w hw.
          Returns-bind (Decorated py raw rule source) (strength rule registry table) _ (λ s hs.
            Returns-bind (Decorated py raw rule source) (label py (labelled raw rule)) _ (λ l hl.
              Returns-bind (Decorated py raw rule source) (check_charged (labelled raw rule)) _
                (λ c hc. returned (record {
                  kept = refl;
                  passes = hp;
                  weighs = hw;
                  optional = refl;
                  pending = refl;
                  tautological = refl;
                  grounds = refl;
                }))))))

-- The handler that a rule selects
unfoldable pub chosen : GateEvaluation → Fields → Result Handler
chosen e rule = detect_check_key rule e.registry >>= λ key. the_handler (handler_of e key)

-- A check whose entries come from the dictionary that its handler returned
pub record Evaluated (py : Builtins) (e : GateEvaluation) (indicators : Fields)
    (allow : List Fields) (events : List Event) (index : ℕ) (rule : Fields) (c : Check)
    : Type 0 where
  pub raw : Fields
  pub handler : Handler
  pub selects : chosen e rule ≡ ok handler
  pub runs :
      handler.run events rule (context e indicators allow (e.external_observations index))
      ≡ ok (dict raw)
  pub decorated : Decorated py raw rule e.source c

as_dict-eq : (v : Value) (fs : Fields) → as_dict v ≡ ok fs → v ≡ dict fs
as_dict-eq (dict gs) fs h = ap dict (ok-injective h)
as_dict-eq _ fs h = cc

raw_of-eq :
    (e : GateEvaluation) (index : ℕ) (h : Handler) (events : List Event) (rule : Fields)
    (ctx : CheckCtx)
    → e.captured_check_results index ≡ none
    → raw_of e index h events rule ctx ≡ h.run events rule ctx
raw_of-eq e index h events rule ctx u = rw (raw_of, u)

pub evaluate_check-Evaluated :
    (py : Builtins) (e : GateEvaluation) (indicators : Fields) (allow : List Fields)
    (events : List Event) (index : ℕ) (rule : Fields)
    → e.captured_check_results index ≡ none
    → Returns
        (Evaluated py e indicators allow events index rule)
        (evaluate_check py e indicators allow events index rule)
unfolding evaluate_check chosen
evaluate_check-Evaluated py e indicators allow events index rule u =
    let P = Evaluated py e indicators allow events index rule in
    Returns-bind P (detect_check_key rule e.registry) _ (λ key hk.
      Returns-bind P (the_handler (handler_of e key)) _ (λ h hh.
        Returns-bind P
          (raw_of e index h events rule
            (context e indicators allow (e.external_observations index)))
          _
          (λ v hv. Returns-bind P (as_dict v) _ (λ raw hr. Returns-intro P _ (λ c hc. record {
            raw = raw;
            handler = h;
            selects = rw hk hh;
            runs = sym (raw_of-eq e index h events rule _ u) ∙ hv ∙ ap ok (as_dict-eq v raw hr);
            decorated =
                Returns-eq (Decorated py raw rule e.source) hc
                  (decorate_check-Decorated py raw rule key e.source e.registry e.strength_by_key);
          })))))
