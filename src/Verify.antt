-- ===== src/Verify.antt =====
-- `verify_gate` of src/ooptdd/engine/verify.py: the arrival loop with the gate as its evaluator.
pub mod Arrived
mod Tests
use ooptdd.Base.{
  ℕ, Bool, true, false, ◌&&◌, ◌||◌, not, Option, none, some, String, List, map, keep, if◌then◌else◌,
  Result, ok, ◌>>=◌, [],
}
use ooptdd.Value.{Value, str, Event, get, truthy, Fields}
use ooptdd.Builtins.{Builtins}
use ooptdd.Chain.{Crypto}
use ooptdd.Poll.{PollingSettings, Store, Evaluator, Arrival, poll_until_present}
use ooptdd.Gate.Rules.{or_else}
use ooptdd.Gate.Label.{text_of}
use ooptdd.Gate.Scope.{Check}
use ooptdd.Gate.Kernel.{GateResult}
use ooptdd.Gate.Settle.{settled_green}
use ooptdd.Gate.Shell.{Request, evaluate_events}

pub data Verdict : Type 0 where
  present absent inconclusive : Verdict

pub data Settlement : Type 0 where
  irrevocable_prefix bounded_final : Settlement

-- The dictionary that `evaluate_prefix` returns
pub record Body : Type 0 where
  pub ok? : Bool
  pub verdict : Verdict
  pub settlement : Settlement
  pub gate : GateResult
  pub reasons : List String

abbrev pub verdict_otherwise : GateResult → Verdict
verdict_otherwise r =
    if not r.reachable || not r.complete || not r.probe_reachable then inconclusive else absent

-- The verdict of a final poll
unfoldable pub verdict_of : GateResult → Verdict
verdict_of r = if r.ok? then present else verdict_otherwise r

-- `c.get("event") or c.get("must_order") or …`
unfoldable pub reason : Builtins → Check → String
unfolding get truthy
reason py c = text_of py (
    or_else (get "event" c.raw) (
      or_else (get "must_order" c.raw) (
        or_else (get "present" c.raw)
          (or_else (get "absent" c.raw) (or_else (get "conforms" c.raw) (str "check"))))))

abbrev pub early_body : GateResult → Body
early_body r = record {
  ok? = true;
  verdict = present;
  settlement = irrevocable_prefix;
  gate = r;
  reasons = [];
}

abbrev pub final_body : Builtins → GateResult → Body
final_body py r = record {
  ok? = r.ok?;
  verdict = verdict_of r;
  settlement = bounded_final;
  gate = r;
  reasons = map (reason py) (keep (λ (c : Check). not c.passed) r.checks);
}

-- What `evaluate_prefix` makes of the result
unfoldable pub body_of : Builtins → Bool → Bool → GateResult → Option Body
unfolding settled_green verdict_of reason
body_of py settle_early final r =
    if final
    then some (final_body py r)
    else if settle_early && settled_green r
    then some (early_body r)
    else none

-- `evaluate_prefix`
unfoldable pub evaluate_prefix :
    Builtins
    → Crypto
    → Request
    → Bool
    → List Event
    → Bool
    → Bool
    → Bool
    → ℕ
    → Bool
    → Result (Option Body)
unfolding evaluate_events body_of
evaluate_prefix py crypto q settle_early events reachable complete queried_ok attempt final =
    evaluate_events py crypto q events reachable complete >>= λ r.
    ok (body_of py settle_early final r)

abbrev pub gate_evaluator : Builtins → Crypto → Request → Bool → Evaluator Body
gate_evaluator py crypto q settle_early = record {
  evaluate = evaluate_prefix py crypto q settle_early;
  is_green = λ b. b.ok?;
}

-- `verify_gate`, from the time at which it starts
unfoldable pub verify_gate :
    Builtins → Crypto → Request → Bool → Store → PollingSettings → ℕ → Result (Arrival Body)
unfolding evaluate_prefix poll_until_present
verify_gate py crypto q settle_early w p started =
    poll_until_present w p (gate_evaluator py crypto q settle_early) started
