-- ===== src/Gate/Tests.antt =====
-- The theorems on the gate at a concrete spec and stream.
use ooptdd.Base.{◌≡◌, refl, true, false, ◌&&◌, none, some, List, [], ◌∷◌, ◌++◌, Returns, all}
use ooptdd.Value.{Event}
use ooptdd.Gate.Values.{GateEvaluation}
use ooptdd.Gate.Kernel.{GateResult, judge_events}
use ooptdd.Gate.Handlers.{run, core_registry, monitor_check}
use ooptdd.Gate.Shell.{evaluate_events, strengths}
use ooptdd.Gate.Verdict.{Green, judge_events-Green}
use ooptdd.Gate.Reread.{evaluate_events-irrevocable}
use ooptdd.Gate.Tier.{combine_results}
use ooptdd.Gate.Rungs.{combine_results-ok}
use ooptdd.Gate.Bounds.{Bounded, judge_events-Bounded}
use ooptdd.Gate.Settle.{settled_green}
use ooptdd.Monitor.Stream.{timestamp, sequence}
use ooptdd.Match.{resolve_matcher}
use ooptdd.Match.Label.{matcher_label}
use ooptdd.Monitor.{step}
use ooptdd.Monitor.Count
use ooptdd.Monitor.Absent
use ooptdd.Gate.Samples.{is_ok, value_of, py, crypto, policy, gate_spec, request, seen, later}

abbrev gate : List Event → GateEvaluation
gate events = record {
  spec = gate_spec;
  events = events;
  policy = policy;
  source = record {
    cid = "run";
    reachable = true;
    complete = true;
    emit_backend = none;
    emit_identity = none;
    emit_independent = none;
    emit_sampled = false;
  };
  registry = core_registry py;
  count_handler = some (monitor_check py "__count__");
  strength_by_key = strengths [] (core_registry py);
  external_observations = λ i. none;
  captured_check_results = λ i. none;
  ontology = none;
}

-- The result over the first events
green_ok : is_ok (judge_events py crypto (gate seen)) ≡ true
unfolding judge_events timestamp sequence run resolve_matcher step Count.step Count.new
    Count.collapse Absent.new matcher_label Absent.step Absent.matches_any Absent.collapse
green_ok = refl

unfoldable green : GateResult
green = value_of (judge_events py crypto (gate seen)) green_ok

judge_events-Green_example : Green py crypto (gate seen) green
unfolding green judge_events timestamp sequence run resolve_matcher step Count.step Count.new
    Count.collapse Absent.new matcher_label Absent.step Absent.matches_any Absent.collapse
judge_events-Green_example = judge_events-Green py crypto (gate seen) green refl refl

judge_events-Bounded_example :
    Returns (λ (r : GateResult). Bounded r.checks r.scope) (judge_events py crypto (gate seen))
judge_events-Bounded_example = judge_events-Bounded py crypto (gate seen)

combine_results-ok_example :
    (combine_results (green ∷ green ∷ [])).ok?
    ≡ all (λ (r : GateResult). r.reachable && (r.complete && r.ok?)) (green ∷ green ∷ [])
combine_results-ok_example = combine_results-ok (green ∷ green ∷ [])

-- Two polls of the store
first_ok : is_ok (evaluate_events py crypto request seen true true) ≡ true
unfolding evaluate_events timestamp sequence run resolve_matcher step Count.step Count.new
    Count.collapse Absent.new matcher_label Absent.step Absent.matches_any Absent.collapse
first_ok = refl

unfoldable first : GateResult
first = value_of (evaluate_events py crypto request seen true true) first_ok

second_ok : is_ok (evaluate_events py crypto request (seen ++ later) true true) ≡ true
unfolding evaluate_events timestamp sequence run resolve_matcher step Count.step Count.new
    Count.collapse Absent.new matcher_label Absent.step Absent.matches_any Absent.collapse
second_ok = refl

unfoldable second : GateResult
second = value_of (evaluate_events py crypto request (seen ++ later) true true) second_ok

evaluate_events-irrevocable_example : second.ok? ≡ true
unfolding first second evaluate_events settled_green timestamp sequence run resolve_matcher step
    Count.step Count.new Count.collapse Absent.new matcher_label Absent.step Absent.matches_any
    Absent.collapse
evaluate_events-irrevocable_example =
    evaluate_events-irrevocable py crypto request seen (seen ++ later) seen later true true first
      second refl refl refl refl refl refl refl
