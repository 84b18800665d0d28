-- ===== src/Gate/Handlers.antt =====
-- The check handlers of src/ooptdd/engine/gate.py that drive a monitor, and the built-in registry.
pub mod Aggregate
pub mod External
use ooptdd.Base.{
  ℕ, Bool, true, false, Option, none, some, String, str_eq, List, [], ◌∷◌, ◌++◌, map, if◌then◌else◌,
  Result, ok, ◌>>=◌,
}
use ooptdd.Value.{Value, Fields, Event, str, dict, get, value_eq}
use ooptdd.Builtins.{Builtins}
use ooptdd.Monitor.{Monitor, run_from}
use ooptdd.Monitor.Compile.{compile_check}
use ooptdd.Monitor.Entries.{entries}
use ooptdd.Gate.Values.{CheckCtx, CheckFn, Handler, Origin}
use Aggregate.{check_aggregate}
use External.{check_external}

-- The allowlist is for the rule that `forbid_errors` injects.
unfoldable pub allow_of : Fields → CheckCtx → List Fields
unfolding get value_eq
allow_of rule ctx =
    if value_eq (get "_auto" rule) (str "forbid_errors") then ctx.allow_errors else []

-- `_run`
unfoldable pub run : Builtins → CheckFn
unfolding compile_check run_from entries allow_of
run py events rule ctx = do
  m ← compile_check py rule ctx.indicators ctx.ontology (allow_of rule ctx)
  m' ← run_from py m 0 events
  fs ← entries py m' ctx.reachable
  ok (dict fs)

-- `_check_absent`, `_check_heartbeat` and so on, by their keys, and `_eval_count`
abbrev pub monitor_check : Builtins → String → Handler
monitor_check py key = record {
  key = key;
  origin = Origin.canonical;
  run = run py;
  strength = none;
  event_names = none;
}

abbrev pub monitor_keys : List String
monitor_keys =
    "absent" ∷ "heartbeat" ∷ "must_order" ∷ "present" ∷ "ratioMetric" ∷ "conforms" ∷ "invariant"
    ∷ "metamorphic" ∷ "duration" ∷ []

abbrev pub monitor_checks : Builtins → List Handler
monitor_checks py = map (monitor_check py) monitor_keys

-- `_CORE_CHECK_REGISTRY`
abbrev pub core_registry : Builtins → List Handler
core_registry py =
    monitor_checks py
    ++ (record {
      key = "aggregate";
      origin = Origin.canonical;
      run = check_aggregate py;
      strength = some "threshold";
      event_names = none;
    }
        ∷ record {
          key = "external";
          origin = Origin.external_probe;
          run = check_external py;
          strength = none;
          event_names = none;
        }
        ∷ [])
