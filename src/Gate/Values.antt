-- ===== src/Gate/Values.antt =====
-- src/ooptdd/engine/gate_values.py: the values that cross the boundary of the gate kernel. They are
-- immutable here, so `freeze_value` and `thaw_value` have nothing to do.
use ooptdd.Base.{ℕ, Bool, Option, String, List, Result}
use ooptdd.Value.{Value, Fields, Event}
use ooptdd.Ontology.{Ontology}

pub record ExternalObservation : Type 0 where
  pub reachable : Bool
  pub value : Value
  pub complete : Bool
  pub separate_source : Bool
  pub derived_identity : Option String

pub record CheckCtx : Type 0 where
  pub reachable : Bool
  pub indicators : Fields
  pub ontology : Option Ontology
  pub allow_errors : List Fields
  pub external_observation : Option ExternalObservation
  pub cid : String

-- A check predicate. What it returns need not be a dictionary.
abbrev pub CheckFn : Type 0
CheckFn = List Event → Fields → CheckCtx → Result Value

-- Which function a predicate is: one that drives a monitor or `_check_aggregate`, `_check_external`,
-- or one of an extension. The program compares functions by identity.
pub data Origin : Type 0 where
  canonical external_probe extension : Origin

-- A predicate with the metadata `__ooptdd_strength__` and `__ooptdd_event_names__`
pub record Handler : Type 0 where
  pub key : String
  pub origin : Origin
  pub run : CheckFn
  pub strength : Option String
  pub event_names : Option (Fields → Result (List Value))

pub record GatePolicy : Type 0 where
  pub forbid_errors : Bool
  pub require_corroboration : Bool
  pub require_signature : Bool
  pub signing_key : Option String
  pub require_independent_store : Bool

pub record GateSource : Type 0 where
  pub cid : String
  pub reachable : Bool
  pub complete : Bool
  pub emit_backend : Option String
  pub emit_identity : Option String
  pub emit_independent : Option Bool
  pub emit_sampled : Bool

pub record GateEvaluation : Type 0 where
  pub spec : Fields
  pub events : List Event
  pub policy : GatePolicy
  pub source : GateSource
  -- The registry in its order, and the default check `__count__`
  pub registry : List Handler
  pub count_handler : Option Handler
  pub strength_by_key : List (String × String)
  pub external_observations : ℕ → Option ExternalObservation
  pub captured_check_results : ℕ → Option Fields
  pub ontology : Option Ontology
