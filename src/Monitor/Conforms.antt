-- ===== src/Monitor/Conforms.antt =====
-- `ConformsMonitor` of src/ooptdd/engine/monitor.py.
use ooptdd.Base.{
  ℕ, suc, Bool, true, false, ◌&&◌, ◌||◌, Option, none, some, ℤ, List, [], ◌∷◌, ◌++◌, not,
  if◌then◌else◌,
}
use ooptdd.Value.{Value, Event, str, get, is_null, value_eq, text?}
use ooptdd.Ontology.{Ontology, EventType, find_type, validate, Problem, unknown_event_type}
use ooptdd.Monitor.Verdicts.{Latch, viol, fresh, latch}

-- One entry of `violations`
pub record Violation : Type 0 where
  pub event : Value
  pub index : ℤ
  pub problems : List Problem

pub record ConformsMonitor : Type 0 where
  pub latched : Latch
  pub target : Value
  pub ontology : Option Ontology
  pub closed : Bool
  pub checked : ℕ
  pub violations : List Violation
  pub unknown : List Value

-- The field `_cw`
abbrev closed_world : Option Ontology → Option Bool → Bool
closed_world (some o) none = o.closed_world
closed_world _ (some b) = b
closed_world none none = false

-- `ConformsMonitor.__init__`
unfoldable pub new : Value → Option Ontology → Option Bool → ConformsMonitor
new target ontology cw = record {
  latched = fresh;
  target = target;
  ontology = ontology;
  closed = closed_world ontology cw;
  checked = 0;
  violations = [];
  unknown = [];
}

-- The field `_scope_all`
unfoldable pub scope_all : Value → Bool
scope_all target = is_null target || value_eq target (str "*")

-- `self.ontology.get(name)`: the names of types are texts.
unfoldable pub type_of : Ontology → Value → Option EventType
unfolding find_type
type_of o name = elim (text? name) [ none ↦ none | some n ↦ find_type n o.types ]

unfoldable pub violate : ConformsMonitor → Value → ℤ → List Problem → ConformsMonitor
violate m name idx problems = record m {
  violations = m.violations ++ (record { event = name; index = idx; problems = problems } ∷ []);
  latched = latch viol idx m.latched;
}

-- An event whose type the ontology does not declare
unfoldable pub undeclared : ConformsMonitor → Value → ℤ → ConformsMonitor
unfolding violate
undeclared m name idx =
    if m.closed
    then violate (record m { unknown = m.unknown ++ (name ∷ []) }) name idx
        (unknown_event_type ∷ [])
    else m

-- An event of a declared type, after `validate`
unfoldable pub declared : ConformsMonitor → Value → ℤ → List Problem → ConformsMonitor
unfolding violate
declared m name idx [] = record m { checked = suc m.checked }
declared m name idx (p ∷ ps) = violate (record m { checked = suc m.checked }) name idx (p ∷ ps)

unfoldable pub judge : ConformsMonitor → Option EventType → Event → ℤ → ConformsMonitor
unfolding get declared undeclared
judge m none ev idx = undeclared m (get "event" ev) idx
judge m (some et) ev idx = declared m (get "event" ev) idx (validate et ev)

abbrev pub out_of_scope : ConformsMonitor → Event → Bool
out_of_scope m ev = not (scope_all m.target) && not (value_eq (get "event" ev) m.target)

unfoldable pub step_with : ConformsMonitor → Option Ontology → Event → ℤ → ConformsMonitor
unfolding judge scope_all get
step_with m none ev idx = m
step_with m (some o) ev idx =
    if out_of_scope m ev then m else judge m (type_of o (get "event" ev)) ev idx

-- `ConformsMonitor.step`
unfoldable pub step : ConformsMonitor → Event → ℤ → ConformsMonitor
unfolding step_with
step m ev idx = step_with m m.ontology ev idx

abbrev pub no_violations : List Violation → Bool
no_violations [] = true
no_violations (_ ∷ _) = false

abbrev pub loaded : Option Ontology → Bool
loaded none = false
loaded (some _) = true

-- The entry `passed` of `ConformsMonitor.collapse`
unfoldable pub passed : ConformsMonitor → Bool → Bool
passed m reachable = loaded m.ontology && reachable && no_violations m.violations
