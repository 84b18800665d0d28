-- ===== src/Ontology/Conformance.antt =====
-- `check_conformance` of src/ooptdd/domain/ontology.py: the batch validation of events.
use ooptdd.Base.{
  ℕ, suc, Bool, true, ◌||◌, Option, none, some, String, str_eq, List, [], ◌∷◌, ◌++◌, any, pos,
  if◌then◌else◌,
}
use ooptdd.Value.{Value, Event, str, get, value_eq, text?}
use ooptdd.Ontology.{Ontology, find_type, validate, Problem, unknown_event_type, name_not_text}
use ooptdd.Monitor.Conforms.{Violation}

pub record Conformance : Type 0 where
  pub checked : ℕ
  pub violations : List Violation
  pub unknown : List Value

-- `closed_world`, where the caller may override the ontology
abbrev pub closed? : Ontology → Option Bool → Bool
closed? o none = o.closed_world
closed? o (some b) = b

-- `scope_all or name == event_type`
abbrev pub in_scope : Option String → Value → Bool
in_scope none name = true
in_scope (some t) name = str_eq t "*" || value_eq name (str t)

abbrev add_violation : Conformance → Value → ℕ → List Problem → Conformance
add_violation c name i problems = record c {
  violations = c.violations ++ (record { event = name; index = pos i; problems = problems } ∷ []);
}

unfoldable pub with_problems : Conformance → Value → ℕ → List Problem → Conformance
with_problems c name i [] = c
with_problems c name i (p ∷ ps) = add_violation c name i (p ∷ ps)

-- A name that is a text: excluded, unknown, or of a declared type
unfoldable pub check_named :
    Ontology → Bool → List String → Conformance → ℕ → String → Event → Conformance
unfolding find_type with_problems
check_named o closed excluded c i name ev =
    if any (str_eq name) excluded then c else elim (find_type name o.types) [
      | none ↦
          if closed
          then add_violation (record c { unknown = c.unknown ++ (str name ∷ []) }) (str name) i
              (unknown_event_type ∷ [])
          else c
      | some et ↦ with_problems (record c { checked = suc c.checked }) (str name) i (validate et ev)
    ]

unfoldable pub check_name :
    Ontology → Bool → List String → Conformance → ℕ → Option String → Event → Conformance
unfolding get check_named
check_name o closed excluded c i none ev = add_violation c (get "event" ev) i (name_not_text ∷ [])
check_name o closed excluded c i (some name) ev = check_named o closed excluded c i name ev

-- The loop of `check_conformance`
unfoldable pub conformance_from :
    Ontology → Bool → Option String → List String → Conformance → ℕ → List Event → Conformance
unfolding get check_name
conformance_from o closed target excluded c i [] = c
conformance_from o closed target excluded c i (ev ∷ evs) =
    conformance_from o closed target excluded
      (if in_scope target (get "event" ev)
        then check_name o closed excluded c i (text? (get "event" ev)) ev
        else c)
      (suc i) evs

-- Before the loop
abbrev pub unchecked : Conformance
unchecked = record { checked = 0; violations = []; unknown = [] }

-- `check_conformance`
unfoldable pub check_conformance :
    Ontology → Option String → Option Bool → List String → List Event → Conformance
unfolding conformance_from
check_conformance o target closed excluded evs =
    conformance_from o (closed? o closed) target excluded unchecked 0 evs
