-- ===== src/Ontology.antt =====
-- src/ooptdd/domain/ontology.py: event types and the validation of one event. A violation is a
-- value that says which test failed, where the source writes a sentence.
pub mod Conformance
pub mod Compat
mod Evolution
mod Tests
use ooptdd.Base.{
  Bool, true, false, ◌||◌, Option, none, some, String, str_eq, List, [], ◌∷◌, ◌++◌, any, not,
  if◌then◌else◌,
}
use ooptdd.Value.{
  Number, int, float, lt, gt, apply_op, Value, Items, Fields, bool, num, str, end, field, Event,
  get, is_null, numeric?, item_in,
}

-- The names in `_VALUE_TYPES`
pub data ValueType : Type 0 where
  number integer floating text boolean : ValueType

-- One validated entry of `constraints`
pub record Constraint : Type 0 where
  pub enum : Option Items
  pub type_ : Option ValueType
  pub min : Option Number
  pub max : Option Number

pub record EventType : Type 0 where
  pub name : String
  pub required : List String
  pub constraints : List (String × Constraint)
  pub additional_properties : Bool

-- The sentences of `validate`, by the attribute that they name
pub data Problem : Type 0 where
  missing not_in_enum not_of_type below_min above_max unexpected : String → Problem
  unknown_event_type ontology_not_loaded name_not_text : Problem

-- `_type_ok`
unfoldable pub type_ok : Value → ValueType → Bool
type_ok (num n) ValueType.number = true
type_ok (num (int z)) ValueType.integer = true
type_ok (num (float f)) ValueType.floating = true
type_ok (str s) ValueType.text = true
type_ok (bool b) ValueType.boolean = true
type_ok _ _ = false

-- `if test: out.append(problem)`
abbrev pub report : Bool → Problem → List Problem
report test p = if test then p ∷ [] else []

abbrev not_among : Value → Option Items → Bool
not_among v none = false
not_among v (some xs) = not (item_in v xs)

abbrev not_typed : Value → Option ValueType → Bool
not_typed v none = false
not_typed v (some t) = not (type_ok v t)

-- `isinstance(val, _NUMBER) and val < bound`: here a `bool` is a number.
abbrev under : Option Number → Option Number → Bool
under (some v) (some b) = apply_op lt v b
under _ _ = false

abbrev over : Option Number → Option Number → Bool
over (some v) (some b) = apply_op gt v b
over _ _ = false

-- The four tests of one constraint
unfoldable pub check_constraint : String → Constraint → Value → List Problem
unfolding item_in type_ok
check_constraint attr rule v =
    report (not_among v rule.enum) (not_in_enum attr)
    ++ (report (not_typed v rule.type_) (not_of_type attr)
        ++ (report (under (numeric? v) rule.min) (below_min attr)
            ++ report (over (numeric? v) rule.max) (above_max attr)))

-- The first loop of `validate`
unfoldable pub check_required : List String → Event → List Problem
unfolding get
check_required [] ev = []
check_required (k ∷ ks) ev = report (is_null (get k ev)) (missing k) ++ check_required ks ev

-- The second loop: a constraint binds only where the attribute is there.
unfoldable pub check_constraints : List (String × Constraint) → Event → List Problem
unfolding get check_constraint
check_constraints [] ev = []
check_constraints ((attr, rule) ∷ cs) ev =
    let rest = check_constraints cs ev in
    if is_null (get attr ev) then rest else check_constraint attr rule (get attr ev) ++ rest

-- `ENVELOPE_KEYS`
abbrev pub envelope_keys : List String
envelope_keys =
    "cid" ∷ "correlation_id" ∷ "spec_version" ∷ "service" ∷ "level" ∷ "event" ∷ "_timestamp" ∷ "sig"
    ∷ "sig_alg" ∷ "sig_chain" ∷ "prev_sig" ∷ "trace_id" ∷ "span_id" ∷ "id" ∷ "source" ∷ "type"
    ∷ "specversion" ∷ "subject" ∷ "time" ∷ "datacontenttype" ∷ []

-- `_declared() | ENVELOPE_KEYS`
unfoldable pub allowed : EventType → String → Bool
allowed et k =
    any (str_eq k) et.required
    || any (λ c. str_eq k c.0) et.constraints
    || any (str_eq k) envelope_keys

-- The third loop of `validate`
unfoldable pub check_extra : EventType → Fields → List Problem
unfolding allowed
check_extra et end = []
check_extra et (field k v fs) = report (not (allowed et k)) (unexpected k) ++ check_extra et fs

-- `EventType.validate`
unfoldable pub validate : EventType → Event → List Problem
unfolding check_required check_constraints check_extra
validate et ev =
    check_required et.required ev
    ++ (check_constraints et.constraints ev
        ++ (if et.additional_properties then [] else check_extra et ev))

pub record Ontology : Type 0 where
  pub types : List EventType
  pub closed_world : Bool

-- `Ontology.get`: the source keeps the types by their names.
unfoldable pub find_type : String → List EventType → Option EventType
find_type n [] = none
find_type n (t ∷ ts) = if str_eq t.name n then some t else find_type n ts
