-- ===== src/Ontology/Compat.antt =====
-- `ontology_compat` of src/ooptdd/domain/ontology.py: may one vocabulary take the place of another?
-- The source walks over sets, whose order it does not fix; here they are lists.
use ooptdd.Base.{
  Bool, true, false, ◌&&◌, ◌||◌, not, Option, none, some, String, str_eq, List, [], ◌∷◌, ◌++◌, any,
  keep, map, if◌then◌else◌,
}
use ooptdd.Value.{Items, nil, cons, item_in}
use ooptdd.Ontology.{Ontology, EventType, Constraint, find_type}

-- `mode`
pub data Mode : Type 0 where
  backward forward full : Mode

-- The sentences of `violations`, by what they name
pub data Break : Type 0 where
  type_added type_removed : String → Break
  required_added required_removed : String → String → Break
  enum_shrank enum_grew : String → String → Break

abbrev pub looks_back : Mode → Bool
looks_back forward = false
looks_back _ = true

abbrev pub looks_forward : Mode → Bool
looks_forward backward = false
looks_forward _ = true

abbrev pub among : String → List String → Bool
among s ss = any (str_eq s) ss

-- `a - b` for two sets of names
abbrev pub without : List String → List String → List String
without xs ys = keep (λ x. not (among x ys)) xs

abbrev pub on_break : Bool → List Break → List Break
on_break b bs = if b then bs else []

-- `_enum`
abbrev pub enum_of : String → List (String × Constraint) → Option Items
enum_of attr [] = none
enum_of attr ((k, c) ∷ cs) = if str_eq k attr then c.enum else enum_of attr cs

-- `oe - ne` is not empty.
unfoldable pub loses : Items → Items → Bool
unfolding item_in
loses nil ys = false
loses (cons x xs) ys = not (item_in x ys) || loses xs ys

abbrev enum_breaks : Bool → Bool → String → String → Option Items → Option Items → List Break
enum_breaks back fwd name attr (some oe) (some ne) =
    on_break (back && loses oe ne) (enum_shrank name attr ∷ [])
    ++ on_break (fwd && loses ne oe) (enum_grew name attr ∷ [])
enum_breaks back fwd name attr _ _ = []

abbrev attrs : EventType → List String
attrs et = map (λ c. c.0) et.constraints

unfoldable pub constraint_breaks : Bool → Bool → EventType → EventType → List String → List Break
unfolding loses
constraint_breaks back fwd o n [] = []
constraint_breaks back fwd o n (a ∷ rest) =
    enum_breaks back fwd o.name a (enum_of a o.constraints) (enum_of a n.constraints)
    ++ constraint_breaks back fwd o n rest

-- A type that both have
unfoldable pub shared_breaks : Bool → Bool → EventType → EventType → List Break
unfolding constraint_breaks
shared_breaks back fwd o n =
    on_break back (map (required_added o.name) (without n.required o.required))
    ++ (on_break fwd (map (required_removed o.name) (without o.required n.required))
        ++ constraint_breaks back fwd o n (attrs o ++ without (attrs n) (attrs o)))

abbrev pub old_breaks : Bool → Bool → Bool → EventType → Option EventType → List Break
old_breaks back fwd closed o none = on_break (back && closed) (type_removed o.name ∷ [])
old_breaks back fwd closed o (some n) = shared_breaks back fwd o n

-- The types of the old vocabulary
unfoldable pub kept_from : Bool → Bool → Ontology → List EventType → List Break
unfolding find_type shared_breaks
kept_from back fwd new [] = []
kept_from back fwd new (o ∷ os) =
    old_breaks back fwd new.closed_world o (find_type o.name new.types) ++ kept_from back fwd new os

abbrev is_new : Ontology → EventType → Bool
is_new old n = elim (find_type n.name old.types) [ none ↦ true | some _ ↦ false ]

-- The types that only the new vocabulary has
unfoldable pub added_from : Bool → Ontology → List EventType → List Break
unfolding find_type
added_from fwd old ns =
    on_break (fwd && old.closed_world)
      (map (λ (n : EventType). type_added n.name) (keep (is_new old) ns))

-- The entry `violations` of `ontology_compat`
unfoldable pub ontology_compat : Ontology → Ontology → Mode → List Break
unfolding kept_from added_from
ontology_compat old new mode =
    kept_from (looks_back mode) (looks_forward mode) new old.types
    ++ added_from (looks_forward mode) old new.types
