-- ===== src/Monitor/Reduce.antt =====
-- The reductions over matched events that `InvariantMonitor` and `MetamorphicMonitor` of
-- src/ooptdd/engine/monitor.py relate.
use ooptdd.Base.{
  ℕ, suc, Bool, Option, none, some, pos, String, str_eq, List, [], ◌∷◌, ◌++◌, if◌then◌else◌, Result,
  ok, raise, Error, ◌>>=◌,
}
use ooptdd.Value.{Number, int, lt, gt, apply_op, Value, Event, get, number?, text?}
use ooptdd.Builtins.{Builtins}
use ooptdd.Match.{Matcher, matches}

-- One side of a relation: its matcher, its reduction, and what it has collected
pub record Side : Type 0 where
  pub matcher : Matcher
  pub reduce : String
  pub field_name : Value
  pub vals : List Number
  pub n : ℕ

-- `ev.get(field)`; a field that is no text is in no event.
abbrev read_field : Value → Event → Option Number
read_field name ev = elim (text? name) [ none ↦ none | some k ↦ number? (get k ev) ]

abbrev collect : Option Number → List Number → List Number
collect none vs = vs
collect (some v) vs = vs ++ (v ∷ [])

unfoldable pub advance : Side → Event → Bool → Side
unfolding get
advance s ev hit =
    if hit
    then if str_eq s.reduce "count"
      then record s { n = suc s.n }
      else record s { n = suc s.n; vals = collect (read_field s.field_name ev) s.vals }
    else s

unfoldable pub take_event : Side → Event → Result Side
unfolding advance
take_event s ev = do hit ← matches ev s.matcher; ok (advance s ev hit)

-- `min` and `max` of Python, from the left
abbrev min_from : Number → List Number → Number
min_from acc [] = acc
min_from acc (v ∷ vs) = min_from (if apply_op lt v acc then v else acc) vs

abbrev max_from : Number → List Number → Number
max_from acc [] = acc
max_from acc (v ∷ vs) = max_from (if apply_op gt v acc then v else acc) vs

abbrev last_from : Number → List Number → Number
last_from acc [] = acc
last_from acc (v ∷ vs) = last_from v vs

-- The table `_REDUCERS`, at a list that is not empty
unfoldable pub reducer : Builtins → String → Number → List Number → Result Number
reducer py name v vs =
    if str_eq name "sum"
    then ok (py.total (v ∷ vs))
    else if str_eq name "min"
    then ok (min_from v vs)
    else if str_eq name "max"
    then ok (max_from v vs)
    else if str_eq name "last"
    then ok (last_from v vs)
    else raise Error.key_error

abbrev reduce_values : Builtins → String → List Number → Result (Option Number)
reduce_values py name [] = ok none
reduce_values py name (v ∷ vs) = do r ← reducer py name v vs; ok (some r)

-- `_reduce`
unfoldable pub reduce_side : Builtins → Side → Result (Option Number)
unfolding reducer
reduce_side py s =
    if str_eq s.reduce "count" then ok (some (int (pos s.n))) else reduce_values py s.reduce s.vals
