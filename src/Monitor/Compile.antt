-- ===== src/Monitor/Compile.antt =====
-- `compile_check` of src/ooptdd/engine/monitor.py: from a rule to the automaton that it denotes.
use ooptdd.Base.{
  ℕ, suc, ◌-◌, ◌/◌, ◌%◌, ◌^◌, Bool, true, false, ◌&&◌, ◌||◌, Option, none, some, ℤ, pos, negsuc,
  String, str_eq, List, [], ◌∷◌, any, not, ◌==◌, if◌then◌else◌, Result, ok, raise, raise_if, Error,
  ◌>>=◌, ◌>>◌,
}
use ooptdd.Value.{
  Float, finite, Number, int, float, Value, Items, Fields, null, bool, num, str, list, dict, nil,
  cons, end, field, find_key, get, has_key, is_bool, truthy,
}
use ooptdd.Builtins.{Builtins}
use ooptdd.Ontology.{Ontology}
use ooptdd.Match.{norm_op, resolve_matcher}
use ooptdd.Monitor.{
  Monitor, count, present, absent, duration, heartbeat, order, ratio, invariant, metamorphic,
  conforms,
}
use ooptdd.Monitor.Verdicts.{fresh}
use ooptdd.Monitor.Count
use ooptdd.Monitor.Present
use ooptdd.Monitor.Absent
use ooptdd.Monitor.Duration
use ooptdd.Monitor.Heartbeat
use ooptdd.Monitor.Order
use ooptdd.Monitor.Ratio
use ooptdd.Monitor.Reduce.{Side}
use ooptdd.Monitor.Conforms

-- `d.get(k, default)`
unfoldable pub get_or : String → Value → Fields → Value
unfolding find_key
get_or k default d = elim (find_key k d) [ none ↦ default | some v ↦ v ]

abbrev pub one : Value
one = num (int (pos 1))

abbrev pub zero_float : Value
zero_float = num (float (finite (pos 0) 0))

-- `_want`
unfoldable pub want : Fields → Value
unfolding get_or
want rule = elim (find_key "target" rule) [ none ↦ get_or "count" one rule | some v ↦ v ]

-- `int(f) if f.is_integer() else f` for a finite float m / 2^e
unfoldable pub integral : ℤ → ℕ → Number
integral (pos m) e = if m % 2 ^ e == 0 then int (pos (m / 2 ^ e)) else float (finite (pos m) e)
integral (negsuc m) e =
    if suc m % 2 ^ e == 0 then int (negsuc (suc m / 2 ^ e - 1)) else float (finite (negsuc m) e)

abbrev pub finite_number : Float → Result Number
finite_number (finite m e) = ok (integral m e)
finite_number _ = raise Error.value_error

-- `_num_target`: what `float` raises becomes a `ValueError`.
abbrev pub as_value_error : Result Float → Result Float
as_value_error (ok f) = ok f
as_value_error (raise e) = raise Error.value_error

unfoldable pub num_target : Builtins → Fields → Result Number
unfolding want integral
num_target py rule = do
  raise_if (is_bool (want rule)) Error.value_error
  f ← as_value_error (py.to_float (want rule))
  finite_number f

-- The keys of `_COUNT_CONTROLS` in src/ooptdd/engine/gate_rules.py
abbrev pub count_controls : List String
count_controls =
    "event" ∷ "where" ∷ "indicatorRef" ∷ "op" ∷ "target" ∷ "count" ∷ "want" ∷ "optional" ∷ "pending"
    ∷ "weight" ∷ "strength" ∷ "label" ∷ "threshold" ∷ "events" ∷ "charged" ∷ "_auto" ∷ []

abbrev pub structured : Value → Bool
structured (list _) = true
structured (dict _) = true
structured _ = false

-- Is there a structured entry that no count rule knows?
unfoldable pub has_unknown : Fields → Bool
has_unknown end = false
has_unknown (field k v fs) = (not (any (str_eq k) count_controls) && structured v) || has_unknown fs

-- `validate_count_rule` of src/ooptdd/engine/gate_rules.py
unfoldable pub validate_count_rule : Fields → Result (Unit {0})
unfolding has_unknown
validate_count_rule rule = raise_if (has_unknown rule) Error.value_error

-- The matchers of a list: each has to be a dictionary.
abbrev pub matchers : Items → Result (List Fields)
matchers nil = ok []
matchers (cons (dict m) xs) = matchers xs >>= λ ms. ok (m ∷ ms)
matchers (cons _ xs) = raise Error.type_error

-- `raw if isinstance(raw, list) else [raw]`
abbrev pub matcher_list : Value → Result (List Fields)
matcher_list (list xs) = matchers xs
matcher_list v = matchers (cons v nil)

abbrev pub matchers_only : Value → Result (List Fields)
matchers_only (list xs) = matchers xs
matchers_only _ = raise Error.type_error

abbrev pub names : Items → Result (List String)
names nil = ok []
names (cons (str s) xs) = names xs >>= λ ns. ok (s ∷ ns)
names (cons _ xs) = raise Error.type_error

abbrev pub name_list : Value → Result (List String)
name_list (list xs) = names xs
name_list _ = raise Error.type_error

abbrev pub number_or_none : Value → Result (Option Number)
number_or_none null = ok none
number_or_none (num n) = ok (some n)
number_or_none _ = raise Error.type_error

abbrev pub text : Value → Result String
text (str s) = ok s
text _ = raise Error.type_error

abbrev pub nested : Value → Result Fields
nested (dict fs) = ok fs
nested _ = raise Error.type_error

abbrev pub bool_or_none : Value → Option Bool
bool_or_none null = none
bool_or_none v = some (truthy v)

-- `rule[k]`
abbrev pub lookup : String → Fields → Result Value
lookup k d = elim (find_key k d) [ none ↦ raise Error.key_error | some v ↦ ok v ]

-- `_norm_op(d.get("op", …))`: no operator is the name of a value that is not a text.
abbrev pub op_text : Value → String
op_text (str s) = norm_op s
op_text _ = ""

unfoldable pub compile_heartbeat : Builtins → Fields → Result Monitor
unfolding find_key get_or truthy
compile_heartbeat py rule = do
  every ← lookup "every_s" rule
  every_s ← py.to_float every
  ok (
      heartbeat (
        Heartbeat.new (get "heartbeat" rule) every_s
          (truthy (get_or "edge_silence" (bool false) rule))))

unfoldable pub compile_order : Fields → Result Monitor
compile_order rule = do
  ns ← name_list (get "must_order" rule)
  within ← number_or_none (get "within_s" rule)
  skew ← number_or_none (get "tie_skew_ms" rule)
  m ← Order.new ns within skew
  ok (order m)

unfoldable pub compile_absent : Builtins → Fields → Fields → List Fields → Result Monitor
unfolding get_or
compile_absent py rule indicators allow = do
  ms ← matcher_list (get_or "absent" (get "forbid" rule) rule)
  m ← Absent.new py ms indicators allow
  ok (absent m)

unfoldable pub compile_present : Builtins → Fields → Fields → Result Monitor
compile_present py rule indicators = do
  ms ← matchers_only (get "present" rule)
  m ← Present.new py ms indicators
  ok (present m)

unfoldable pub compile_ratio : Builtins → Fields → Fields → Result Monitor
unfolding get_or want
compile_ratio py rule indicators = do
  spec ← nested (get "ratioMetric" rule)
  good ← nested (get_or "good" (dict end) spec)
  total ← nested (get_or "total" (dict end) spec)
  w ← py.to_float (want rule)
  g ← resolve_matcher good indicators
  t ← resolve_matcher total indicators
  ok (ratio (Ratio.new g t (op_text (get_or "op" (str ">=") rule)) w))

unfoldable pub compile_conforms : Fields → Option Ontology → Result Monitor
unfolding truthy
compile_conforms rule ontology = ok (
    conforms (Conforms.new (get "conforms" rule) ontology (bool_or_none (get "closed_world" rule))))

-- One side of a relation, with what it has collected still empty
unfoldable pub new_side : Fields → Value → Value → Fields → Result Side
new_side d reduce name indicators = do
  m ← resolve_matcher d indicators
  r ← text reduce
  ok (record { matcher = m; reduce = r; field_name = name; vals = []; n = 0 })

unfoldable pub compile_invariant : Builtins → Fields → Fields → Result Monitor
unfolding get_or new_side
compile_invariant py rule indicators = do
  spec ← nested (get "invariant" rule)
  left ← nested (get_or "left" (dict end) spec)
  right ← nested (get_or "right" (dict end) spec)
  l ← new_side left (get_or "reduce" (str "sum") left) (get "field" left) indicators
  r ← new_side right (get_or "reduce" (str "sum") right) (get "field" right) indicators
  tol ← py.to_float (get_or "tol" (get_or "tol" zero_float rule) spec)
  ok (
      invariant (record {
        latched = fresh;
        left = l;
        right = r;
        op = op_text (get_or "op" (get_or "op" (str "==") rule) spec);
        tol = tol;
      }))

unfoldable pub compile_metamorphic : Builtins → Fields → Fields → Result Monitor
unfolding get_or new_side
compile_metamorphic py rule indicators = do
  spec ← nested (get "metamorphic" rule)
  relation ← text (get_or "relation" (str "equal") spec)
  da ← nested (get_or "a" (dict end) spec)
  db ← nested (get_or "b" (dict end) spec)
  a ← new_side da (get_or "reduce" (str "sum") spec) (get "field" spec) indicators
  b ← new_side db (get_or "reduce" (str "sum") spec) (get "field" spec) indicators
  factor ← py.to_float (get_or "factor" (num (float (finite (pos 1) 0))) spec)
  tol ← py.to_float (get_or "tol" zero_float spec)
  ok (
      metamorphic (record {
        latched = fresh;
        a = a;
        b = b;
        relation = if str_eq relation "idempotent" then "equal" else relation;
        factor = factor;
        tol = tol;
      }))

abbrev pub duration_op : Fields → Fields → String
duration_op rule spec = op_text (get_or "op" (get_or "op" (str "<=") rule) spec)

abbrev pub duration_target : Fields → Fields → Value
duration_target rule spec = get_or "target" (get "target" rule) spec

unfoldable pub build_duration : Builtins → Fields → Fields → Fields → Result Monitor
unfolding get_or
build_duration py rule indicators spec = do
  m ← resolve_matcher spec indicators
  d ← Duration.new py m (get "field" spec) (duration_op rule spec) (duration_target rule spec)
  ok (duration d)

unfoldable pub compile_duration : Builtins → Fields → Fields → Result Monitor
unfolding build_duration
compile_duration py rule indicators =
    nested (get "duration" rule) >>= build_duration py rule indicators

unfoldable pub compile_count : Builtins → Fields → Fields → Result Monitor
unfolding get_or validate_count_rule num_target
compile_count py rule indicators = do
  validate_count_rule rule
  m ← resolve_matcher rule indicators
  w ← num_target py rule
  ok (count (Count.new m (op_text (get_or "op" (str ">=") rule)) w))

-- `compile_check`: the first key of the ladder decides.
unfoldable pub compile_check :
    Builtins → Fields → Fields → Option Ontology → List Fields → Result Monitor
unfolding has_key compile_heartbeat compile_order compile_absent compile_present compile_ratio
    compile_conforms compile_invariant compile_metamorphic compile_duration compile_count
compile_check py rule indicators ontology allow =
    if has_key "absent" rule || has_key "forbid" rule
    then compile_absent py rule indicators allow
    else if has_key "heartbeat" rule
    then compile_heartbeat py rule
    else if has_key "must_order" rule
    then compile_order rule
    else if has_key "present" rule
    then compile_present py rule indicators
    else if has_key "ratioMetric" rule
    then compile_ratio py rule indicators
    else if has_key "conforms" rule
    then compile_conforms rule ontology
    else if has_key "invariant" rule
    then compile_invariant py rule indicators
    else if has_key "metamorphic" rule
    then compile_metamorphic py rule indicators
    else if has_key "duration" rule
    then compile_duration py rule indicators
    else compile_count py rule indicators
