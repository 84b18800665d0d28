-- ===== src/Monitor/Order.antt =====
-- `OrderMonitor` of src/ooptdd/engine/monitor.py. The three dictionaries `firsts`, `_keys` and
-- `_emits` have the names of `seq` for keys and are written together, so they are one list here:
-- the first occurrence of each name, in the order of `seq`. Names are texts.
use Prim.Native.String.{◌++◌}
use ooptdd.Base.{
  Bool, true, false, ◌&&◌, ◌||◌, Option, none, some, ℤ, pos, ◌-ℤ◌, leb_ℤ, ltb_ℤ, eqb_ℤ, abs_diff,
  String, str_eq, List, [], ◌∷◌, map, any, all, not, if◌then◌else◌, Result, ok, raise_if, Error,
  ◌>>=◌, ◌>>◌,
}
use ooptdd.Value.{
  Number, gt, le, apply_op, Value, Event, Fields, null, bool, num, int, str, list, dict, end, field,
  get, text?, merge,
}
use ooptdd.Builtins.{Builtins}
use ooptdd.Match.Label.{items}
use ooptdd.Monitor.Verdicts.{Latch, sat, viol, fresh, latch, stamp}
use ooptdd.Monitor.Stream.{timestamp, sequence, emit_sequence}

-- What is kept of the first event of a name
pub record First : Type 0 where
  pub ts : ℤ
  pub seq : ℤ
  pub emit : Option ℤ

pub record Slot : Type 0 where
  pub name : String
  pub first : Option First

pub record OrderMonitor : Type 0 where
  pub latched : Latch
  pub slots : List Slot
  pub within_s : Option Number
  pub tie_skew_ms : Option Number

abbrev pub empty_slot : String → Slot
empty_slot name = record { name = name; first = none }

abbrev pub repeats : List String → Bool
repeats [] = false
repeats (n ∷ ns) = any (str_eq n) ns || repeats ns

-- `OrderMonitor.__init__`
unfoldable pub new : List String → Option Number → Option Number → Result OrderMonitor
new names within_s tie_skew_ms = do
  raise_if (repeats names) Error.value_error
  ok (record {
    latched = fresh;
    slots = map empty_slot names;
    within_s = within_s;
    tie_skew_ms = tie_skew_ms;
  })

-- `ka <= kb` on the pairs (ts, seq)
abbrev pub key_le : First → First → Bool
key_le a b = ltb_ℤ a.ts b.ts || (eqb_ℤ a.ts b.ts && leb_ℤ a.seq b.seq)

-- Within the skew window two events are concurrent.
abbrev concurrent : Builtins → Option Number → First → First → Bool
concurrent py none a b = false
concurrent py (some skew) a b = apply_op le (int (pos (abs_diff a.ts b.ts))) (py.times skew 1000)

abbrev by_emission : Option ℤ → Option ℤ → Bool → Bool
by_emission (some x) (some y) otherwise = leb_ℤ x y
by_emission _ _ otherwise = otherwise

-- `_pair_ok`, the ladder of authorities
unfoldable pub pair_ok : Builtins → Option Number → First → First → Bool
pair_ok py skew a b = by_emission a.emit b.emit (concurrent py skew a b || key_le a b)

abbrev pub seen : List Slot → List First
seen [] = []
seen (s ∷ ss) = elim s.first [ none ↦ seen ss | some f ↦ f ∷ seen ss ]

-- Each item stands to the next one as the test says.
abbrev pub chain : (First → First → Bool) → List First → Bool
chain ok? [] = true
chain ok? (a ∷ []) = true
chain ok? (a ∷ b ∷ fs) = ok? a b && chain ok? (b ∷ fs)

-- `_ordered_so_far`
unfoldable pub ordered_so_far : Builtins → OrderMonitor → Bool
unfolding pair_ok
ordered_so_far py m = chain (pair_ok py m.tie_skew_ms) (seen m.slots)

abbrev pub too_far : Number → Option First → Option First → Bool
too_far bound (some a) (some b) = apply_op gt (int (let d = b.ts -ℤ a.ts in d)) bound
too_far bound _ _ = false

-- The loop of `_gaps_exceeded`
unfoldable pub gaps : Number → List Slot → List String
unfolding ◌-ℤ◌
gaps bound (s ∷ t ∷ ss) =
    let rest = gaps bound (t ∷ ss) in
    if too_far bound s.first t.first then (s.name ++ ("->" ++ t.name)) ∷ rest else rest
gaps bound _ = []

-- `_gaps_exceeded`
unfoldable pub gaps_within : Builtins → Option Number → List Slot → List String
unfolding gaps
gaps_within py none slots = []
gaps_within py (some w) slots = gaps (py.times w 1000000) slots

abbrev pub no_gaps : List String → Bool
no_gaps [] = true
no_gaps (_ ∷ _) = false

abbrev pub is_seen : Slot → Bool
is_seen s = elim s.first [ none ↦ false | some _ ↦ true ]

abbrev pub keep_first : Option First → First → First
keep_first none f = f
keep_first (some old) f = old

-- Only the first occurrence of a name is kept.
unfoldable pub observe : String → First → List Slot → List Slot
observe n f [] = []
observe n f (s ∷ ss) =
    if str_eq s.name n
    then record s { first = some (keep_first s.first f) } ∷ ss
    else s ∷ observe n f ss

abbrev pub or_zero : Option ℤ → ℤ
or_zero none = pos 0
or_zero (some z) = z

-- The tests at the end of `step`: an inversion or a gap is final, and so is a full order.
unfoldable pub settle_latch : Bool → Bool → Bool → ℤ → Latch → Latch
settle_latch in_order in_time all_seen idx l =
    if not in_order || not in_time
    then latch viol idx l
    else if all_seen
    then latch sat idx l
    else l

unfoldable pub settle : Builtins → OrderMonitor → ℤ → OrderMonitor
unfolding ordered_so_far gaps_within settle_latch
settle py m idx = record m {
  latched =
      settle_latch (ordered_so_far py m) (no_gaps (gaps_within py m.within_s m.slots))
        (all is_seen m.slots) idx m.latched;
}

abbrev pub named : String → Slot → Bool
named n s = str_eq s.name n

-- `step` at an event that has a name of `seq` and a timestamp
unfoldable pub advance : Builtins → OrderMonitor → String → First → ℤ → OrderMonitor
unfolding settle observe
advance py m n f idx = settle py (record m { slots = observe n f m.slots }) idx

unfoldable pub step_at : Builtins → OrderMonitor → Event → String → ℤ → ℤ → Result OrderMonitor
unfolding advance
step_at py m ev n ts idx = do
  s ← sequence ev
  ok (advance py m n (record { ts = ts; seq = or_zero s; emit = emit_sequence ev }) idx)

unfoldable pub step_timed :
    Builtins → OrderMonitor → Event → String → Option ℤ → ℤ → Result OrderMonitor
unfolding step_at
step_timed py m ev n none idx = ok m
step_timed py m ev n (some ts) idx = step_at py m ev n ts idx

unfoldable pub step_named :
    Builtins → OrderMonitor → Event → Option String → ℤ → Result OrderMonitor
unfolding step_timed
step_named py m ev none idx = ok m
step_named py m ev (some n) idx =
    if any (named n) m.slots then timestamp ev >>= (λ ts. step_timed py m ev n ts idx) else ok m

-- `OrderMonitor.step`
unfoldable pub step : Builtins → OrderMonitor → Event → ℤ → Result OrderMonitor
unfolding step_named
step py m ev idx = step_named py m ev (text? (get "event" ev)) idx

-- The local `ordered` of `collapse`
unfoldable pub ordered : Builtins → OrderMonitor → Bool
unfolding ordered_so_far
ordered py m = all is_seen m.slots && ordered_so_far py m

-- The local `gaps` of `collapse`
unfoldable pub exceeded : Builtins → OrderMonitor → List String
unfolding ordered gaps_within
exceeded py m = if ordered py m then gaps_within py m.within_s m.slots else []

-- The entry `passed`
unfoldable pub passed : Builtins → OrderMonitor → Bool → Bool
unfolding exceeded
passed py m reachable = reachable && ordered py m && no_gaps (exceeded py m)

abbrev name_values : List Slot → List Value
name_values ss = map (λ s. str s.name) ss

abbrev missing : List Slot → List Value
missing [] = []
missing (s ∷ ss) = elim s.first [ none ↦ str s.name ∷ missing ss | some _ ↦ missing ss ]

abbrev first_value : Option First → Value
first_value none = null
first_value (some f) = num (int f.ts)

abbrev firsts : List Slot → Fields
firsts [] = end
firsts (s ∷ ss) = field s.name (first_value s.first) (firsts ss)

abbrev pub bound_entries : Option Number → List String → Fields
bound_entries none gs = end
bound_entries (some w) gs =
    field "within_s" (num w) (field "gaps_exceeded" (list (items (map str gs))) end)

-- `OrderMonitor.collapse`
unfoldable pub collapse : Builtins → OrderMonitor → Bool → Fields
unfolding passed stamp
collapse py m reachable = field "must_order" (list (items (name_values m.slots))) (
    field "missing" (list (items (missing m.slots))) (
      field "ordered" (bool (ordered py m)) (
        field "firsts" (dict (firsts m.slots)) (
          field "passed" (bool (passed py m reachable))
            (merge (bound_entries m.within_s (exceeded py m)) (stamp m.latched))))))
