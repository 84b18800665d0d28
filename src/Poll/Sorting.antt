-- ===== src/Poll/Sorting.antt =====
-- `sorted(events, key=stream_key)`, with the `stream_key` of src/ooptdd/engine/gate_primitives.py.
use ooptdd.Base.{
  Bool, true, false, ◌&&◌, ◌||◌, Option, none, some, ℤ, pos, List, [], ◌∷◌, map_m, ltb_ℤ, eqb_ℤ,
  if◌then◌else◌, Result, ok, ◌>>=◌, not,
}
use ooptdd.Value.{Event}
use ooptdd.Monitor.Stream.{timestamp, sequence}

pub record Keyed : Type 0 where
  pub missing_time : Bool
  pub time : ℤ
  pub seq : ℤ
  pub event : Event

abbrev or_zero : Option ℤ → ℤ
or_zero none = pos 0
or_zero (some z) = z

abbrev is_none : Option ℤ → Bool
is_none none = true
is_none (some _) = false

-- `stream_key`, with its event
unfoldable pub stream_key : Event → Result Keyed
stream_key ev = do
  t ← timestamp ev
  s ← sequence ev
  ok (record { missing_time = is_none t; time = or_zero t; seq = or_zero s; event = ev })

-- The order of the keys, as Python compares tuples
abbrev before : Keyed → Keyed → Bool
before a b =
    (not a.missing_time && b.missing_time)
    || (((a.missing_time && b.missing_time) || (not a.missing_time && not b.missing_time))
        && (ltb_ℤ a.time b.time || (eqb_ℤ a.time b.time && ltb_ℤ a.seq b.seq)))

-- The sort is stable: an event stays before the later ones with its key.
unfoldable pub insert : Keyed → List Keyed → List Keyed
insert x [] = x ∷ []
insert x (y ∷ ys) = let rest = insert x ys in if before y x then y ∷ rest else x ∷ (y ∷ ys)

unfoldable pub sort : List Keyed → List Event
unfolding insert
sort xs = unkey (go xs)
  where
    go : List Keyed → List Keyed
    go [] = []
    go (x ∷ xs) = insert x (go xs)

    unkey : List Keyed → List Event
    unkey [] = []
    unkey (x ∷ xs) = x.event ∷ unkey xs

unfoldable pub sorted : List Event → Result (List Event)
unfolding stream_key sort
sorted events = map_m stream_key events >>= λ keys. ok (sort keys)
