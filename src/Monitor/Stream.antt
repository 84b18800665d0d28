-- ===== src/Monitor/Stream.antt =====
-- The order of a stream: the fields that stores stamp on events, and the fields of time that the
-- ordering monitors read. Stores stamp integers; another kind of value ends a run.
use ooptdd.Base.{true, false, Option, none, some, ℤ, pos, Result, ok, raise, Error}
use ooptdd.Value.{Value, Event, null, bool, num, int, get}

abbrev integer_or_none : Value → Result (Option ℤ)
integer_or_none null = ok none
integer_or_none (num (int z)) = ok (some z)
integer_or_none _ = raise Error.type_error

-- `ev.get("_timestamp")`
unfoldable pub timestamp : Event → Result (Option ℤ)
unfolding get
timestamp ev = integer_or_none (get "_timestamp" ev)

-- `ev.get("_seq")`
unfoldable pub sequence : Event → Result (Option ℤ)
unfolding get
sequence ev = integer_or_none (get "_seq" ev)

-- `emit if isinstance(emit, int) else None`: a `bool` is an `int`.
abbrev integer? : Value → Option ℤ
integer? (num (int z)) = some z
integer? (bool true) = some (pos 1)
integer? (bool false) = some (pos 0)
integer? _ = none

unfoldable pub emit_sequence : Event → Option ℤ
unfolding get
emit_sequence ev = integer? (get "_emit_seq" ev)
