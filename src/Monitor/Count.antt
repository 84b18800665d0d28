-- ===== src/Monitor/Count.antt =====
-- `CountMonitor` of src/ooptdd/engine/monitor.py.
use ooptdd.Base.{
  ℕ, suc, Bool, false, ◌&&◌, ◌||◌, Option, none, some, ℤ, pos, negsuc, String, str_eq,
  if◌then◌else◌, Result, ok, raise, Error, ◌>>=◌,
}
use ooptdd.Value.{
  Number, int, Op, ge, gt, eq, le, lt, apply_op, Event, Fields, bool, num, str, field,
}
use ooptdd.Match.{Matcher, matches, ops}
use ooptdd.Monitor.Verdicts.{Latch, sat, viol, fresh, latch, stamp}

pub record CountMonitor : Type 0 where
  pub latched : Latch
  pub matcher : Matcher
  pub op : String
  pub want : Number
  pub got : ℕ

abbrev pub nat : ℕ → Number
nat n = int (pos n)

-- `want <= 0` with `>=` is satisfied by the empty prefix.
unfoldable pub initial : Option Op → Number → Latch
unfolding latch
initial (some ge) want = if apply_op le want (nat 0) then latch sat (negsuc 0) fresh else fresh
initial _ want = fresh

-- `CountMonitor.__init__`
unfoldable pub new : Matcher → String → Number → CountMonitor
unfolding initial ops
new m op want = record {
  latched = initial (ops op) want;
  matcher = m;
  op = op;
  want = want;
  got = 0;
}

-- The four tests of `step`, after the count went up to `got`
unfoldable pub settle : Option Op → ℕ → Number → ℤ → Latch → Latch
settle (some ge) got want idx l = if apply_op ge (nat got) want then latch sat idx l else l
settle (some gt) got want idx l = if apply_op gt (nat got) want then latch sat idx l else l
settle (some eq) got want idx l = if apply_op gt (nat got) want then latch viol idx l else l
settle (some le) got want idx l = if apply_op gt (nat got) want then latch viol idx l else l
settle (some lt) got want idx l = if apply_op ge (nat got) want then latch viol idx l else l
settle _ got want idx l = l

-- `step` once the matcher has answered
unfoldable pub advance : CountMonitor → ℤ → Bool → CountMonitor
unfolding settle ops
advance m idx hit =
    if hit
    then record m { got = suc m.got; latched = settle (ops m.op) (suc m.got) m.want idx m.latched }
    else m

-- `CountMonitor.step`
unfoldable pub step : CountMonitor → Event → ℤ → Result CountMonitor
unfolding advance matches
step m ev idx = do hit ← matches ev m.matcher; ok (advance m idx hit)

-- `_OPS[self.op](self.got, self.want)`
abbrev pub test_op : Option Op → ℕ → Number → Result Bool
test_op none got want = raise Error.key_error
test_op (some op) got want = ok (apply_op op (nat got) want)

-- The entry `passed`
unfoldable pub passed : CountMonitor → Bool → Result Bool
unfolding ops
passed m reachable = if reachable then test_op (ops m.op) m.got m.want else ok false

-- The entry `tautological`: checks that no count can fail
unfoldable pub tautological : CountMonitor → Bool
tautological m =
    (str_eq m.op ">=" && apply_op le m.want (nat 0))
    || (str_eq m.op ">" && apply_op lt m.want (nat 0))
    || (str_eq m.op "!=" && apply_op lt m.want (nat 0))

-- `CountMonitor.collapse`
unfoldable pub collapse : CountMonitor → Bool → Result Fields
unfolding passed tautological stamp
collapse m reachable = do
  p ← passed m reachable
  ok (
      field "event" m.matcher.event (
        field "where" m.matcher.where_ (
          field "op" (str m.op) (
            field "want" (num m.want) (
              field "got" (num (nat m.got)) (
                field "passed" (bool p)
                  (field "tautological" (bool (tautological m)) (stamp m.latched))))))))
