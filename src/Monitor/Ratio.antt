-- ===== src/Monitor/Ratio.antt =====
-- `RatioMonitor` of src/ooptdd/engine/monitor.py. It never latches.
use ooptdd.Base.{
  ℕ, suc, Bool, true, false, Option, none, some, ℤ, pos, String, ltb, ◌==◌, if◌then◌else◌, Result,
  ok, raise, Error, ◌>>=◌,
}
use ooptdd.Value.{
  Float, Op, apply_op, Value, Event, Fields, null, bool, num, int, float, str, end, field,
}
use ooptdd.Builtins.{Builtins}
use ooptdd.Match.{Matcher, matches, ops}
use ooptdd.Monitor.Verdicts.{Latch, fresh, stamp}

pub record RatioMonitor : Type 0 where
  pub latched : Latch
  pub good_matcher : Matcher
  pub total_matcher : Matcher
  pub op : String
  pub want : Float
  pub good : ℕ
  pub total : ℕ

-- `RatioMonitor.__init__`, the matchers resolved
unfoldable pub new : Matcher → Matcher → String → Float → RatioMonitor
new g t op want = record {
  latched = fresh;
  good_matcher = g;
  total_matcher = t;
  op = op;
  want = want;
  good = 0;
  total = 0;
}

abbrev pub bump : Bool → ℕ → ℕ
bump true n = suc n
bump false n = n

unfoldable pub advance : RatioMonitor → Bool → Bool → RatioMonitor
advance m g t = record m { good = bump g m.good; total = bump t m.total }

-- `RatioMonitor.step`
unfoldable pub step : RatioMonitor → Event → ℤ → Result RatioMonitor
unfolding advance
step m ev idx = do g ← matches ev m.good_matcher; t ← matches ev m.total_matcher; ok (advance m g t)

abbrev compare_ratio : Option Op → Float → Float → Result Bool
compare_ratio none v want = raise Error.key_error
compare_ratio (some op) v want = ok (apply_op op (float v) (float want))

-- The entry `passed`
unfoldable pub passed : Builtins → RatioMonitor → Bool → Result Bool
unfolding ops
passed py m reachable =
    if m.total == 0
    then ok false
    else if ltb m.total m.good
    then ok false
    else if reachable
    then compare_ratio (ops m.op) (py.divide m.good m.total) m.want
    else ok false

-- The entry `value`
unfoldable pub ratio_value : Builtins → RatioMonitor → Value
ratio_value py m = if m.total == 0 then null else num (float (py.divide m.good m.total))

-- The entry `reason`, which only two of the results have
unfoldable pub reason : RatioMonitor → Fields
reason m =
    if m.total == 0
    then field "reason" (str "ratio_total_zero") end
    else if ltb m.total m.good
    then field "reason" (str "ratio_good_exceeds_total") end
    else end

abbrev pub then_stamp : Fields → Fields → Fields
then_stamp end s = s
then_stamp (field k v _) s = field k v s

-- `RatioMonitor.collapse`
unfoldable pub collapse : Builtins → RatioMonitor → Bool → Result Fields
unfolding passed ratio_value reason stamp
collapse py m reachable = do
  p ← passed py m reachable
  ok (
      field "ratio" (str "good/total") (
        field "good" (num (int (pos m.good))) (
          field "total" (num (int (pos m.total))) (
            field "value" (ratio_value py m) (
              field "op" (str m.op) (
                field "want" (num (float m.want))
                  (field "passed" (bool p) (then_stamp (reason m) (stamp m.latched)))))))))
