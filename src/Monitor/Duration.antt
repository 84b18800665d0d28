-- ===== src/Monitor/Duration.antt =====
-- `DurationMonitor` of src/ooptdd/engine/monitor.py.
use ooptdd.Base.{
  ℕ, suc, Bool, true, false, ◌&&◌, Option, none, some, ℤ, pos, String, List, [], ◌∷◌, ◌++◌, length,
  take, not, ltb, ◌==◌, if◌then◌else◌, Result, ok, raise, raise_if, Error, ◌>>=◌, ◌>>◌,
}
use ooptdd.Value.{
  Float, Number, Op, apply_op, Value, Event, Fields, bool, num, int, float, str, field, get,
  number?, is_null, truthy, text?,
}
use ooptdd.Builtins.{Builtins}
use ooptdd.Match.{Matcher, matches, ops}
use ooptdd.Match.Label.{matcher_label, briefs}
use ooptdd.Monitor.Verdicts.{Latch, viol, fresh, latch, stamp}

pub record DurationMonitor : Type 0 where
  pub latched : Latch
  pub matcher : Matcher
  pub field_name : String
  pub op : String
  pub target : Float
  pub got : ℕ
  pub offenders : List Event

-- The name of the field: a key that is no text is found in no event.
abbrev known : Option Op → Bool
known none = false
known (some _) = true

-- `DurationMonitor.__init__`
unfoldable pub new : Builtins → Matcher → Value → String → Value → Result DurationMonitor
new py m name op target = do
  raise_if (not (truthy name)) Error.value_error
  raise_if (is_null target) Error.value_error
  raise_if (not (known (ops op))) Error.value_error
  t ← py.to_float target
  field_name ← (elim (text? name) [ none ↦ raise Error.type_error | some s ↦ ok s ])
  ok (record {
    latched = fresh;
    matcher = m;
    field_name = field_name;
    op = op;
    target = t;
    got = 0;
    offenders = [];
  })

abbrev within : Option Op → Option Number → Float → Bool
within (some op) (some v) target = apply_op op v (float target)
within _ _ _ = false

-- The test `ok` of `step`
unfoldable pub conforming : DurationMonitor → Event → Bool
unfolding get ops
conforming m ev = within (ops m.op) (number? (get m.field_name ev)) m.target

unfoldable pub advance : DurationMonitor → Event → ℤ → Bool → DurationMonitor
unfolding conforming
advance m ev idx hit =
    if hit
    then if conforming m ev then record m { got = suc m.got } else record m {
      got = suc m.got;
      offenders = m.offenders ++ (ev ∷ []);
      latched = latch viol idx m.latched;
    }
    else m

-- `DurationMonitor.step`
unfoldable pub step : DurationMonitor → Event → ℤ → Result DurationMonitor
unfolding advance
step m ev idx = do hit ← matches ev m.matcher; ok (advance m ev idx hit)

abbrev no_events : List Event → Bool
no_events [] = true
no_events (_ ∷ _) = false

-- The entry `passed`
unfoldable pub passed : DurationMonitor → Bool → Bool
passed m reachable = reachable && no_events m.offenders && ltb 0 m.got

-- `DurationMonitor.collapse`
unfoldable pub collapse : Builtins → DurationMonitor → Bool → Result Fields
unfolding passed stamp
collapse py m reachable = do
  label ← matcher_label py m.matcher
  ok (
      field "duration" label (
        field "field" (str m.field_name) (
          field "op" (str m.op) (
            field "target" (num (float m.target)) (
              field "got" (num (int (pos m.got))) (
                field "violations" (num (int (pos (length m.offenders)))) (
                  field "offending" (briefs (take 5 m.offenders)) (
                    field "no_evidence" (bool (m.got == 0))
                      (field "passed" (bool (passed m reachable)) (stamp m.latched))))))))))
