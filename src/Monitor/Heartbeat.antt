-- ===== src/Monitor/Heartbeat.antt =====
-- `HeartbeatMonitor` of src/ooptdd/engine/monitor.py.
use ooptdd.Base.{
  ℕ, suc, Bool, false, ◌&&◌, Option, none, some, ℤ, pos, ◌-ℤ◌, ltb_ℤ, max_ℤ, min_ℤ, leb_ℤ, not,
  if◌then◌else◌, ◌==◌, Result, ok, ◌>>=◌,
}
use ooptdd.Value.{
  Float, Number, gt, le, apply_op, Value, Event, Fields, null, bool, num, int, float, str, end,
  field, get, value_eq, merge,
}
use ooptdd.Builtins.{Builtins}
use ooptdd.Monitor.Verdicts.{Latch, viol, fresh, latch, stamp}
use ooptdd.Monitor.Stream.{timestamp}

pub record HeartbeatMonitor : Type 0 where
  pub latched : Latch
  pub name : Value
  pub every_s : Float
  pub edge_silence : Bool
  pub beats : ℕ
  pub first_ts : Option ℤ
  pub last_ts : Option ℤ
  pub max_gap_us : ℤ
  pub stream_min_ts : Option ℤ
  pub stream_max_ts : Option ℤ

-- `HeartbeatMonitor.__init__`; `every_s` is `float(every_s)` and `edge_silence` its truth.
unfoldable pub new : Value → Float → Bool → HeartbeatMonitor
new name every_s edge_silence = record {
  latched = fresh;
  name = name;
  every_s = every_s;
  edge_silence = edge_silence;
  beats = 0;
  first_ts = none;
  last_ts = none;
  max_gap_us = pos 0;
  stream_min_ts = none;
  stream_max_ts = none;
}

-- `self.every_s * 1_000_000`
abbrev pub bound : Builtins → Float → Number
bound py every_s = py.times (float every_s) 1000000

abbrev pub min_with : Option ℤ → ℤ → ℤ
min_with none ts = ts
min_with (some t) ts = min_ℤ t ts

abbrev pub max_with : Option ℤ → ℤ → ℤ
max_with none ts = ts
max_with (some t) ts = max_ℤ t ts

abbrev pub or_else : Option ℤ → ℤ → ℤ
or_else none ts = ts
or_else (some t) ts = t

-- The stream's own span, which `step` tracks before it looks at the name
unfoldable pub widen : HeartbeatMonitor → ℤ → HeartbeatMonitor
widen m ts =
    if m.edge_silence
    then record m {
      stream_min_ts = some (min_with m.stream_min_ts ts);
      stream_max_ts = some (max_with m.stream_max_ts ts);
    }
    else m

-- The gap from the beat before, if there was one
unfoldable pub close_gap : Builtins → Option ℤ → HeartbeatMonitor → ℤ → ℤ → HeartbeatMonitor
unfolding ◌-ℤ◌
close_gap py none m ts idx = m
close_gap py (some last) m ts idx =
    let gap = ts -ℤ last in
    record m {
      max_gap_us = max_ℤ m.max_gap_us gap;
      latched =
          if apply_op gt (int gap) (bound py m.every_s)
          then latch viol idx m.latched
          else m.latched;
    }

unfoldable pub beat : Builtins → HeartbeatMonitor → ℤ → ℤ → HeartbeatMonitor
unfolding close_gap
beat py m ts idx =
    let m' = record m { beats = suc m.beats; first_ts = some (or_else m.first_ts ts) } in
    record (close_gap py m.last_ts m' ts idx) { last_ts = some ts }

unfoldable pub advance : Builtins → HeartbeatMonitor → Bool → Option ℤ → ℤ → HeartbeatMonitor
unfolding beat widen
advance py m named none idx = m
advance py m named (some ts) idx = let m' = widen m ts in if named then beat py m' ts idx else m'

-- `HeartbeatMonitor.step`
unfoldable pub step : Builtins → HeartbeatMonitor → Event → ℤ → Result HeartbeatMonitor
unfolding advance
step py m ev idx = do ts ← timestamp ev; ok (advance py m (value_eq (get "event" ev) m.name) ts idx)

abbrev span : Option ℤ → Option ℤ → ℤ
span (some a) (some b) = let d = a -ℤ b in d
span _ _ = pos 0

-- Silence before the first beat, and after the last one; asked for by `edge_silence` only
unfoldable pub lead : HeartbeatMonitor → ℤ
unfolding ◌-ℤ◌
lead m = if m.edge_silence then span m.first_ts m.stream_min_ts else pos 0

unfoldable pub trail : HeartbeatMonitor → ℤ
unfolding ◌-ℤ◌
trail m = if m.edge_silence then span m.stream_max_ts m.last_ts else pos 0

unfoldable pub edge_gap : HeartbeatMonitor → ℤ
unfolding lead trail
edge_gap m = max_ℤ (lead m) (trail m)

unfoldable pub effective : HeartbeatMonitor → ℤ
unfolding edge_gap
effective m = max_ℤ m.max_gap_us (edge_gap m)

-- The test `ok` of `collapse`
unfoldable pub within : Builtins → HeartbeatMonitor → Bool
unfolding effective
within py m = apply_op le (int (effective m)) (bound py m.every_s)

-- The entry `passed`
unfoldable pub passed : Builtins → HeartbeatMonitor → Bool → Bool
unfolding within
passed py m reachable = if m.beats == 0 then false else (reachable && within py m)

-- The entries that only `edge_silence` adds
unfoldable pub edge_entries : Builtins → HeartbeatMonitor → Fields
unfolding edge_gap within lead trail
edge_entries py m =
    if m.edge_silence
    then field "edge_silence_s" (num (float (py.seconds (edge_gap m)))) (
        if not (within py m) && ltb_ℤ m.max_gap_us (edge_gap m)
        then field "reason"
            (str (if leb_ℤ (trail m) (lead m) then "leading_silence" else "trailing_silence")) end
        else end)
    else end

-- `HeartbeatMonitor.collapse`
unfoldable pub collapse : Builtins → HeartbeatMonitor → Bool → Fields
unfolding passed edge_entries effective stamp
collapse py m reachable =
    if m.beats == 0
    then field "heartbeat" m.name (
        field "every_s" (num (float m.every_s)) (
          field "beats" (num (int (pos 0))) (
            field "max_gap_s" null
              (field "passed" (bool false) (field "reason" (str "no_beat") (stamp m.latched))))))
    else merge
        (field "heartbeat" m.name (
          field "every_s" (num (float m.every_s)) (
            field "beats" (num (int (pos m.beats))) (
              field "max_gap_s" (num (float (py.seconds (effective m)))) (
                field "inter_beat_max_gap_s" (num (float (py.seconds m.max_gap_us)))
                  (field "passed" (bool (passed py m reachable)) end))))))
        (merge (edge_entries py m) (stamp m.latched))
