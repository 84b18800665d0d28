-- ===== src/Monitor/Live.antt =====
-- `LiveMonitorSet` of src/ooptdd/engine/monitor.py: a bank of monitors fed one event at a time.
use ooptdd.Base.{
  ℕ, suc, Bool, ◌&&◌, Option, none, some, pos, List, [], ◌∷◌, map, map_m, Result, ok, ◌>>=◌,
}
use ooptdd.Value.{Event, Fields}
use ooptdd.Builtins.{Builtins}
use ooptdd.Ontology.{Ontology}
use ooptdd.Monitor.Verdicts.{Verdict}
use ooptdd.Monitor.{Monitor, step, latched}
use ooptdd.Monitor.Compile.{compile_check}
use ooptdd.Monitor.Entries.{entries}

pub record LiveMonitorSet : Type 0 where
  pub monitors : List Monitor
  pub idx : ℕ

-- `LiveMonitorSet.__init__`
unfoldable pub new : List Monitor → LiveMonitorSet
new ms = record { monitors = ms; idx = 0 }

-- `LiveMonitorSet.from_rules`
unfoldable pub from_rules :
    Builtins → List Fields → Fields → Option Ontology → List Fields → Result LiveMonitorSet
unfolding new
from_rules py rules indicators ontology allow =
    map_m (λ rule. compile_check py rule indicators ontology allow) rules >>= λ ms. ok (new ms)

abbrev index : Option ℕ → ℕ → ℕ
index none i = i
index (some j) i = j

-- `LiveMonitorSet.feed`
unfoldable pub feed : Builtins → LiveMonitorSet → Event → Option ℕ → Result LiveMonitorSet
feed py s ev idx = do
  ms ← map_m (λ m. step py m ev (pos (index idx s.idx))) s.monitors
  ok (record { monitors = ms; idx = suc (index idx s.idx) })

-- A client that feeds a stream, event by event
unfoldable pub feed_all : Builtins → LiveMonitorSet → List Event → Result LiveMonitorSet
unfolding feed
feed_all py s [] = ok s
feed_all py s (ev ∷ evs) = feed py s ev none >>= λ s'. feed_all py s' evs

-- `LiveMonitorSet.verdicts`
unfoldable pub verdicts : LiveMonitorSet → List Verdict
verdicts s = map (λ m. (latched m).verdict) s.monitors

-- `LiveMonitorSet.collapse`
unfoldable pub collapse_all : Builtins → LiveMonitorSet → Bool → Bool → Result (List Fields)
collapse_all py s reachable complete = map_m (λ m. entries py m (reachable && complete)) s.monitors
