-- ===== src/Monitor.antt =====
-- src/ooptdd/engine/monitor.py: the automata, one child for each class, and here the class
-- hierarchy as one type with its dispatch. `run_from` drives a monitor over a stream; Entries has what
-- its collapse returns.
pub mod Verdicts
pub mod Count
pub mod Present
pub mod Absent
pub mod Duration
pub mod Stream
pub mod Heartbeat
pub mod Order
pub mod Ratio
pub mod Reduce
pub mod Relation
pub mod Conforms
pub mod Compile
pub mod Live
pub mod Entries
use ooptdd.Base.{ℕ, suc, Bool, true, false, ◌&&◌, ℤ, pos, List, [], ◌∷◌, Result, ok, raise, ◌>>=◌}
use ooptdd.Value.{Event}
use ooptdd.Builtins.{Builtins}
use Verdicts.{Latch}
use Count.{CountMonitor}
use Present.{PresentMonitor}
use Absent.{AbsentMonitor}
use Duration.{DurationMonitor}
use Heartbeat.{HeartbeatMonitor}
use Order.{OrderMonitor}
use Ratio.{RatioMonitor}
use Relation.{InvariantMonitor, MetamorphicMonitor}
use Conforms.{ConformsMonitor}

-- The subclasses of `Monitor`
pub data Monitor : Type 0 where
  count : CountMonitor → Monitor
  present : PresentMonitor → Monitor
  absent : AbsentMonitor → Monitor
  duration : DurationMonitor → Monitor
  heartbeat : HeartbeatMonitor → Monitor
  order : OrderMonitor → Monitor
  ratio : RatioMonitor → Monitor
  invariant : InvariantMonitor → Monitor
  metamorphic : MetamorphicMonitor → Monitor
  conforms : ConformsMonitor → Monitor

-- The properties `verdict` and `settled_at`
abbrev pub latched : Monitor → Latch
latched (count m) = m.latched
latched (present m) = m.latched
latched (absent m) = m.latched
latched (duration m) = m.latched
latched (heartbeat m) = m.latched
latched (order m) = m.latched
latched (ratio m) = m.latched
latched (invariant m) = m.latched
latched (metamorphic m) = m.latched
latched (conforms m) = m.latched

abbrev pub lift {ℓ} : {A : Type ℓ} → (A → Monitor) → Result A → Result Monitor
lift f r = r >>= λ m. ok (f m)

-- `Monitor.step`
unfoldable pub step : Builtins → Monitor → Event → ℤ → Result Monitor
step py (count m) ev idx = lift count (Count.step m ev idx)
step py (present m) ev idx = lift present (Present.step m ev idx)
step py (absent m) ev idx = lift absent (Absent.step m ev idx)
step py (duration m) ev idx = lift duration (Duration.step m ev idx)
step py (heartbeat m) ev idx = lift heartbeat (Heartbeat.step py m ev idx)
step py (order m) ev idx = lift order (Order.step py m ev idx)
step py (ratio m) ev idx = lift ratio (Ratio.step m ev idx)
step py (invariant m) ev idx = lift invariant (Relation.step_invariant m ev idx)
step py (metamorphic m) ev idx = lift metamorphic (Relation.step_metamorphic m ev idx)
step py (conforms m) ev idx = ok (conforms (Conforms.step m ev idx))

-- The entry `passed` of `Monitor.collapse`
unfoldable pub passed : Builtins → Monitor → Bool → Result Bool
passed py (count m) r = Count.passed m r
passed py (present m) r = ok (Present.passed m r)
passed py (absent m) r = ok (Absent.passed m r)
passed py (duration m) r = ok (Duration.passed m r)
passed py (heartbeat m) r = ok (Heartbeat.passed py m r)
passed py (order m) r = ok (Order.passed py m r)
passed py (ratio m) r = Ratio.passed py m r
passed py (invariant m) r = Relation.passed_invariant py m r
passed py (metamorphic m) r = Relation.passed_metamorphic py m r
passed py (conforms m) r = ok (Conforms.passed m r)

-- The loop of `run_monitor`, from the index of the next event
unfoldable pub run_from : Builtins → Monitor → ℕ → List Event → Result Monitor
run_from py m i [] = ok m
run_from py m i (ev ∷ evs) = step py m ev (pos i) >>= λ m'. run_from py m' (suc i) evs
