-- ===== src/Monitor/Present.antt =====
-- `PresentMonitor` of src/ooptdd/engine/monitor.py.
use ooptdd.Base.{
  Bool, true, false, ◌&&◌, ℤ, List, [], ◌∷◌, if◌then◌else◌, all, map_m, Result, ok, ◌>>=◌,
}
use ooptdd.Value.{Value, Event, Fields, bool, list, field}
use ooptdd.Builtins.{Builtins}
use ooptdd.Match.{Matcher, matches, resolve_matcher}
use ooptdd.Match.Label.{matcher_label, items}
use ooptdd.Monitor.Verdicts.{Latch, sat, fresh, latch, stamp}

-- `hits` is the list `_hit`, one flag for each matcher.
pub record PresentMonitor : Type 0 where
  pub latched : Latch
  pub resolved : List Matcher
  pub labels : List Value
  pub hits : List Bool

abbrev pub unhit : List Matcher → List Bool
unhit [] = []
unhit (m ∷ ms) = false ∷ unhit ms

-- `PresentMonitor.__init__`
unfoldable pub new : Builtins → List Fields → Fields → Result PresentMonitor
new py ms indicators = do
  resolved ← map_m (λ m. resolve_matcher m indicators) ms
  labels ← map_m (matcher_label py) resolved
  ok (record { latched = fresh; resolved = resolved; labels = labels; hits = unhit resolved })

-- The loop of `step`: a matcher that has fired is not asked again.
unfoldable pub mark : Event → List Matcher → List Bool → Result (List Bool)
mark ev (m ∷ ms) (h ∷ hs) = do
  now ← (if h then ok true else matches ev m)
  rest ← mark ev ms hs
  ok (now ∷ rest)
mark ev _ _ = ok []

abbrev pub id : Bool → Bool
id b = b

unfoldable pub advance : PresentMonitor → ℤ → List Bool → PresentMonitor
advance m idx hits = record m {
  hits = hits;
  latched = if all id hits then latch sat idx m.latched else m.latched;
}

-- `PresentMonitor.step`
unfoldable pub step : PresentMonitor → Event → ℤ → Result PresentMonitor
unfolding advance
step m ev idx = do hits ← mark ev m.resolved m.hits; ok (advance m idx hits)

-- The labels whose matcher has not fired
unfoldable pub missing : List Value → List Bool → List Value
missing (l ∷ ls) (h ∷ hs) = let rest = missing ls hs in if h then rest else l ∷ rest
missing _ _ = []

abbrev pub is_empty : List Value → Bool
is_empty [] = true
is_empty (_ ∷ _) = false

-- The entry `passed`
unfoldable pub passed : PresentMonitor → Bool → Bool
unfolding missing
passed m reachable = reachable && is_empty (missing m.labels m.hits)

-- `PresentMonitor.collapse`
unfoldable pub collapse : PresentMonitor → Bool → Fields
unfolding passed missing stamp
collapse m reachable = field "present" (list (items m.labels)) (
    field "missing" (list (items (missing m.labels m.hits)))
      (field "passed" (bool (passed m reachable)) (stamp m.latched)))
