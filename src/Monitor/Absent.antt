-- ===== src/Monitor/Absent.antt =====
-- `AbsentMonitor` of src/ooptdd/engine/monitor.py.
use ooptdd.Base.{
  Bool, true, false, ◌&&◌, ℤ, pos, List, [], ◌∷◌, ◌++◌, length, take, any_m, map_m, if◌then◌else◌,
  Result, ok, ◌>>=◌,
}
use ooptdd.Value.{Value, Event, Fields, bool, num, int, list, field}
use ooptdd.Builtins.{Builtins}
use ooptdd.Match.{Matcher, matches, resolve_matcher}
use ooptdd.Match.Label.{matcher_label, items, briefs}
use ooptdd.Monitor.Verdicts.{Latch, viol, fresh, latch, stamp}

pub record AbsentMonitor : Type 0 where
  pub latched : Latch
  pub resolved : List Matcher
  pub allow : List Matcher
  pub labels : List Value
  pub offenders : List Event

-- `AbsentMonitor.__init__`
unfoldable pub new : Builtins → List Fields → Fields → List Fields → Result AbsentMonitor
new py ms indicators allow = do
  resolved ← map_m (λ m. resolve_matcher m indicators) ms
  allowed ← map_m (λ a. resolve_matcher a indicators) allow
  labels ← map_m (matcher_label py) resolved
  ok (record {
    latched = fresh;
    resolved = resolved;
    allow = allowed;
    labels = labels;
    offenders = [];
  })

-- `any(_matches(ev, …) for … in ms)`
unfoldable pub matches_any : List Matcher → Event → Result Bool
matches_any ms ev = any_m (matches ev) ms

-- Does the event offend: it is not allowed, and a matcher finds it?
unfoldable pub offends : List Matcher → List Matcher → Event → Result Bool
offends allow resolved ev =
    matches_any allow ev >>= elim [ true ↦ ok false | false ↦ matches_any resolved ev ]

unfoldable pub advance : AbsentMonitor → Event → ℤ → Bool → AbsentMonitor
advance m ev idx bad =
    if bad
    then record m { offenders = m.offenders ++ (ev ∷ []); latched = latch viol idx m.latched }
    else m

-- `AbsentMonitor.step`
unfoldable pub step : AbsentMonitor → Event → ℤ → Result AbsentMonitor
unfolding advance offends
step m ev idx = do bad ← offends m.allow m.resolved ev; ok (advance m ev idx bad)

abbrev pub no_events : List Event → Bool
no_events [] = true
no_events (_ ∷ _) = false

-- The entry `passed`
unfoldable pub passed : AbsentMonitor → Bool → Bool
passed m reachable = reachable && no_events m.offenders

-- `AbsentMonitor.collapse`
unfoldable pub collapse : AbsentMonitor → Bool → Fields
unfolding passed stamp
collapse m reachable = field "absent" (list (items m.labels)) (
    field "violations" (num (int (pos (length m.offenders)))) (
      field "offending" (briefs (take 5 m.offenders))
        (field "passed" (bool (passed m reachable)) (stamp m.latched))))
