-- ===== src/Poll.antt =====
-- src/ooptdd/engine/verify.py (`poll_until_present`) and src/ooptdd/engine/polling.py: the loop that
-- reads a store back until an evaluator of prefixes settles. Time is in microseconds.
pub mod Sorting
pub mod Seen
pub mod Window
mod Tests
use ooptdd.Base.{
  ℕ, zero, suc, ◌+◌, ◌-◌, ◌/◌, Bool, true, false, ◌&&◌, ◌||◌, Option, none, some, List, [], ltb,
  if◌then◌else◌, Result, ok, raise, Error, ◌>>=◌,
}
use ooptdd.Value.{Number, Op, lt, gt, apply_op, Event}
use Sorting.{sorted}

-- `PollingSettings` of src/ooptdd/domain/settings.py
pub record PollingSettings : Type 0 where
  pub retries : ℕ
  pub delay : Number
  pub backoff : Number
  pub max_delay : Number
  pub confirm_rounds : ℕ
  pub confirm_delay_s : Number

-- The fields of `QueryResult` that the loop reads
pub record QueryResult : Type 0 where
  pub events : List Event
  pub reachable : Bool
  pub complete : Bool
  pub retry_after_s : Option Number

-- The argument of a call of `sleeper`: seconds, or the microseconds that the window has left
pub data Pause : Type 0 where
  seconds : Number → Pause
  rest_of_window : ℕ → Pause

-- The store, the clock and the sleeper, as a script over the number of reads made so far and the
-- time; and Python's `*` and `**` on numbers.
pub record Store : Type 0 where
  pub reply : ℕ → ℕ → QueryResult
  pub read_time : ℕ → ℕ
  pub slept : ℕ → Pause → ℕ
  -- `query_visibility_delay_ms * 1000`
  pub visibility_us : ℕ
  -- What `force_flush` returned or raised, if the store has one
  pub flush : Option (Result Bool)
  pub times : Number → Number → Number
  pub power : Number → ℕ → Number

-- `evaluate_prefix`, and `body.get("ok")` of what it returns
pub record Evaluator (Body : Type 0) : Type 0 where
  pub evaluate : List Event → Bool → Bool → Bool → ℕ → Bool → Result (Option Body)
  pub is_green : Body → Bool

-- `next_poll_delay`
unfoldable pub next_poll_delay : Store → PollingSettings → ℕ → Option Number → Number
next_poll_delay w p attempt retry_after =
    let backed = w.times p.delay (w.power p.backoff (attempt - 1)) in
    let pause = if apply_op lt p.max_delay backed then p.max_delay else backed in
    elim retry_after [ none ↦ pause | some r ↦ if apply_op gt r pause then r else pause ]

-- The variables of the loop, with the time and the number of reads made
pub record State : Type 0 where
  pub now : ℕ
  pub reads : ℕ
  pub queried_ok : Bool
  pub last_events : List Event
  pub last_reachable : Bool
  pub last_complete : Bool
  pub last_retry_after : Option Number

unfoldable pub start : ℕ → State
start now = record {
  now = now;
  reads = 0;
  queried_ok = false;
  last_events = [];
  last_reachable = false;
  last_complete = true;
  last_retry_after = none;
}

unfoldable pub sleep : Store → Pause → State → State
sleep w pause s = record s { now = s.now + w.slept s.reads pause }

-- The assignments of `_read`, to the events in stream order
abbrev pub noted : Store → State → QueryResult → List Event → State
noted w s r events = record {
  now = s.now + w.read_time s.reads;
  reads = suc s.reads;
  queried_ok = s.queried_ok || r.reachable;
  last_events = events;
  last_reachable = r.reachable;
  last_complete = r.complete;
  last_retry_after = r.retry_after_s;
}

-- The query of `_read`
unfoldable pub query : Store → State → Result State
query w s = sorted (w.reply s.reads s.now).events >>= λ events.
    ok (noted w s (w.reply s.reads s.now) events)

-- `evaluate_prefix` on what was read last
unfoldable pub judge : {Body : Type 0} → Evaluator Body → ℕ → Bool → State → Result (Option Body)
judge e attempt final s =
    e.evaluate s.last_events s.last_reachable s.last_complete s.queried_ok attempt final

-- How the attempts end: with a body at an attempt, or with all of them made
pub data Attempts (Body : Type 0) : Type 0 where
  settled : ℕ → Body → State → Attempts Body
  spent : State → Attempts Body

-- `for attempt in range(1, attempts + 1)`, with the number of attempts that are left
unfoldable pub attempts_from :
    {Body : Type 0}
    → Store
    → PollingSettings
    → Evaluator Body
    → ℕ
    → ℕ
    → State
    → Result (Attempts Body)
unfolding query judge sleep next_poll_delay
attempts_from w p e zero attempt s = ok (spent s)
attempts_from w p e (suc zero) attempt s = query w s >>= λ s'.
    judge e attempt false s'
    >>= elim [ none ↦ ok (spent s') | some body ↦ ok (settled attempt body s') ]
attempts_from w p e (suc (suc left)) attempt s = query w s >>= λ s'.
    judge e attempt false s' >>= elim [
      | none ↦
          attempts_from w p e (suc left) (suc attempt)
            (sleep w (seconds (next_poll_delay w p attempt s'.last_retry_after)) s')
      | some body ↦ ok (settled attempt body s')
    ]

-- What `_stamp_arrival` adds to the body, and `attempts`
pub record Arrival (Body : Type 0) : Type 0 where
  pub body : Body
  pub attempts : ℕ
  pub visibility_delay_ms : ℕ
  pub waited_ms : ℕ
  pub flushed : Bool
  pub extended : Bool
  pub confirm_rounds_run : ℕ

abbrev pub flushed? : Option (Result Bool) → Bool
flushed? none = false
flushed? (some (ok b)) = b
flushed? (some (raise _)) = false

unfoldable pub stamp_arrival :
    {Body : Type 0} → Store → ℕ → Body → ℕ → Bool → ℕ → State → Arrival Body
stamp_arrival w started body attempts extended confirms s = record {
  body = body;
  attempts = attempts;
  visibility_delay_ms = w.visibility_us / 1000;
  waited_ms = (s.now - started) / 1000;
  flushed = flushed? w.flush;
  extended = extended;
  confirm_rounds_run = confirms;
}

-- `raise RuntimeError` without a terminal verdict
abbrev pub terminal : {Body : Type 0} → Option Body → Result Body
terminal none = raise Error.runtime_error
terminal (some body) = ok body

-- `while body.get("ok") and confirms_run < confirm_rounds`, with the number of rounds that are left
unfoldable pub confirm_from :
    {Body : Type 0}
    → Store
    → PollingSettings
    → Evaluator Body
    → ℕ
    → ℕ
    → ℕ
    → Bool
    → Body
    → State
    → Result (Arrival Body)
unfolding query judge sleep stamp_arrival
confirm_from w p e started zero run extended body s =
    ok (stamp_arrival w started body p.retries extended run s)
confirm_from w p e started (suc left) run extended body s =
    let again = query w (sleep w (seconds p.confirm_delay_s) s) >>= λ s'.
    judge e p.retries true s' >>= terminal >>= λ body'.
    confirm_from w p e started left (suc run) extended body' s' in
    if e.is_green body then again else ok (stamp_arrival w started body p.retries extended run s)

-- The final evaluation, and the rounds that confirm it
unfoldable pub finish :
    {Body : Type 0}
    → Store
    → PollingSettings
    → Evaluator Body
    → ℕ
    → Bool
    → State
    → Result (Arrival Body)
unfolding judge confirm_from
finish w p e started extended s = judge e p.retries true s >>= terminal >>= λ body.
    confirm_from w p e started p.confirm_rounds 0 extended body s

-- `remaining_us`
abbrev pub remaining : Store → ℕ → State → ℕ
remaining w started s = w.visibility_us - (s.now - started)

-- One more read once the window has passed
unfoldable pub extend :
    {Body : Type 0} → Store → PollingSettings → Evaluator Body → ℕ → State → Result (Arrival Body)
unfolding query judge sleep stamp_arrival finish
extend w p e started s = query w (sleep w (rest_of_window (remaining w started s)) s) >>= λ s'.
    judge e p.retries false s' >>= elim [
      | none ↦ finish w p e started true s'
      | some body ↦ ok (stamp_arrival w started body p.retries true 0 s')
    ]

-- The blind-window guard
abbrev pub after_attempts :
    {Body : Type 0}
    → Store
    → PollingSettings
    → Evaluator Body
    → ℕ
    → Attempts Body
    → Result (Arrival Body)
after_attempts w p e started (settled attempt body s) =
    ok (stamp_arrival w started body attempt false 0 s)
after_attempts w p e started (spent s) =
    if s.queried_ok && ltb 0 (remaining w started s)
    then extend w p e started s
    else finish w p e started false s

-- `poll_until_present`, from the time at which it starts
unfoldable pub poll_until_present :
    {Body : Type 0} → Store → PollingSettings → Evaluator Body → ℕ → Result (Arrival Body)
unfolding attempts_from extend finish stamp_arrival start
poll_until_present w p e started =
    attempts_from w p e p.retries 1 (start started) >>= after_attempts w p e started
