-- ===== src/Verify/Tests.antt =====
-- The theorem on `verify_gate` at a store that has the paid event from the start.
use ooptdd.Base.{◌≡◌, refl, ℕ, true, none, pos}
use ooptdd.Value.{int}
use ooptdd.Poll.{PollingSettings, Pause, seconds, rest_of_window, Store, Arrival}
use ooptdd.Gate.Samples.{is_ok, value_of, py, crypto, request, seen}
use ooptdd.Monitor.Stream.{timestamp, sequence}
use ooptdd.Match.{resolve_matcher}
use ooptdd.Match.Label.{matcher_label}
use ooptdd.Monitor.{step}
use ooptdd.Monitor.Count
use ooptdd.Monitor.Absent
use ooptdd.Gate.Handlers.{run}
use ooptdd.Verify.{Body, verify_gate}

abbrev slept : Pause → ℕ
slept (seconds x) = 1_000_000
slept (rest_of_window us) = us

abbrev store : Store
store = record {
  reply = λ n t. record { events = seen; reachable = true; complete = true; retry_after_s = none };
  read_time = λ n. 10;
  slept = λ n. slept;
  visibility_us = 0;
  flush = none;
  times = λ a b. a;
  power = λ a n. a;
}

abbrev settings : PollingSettings
settings = record {
  retries = 2;
  delay = int (pos 1);
  backoff = int (pos 2);
  max_delay = int (pos 30);
  confirm_rounds = 1;
  confirm_delay_s = int (pos 1);
}

arrived_ok : is_ok (verify_gate py crypto request true store settings 0) ≡ true
unfolding verify_gate timestamp sequence run resolve_matcher step Count.step Count.new
    Count.collapse Absent.new matcher_label Absent.step Absent.matches_any Absent.collapse
arrived_ok = refl

unfoldable arrived : Arrival Body
arrived = value_of (verify_gate py crypto request true store settings 0) arrived_ok
