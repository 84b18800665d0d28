-- ===== src/Poll/Tests.antt =====
-- The theorem on the arrival loop at a store that shows its event only after its blind window.
use ooptdd.Base.{ℕ, leb, Bool, true, false, Option, none, some, pos, List, [], ◌∷◌, ok}
use ooptdd.Value.{int, num, str, field, end, Event}
use ooptdd.Poll.{PollingSettings, Pause, seconds, rest_of_window, Store, Evaluator, Arrival}

abbrev arrived : Event
arrived = field "event" (str "paid") (field "_timestamp" (num (int (pos 7))) end)

abbrev slept : Pause → ℕ
slept (seconds x) = 1_000_000
slept (rest_of_window us) = us

-- The event is visible 5 seconds after the start.
abbrev shown : Bool → List Event
shown true = arrived ∷ []
shown false = []

abbrev store : Store
store = record {
  reply = λ n t. record {
    events = shown (leb 5_000_000 t);
    reachable = true;
    complete = true;
    retry_after_s = none;
  };
  read_time = λ n. 10;
  slept = λ n. slept;
  visibility_us = 5_000_000;
  flush = none;
  times = λ a b. a;
  power = λ a n. a;
}

abbrev settings : PollingSettings
settings = record {
  retries = 2;
  delay = int (pos 1);
  backoff = int (pos 2);
  max_delay = int (pos 30);
  confirm_rounds = 1;
  confirm_delay_s = int (pos 1);
}

abbrev verdict : List Event → Bool → Option Bool
verdict events false = none
verdict [] true = some false
verdict (_ ∷ _) true = some true

-- It settles only at the end: green if there is an event.
abbrev arrival : Evaluator Bool
arrival = record {
  evaluate = λ events reachable complete queried attempt final. ok (verdict events final);
  is_green = λ b. b;
}

abbrev green : Arrival Bool
green = record {
  body = true;
  attempts = 2;
  visibility_delay_ms = 5000;
  waited_ms = 6000;
  flushed = false;
  extended = true;
  confirm_rounds_run = 1;
}
