-- ===== src/Poll/Seen.antt =====
-- What the variables of `poll_until_present` (src/ooptdd/engine/verify.py) say of the store: the reads
-- that were made, apart from how the loop makes them, and the events that they returned.
use ooptdd.Base.{
  ◌≡◌, refl, subst, ℕ, suc, ◌+◌, Bool, true, false, ◌||◌, List, [], ◌∷◌, any, ok, >>=-eq-ok,
  ok-injective, arith,
}
use ooptdd.Value.{Event}
use ooptdd.Poll.{Pause, Store, QueryResult, State, start, sleep, noted, query}
use ooptdd.Poll.Sorting.{sorted}

module _ (w : Store) (started : ℕ) where
  -- The reads of the store and the pauses between them: how many reads were made by what time, and
  -- what they answered, the last one first
  pub data Reading : ℕ → ℕ → List QueryResult → Type 0 where
    begins : Reading 0 started []
    pauses :
        {n t : ℕ} {rs : List QueryResult} (p : Pause)
        → Reading n t rs
        → Reading n (t + w.slept n p) rs
    reads :
        {n t : ℕ} {rs : List QueryResult}
        → Reading n t rs
        → Reading (suc n) (t + w.read_time n) (w.reply n t ∷ rs)

  -- The variables hold the last answer, its events in the order of the stream.
  pub data Shows (s : State) : List QueryResult → Type 0 where
    nothing : s.last_events ≡ [] → s.last_reachable ≡ false → s.last_complete ≡ true → Shows s []
    answer :
        {r : QueryResult} {rs : List QueryResult}
        → sorted r.events ≡ ok s.last_events
        → s.last_reachable ≡ r.reachable
        → s.last_complete ≡ r.complete
        → s.last_retry_after ≡ r.retry_after_s
        → Shows s (r ∷ rs)

  -- The variables of the loop after some reads of the store
  pub record Seen (s : State) : Type 0 where
    pub answers : List QueryResult
    pub reading : Reading s.reads s.now answers
    pub shows : Shows s answers
    pub answered : s.queried_ok ≡ any (λ (r : QueryResult). r.reachable) answers

  pub start-Seen : Seen (start started)
  unfolding start
  start-Seen = record {
    answers = [];
    reading = begins;
    shows = nothing refl refl refl;
    answered = refl;
  }

  sleep-Shows :
      (s : State) (p : Pause) (rs : List QueryResult) → Shows s rs → Shows (sleep w p s) rs
  unfolding sleep
  sleep-Shows s p _ (nothing a b c) = nothing a b c
  sleep-Shows s p _ (answer a b c d) = answer a b c d

  pub sleep-Seen : (s : State) (p : Pause) → Seen s → Seen (sleep w p s)
  unfolding sleep
  sleep-Seen s p k = record {
    answers = k.answers;
    reading = pauses p k.reading;
    shows = sleep-Shows s p k.answers k.shows;
    answered = k.answered;
  }

  noted-Seen :
      (s : State) (events : List Event)
      → sorted (w.reply s.reads s.now).events ≡ ok events
      → Seen s
      → Seen (noted w s (w.reply s.reads s.now) events)
  noted-Seen s events e k = record {
    answers = w.reply s.reads s.now ∷ k.answers;
    reading = reads k.reading;
    shows = answer e refl refl refl;
    answered = either s.queried_ok (w.reply s.reads s.now).reachable _ k.answered;
  }
    where
      either : (a b c : Bool) → a ≡ c → (a || b) ≡ (b || c)
      either a b c t = ground (arith, t)

  pub query-Seen : (s s' : State) → query w s ≡ ok s' → Seen s → Seen s'
  unfolding query
  query-Seen s s' h k =
      let (events, e, h') =
        >>=-eq-ok (sorted (w.reply s.reads s.now).events)
          (λ events. ok (noted w s (w.reply s.reads s.now) events)) h in
      subst Seen (ok-injective h') (noted-Seen s events e k)
