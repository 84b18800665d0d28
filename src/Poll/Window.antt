-- ===== src/Poll/Window.antt =====
-- What the arrival loop guarantees of the body that it returns.
use ooptdd.Base.{◌≡◌, ℕ, suc, ◌+◌, ◌-◌, ◌/◌, ◌≤◌, true, false, some, ok}
use ooptdd.Poll.{
  PollingSettings, Store, Evaluator, State, Attempts, settled, spent, Arrival, seconds, sleep,
  query, judge,
}
use ooptdd.Poll.Seen.{Seen}

module _ {Body : Type 0} (w : Store) (p : PollingSettings) (e : Evaluator Body) (started : ℕ) where
  -- The most reads that the loop makes
  abbrev pub most : ℕ
  most = p.retries + 1 + p.confirm_rounds

  -- A body that an evaluation of a prefix settled before the last one
  pub record Early (a : Arrival Body) : Type 0 where
    pub state : State
    pub seen : Seen w started state
    pub judged : judge e a.attempts false state ≡ ok (some a.body)
    pub unconfirmed : a.confirm_rounds_run ≡ 0
    pub bounded : state.reads ≤ most

  -- The rounds that confirm a body: each follows on a green body, reads the store once more and has
  -- its own final evaluation.
  pub data Rounds (first : State) (body : Body) : ℕ → State → Body → Type 0 where
    unconfirmed : Rounds first body 0 first body
    confirmed :
        {n : ℕ} {s : State} {b : Body}
        → Rounds first body n s b
        → e.is_green b ≡ true
        → (s' : State) → query w (sleep w (seconds p.confirm_delay_s) s) ≡ ok s'
        → (b' : Body) → judge e p.retries true s' ≡ ok (some b')
        → Rounds first body (suc n) s' b'

  -- A body that a final evaluation gave, of the state `last`; `first` is that of the first one.
  pub record Late (a : Arrival Body) : Type 0 where
    pub first : State
    pub first_body : Body
    pub first_judged : judge e p.retries true first ≡ ok (some first_body)
    pub last : State
    pub rounds : Rounds first first_body a.confirm_rounds_run last a.body
    pub seen_first : Seen w started first
    pub seen_last : Seen w started last
    pub judged : judge e p.retries true last ≡ ok (some a.body)
    pub covered : first.queried_ok ≡ true → w.visibility_us ≤ first.now - started
    pub later : first.now ≤ last.now
    pub confirmed : e.is_green a.body ≡ true → a.confirm_rounds_run ≡ p.confirm_rounds
    pub waited : a.waited_ms ≡ (last.now - started) / 1000
    pub bounded : last.reads ≤ most

  pub data Ends (a : Arrival Body) : Type 0 where
    early : Early a → Ends a
    late : Late a → Ends a

  -- Where the attempts end: with a body that an evaluation settled, or with all of them made
  data Tried (limit : ℕ) : Attempts Body → Type 0 where
    tried_settled :
        (attempt : ℕ) (body : Body) (s : State)
        → judge e attempt false s ≡ ok (some body)
        → Seen w started s
        → s.reads ≤ limit
        → Tried limit (settled attempt body s)
    tried_spent :
        (s : State) → Seen w started s → started ≤ s.now → s.reads ≤ limit → Tried limit (spent s)
