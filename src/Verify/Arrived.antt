-- ===== src/Verify/Arrived.antt =====
-- What an arrival that `verify_gate` reports rests on.
use ooptdd.Base.{◌≡◌, ℕ, Bool, true, ok}
use ooptdd.Builtins.{Builtins}
use ooptdd.Chain.{Crypto}
use ooptdd.Poll.{PollingSettings, Store, Arrival, State}
use ooptdd.Poll.Seen.{Seen}
use ooptdd.Gate.Settle.{settled_green}
use ooptdd.Gate.Shell.{Request, evaluate_events}
use ooptdd.Verify.{Body, early_body, final_body}

-- How an arrival was settled: on a poll before the last, or on a final one that every round confirmed
pub data Settled (py : Builtins) (p : PollingSettings) (a : Arrival Body) : Type 0 where
  at_once : a.body ≡ early_body a.body.gate → settled_green a.body.gate ≡ true → Settled py p a
  at_last :
      a.body ≡ final_body py a.body.gate
      → (a.body.ok? ≡ true → a.confirm_rounds_run ≡ p.confirm_rounds)
      → Settled py p a

module _ (py : Builtins) (crypto : Crypto) (q : Request) (settle_early : Bool) (w : Store)
    (p : PollingSettings) (started : ℕ) where
  -- The one judgement that an arrival reports
  pub record Verified (a : Arrival Body) : Type 0 where
    pub state : State
    pub seen : Seen w started state
    pub judged :
        evaluate_events py crypto q state.last_events state.last_reachable state.last_complete
        ≡ ok a.body.gate
    pub settled : Settled py p a
