-- ===== src/Ouroboros/Outcome.antt =====
-- Every way in which `step` can end, with what each of them tells of the event and the snapshot.
use ooptdd.Base.{
  Bool-cases, inl, inr, not-false, ◌≡◌, refl, ap, ◌∙◌, true, false, Option, none, some, String,
  str_eq, ◌&&◌, find, not, leb, Result, ok, Returns, returned, raised, Returns-bind, Returns-split,
}
use ooptdd.Ouroboros.Model.{
  Host, mem, ProtocolEvent, ProtocolSnapshot, TransitionRecord, TransitionRule, record_ok,
  snapshot_ok,
}
use ooptdd.Ouroboros.Reducer.{
  dispatch, PolicyEvaluator, Rejection, TransitionResult, reject, accept, payload_valid,
  recovery_allows, completes, record_of, extended, commit, apply_rule, find_rule, admit, same_event,
  replay_or_admit, policy_matches, attempt, rescue, step,
}

module _ (host : Host) (ev : PolicyEvaluator) (s : ProtocolSnapshot) (e : ProtocolEvent) where
  abbrev digest : String
  digest = host.definition_digest ev.definition

  -- The guards that `admit` passes before it applies a rule
  pub record Passed (rule : TransitionRule) : Type 0 where
    pub policy : policy_matches ev digest s e ≡ true
    pub unseen : find (same_event e) s.history ≡ none
    pub budget : leb s.budget.max_steps s.steps_used ≡ false
    pub known_state : mem s.state ev.definition.states ≡ true
    pub live : mem s.state ev.definition.completion.terminal_states ≡ false
    pub known_event : mem e.kind ev.definition.events ≡ true
    pub found : find_rule ev.definition s.state e.kind ≡ some rule

  -- … and those that `apply_rule` passes before it commits
  pub record Ready (rule : TransitionRule) : Type 0 where
    pub passed : Passed rule
    pub valid : payload_valid ev rule.validator e.payload ≡ ok true
    pub recovery : recovery_allows ev.definition.recovery s.state e.kind ≡ true
    pub complete : completes ev rule.target e.payload ≡ ok true

  -- What an accepted event has been checked for
  pub record Accepts (rule : TransitionRule) : Type 0 where
    pub ready : Ready rule
    pub record_fits : record_ok host (record_of host digest s e rule) ≡ true
    pub snapshot_fits : snapshot_ok host (extended s (record_of host digest s e rule)) ≡ true

  -- A record of the history with the event's identity, intent and policy
  pub record Known : Type 0 where
    pub policy : policy_matches ev digest s e ≡ true
    pub prior : TransitionRecord
    pub found : find (same_event e) s.history ≡ some prior
    pub same :
        (str_eq prior.intent_digest (host.intent_digest e) && str_eq prior.policy_digest digest)
        ≡ true

  pub data Outcome : TransitionResult → Type 0 where
    rejected : (code : Rejection) → Outcome (reject s code)
    replayed : Known → Outcome (accept true s)
    advanced :
        (rule : TransitionRule)
        → Accepts rule
        → Outcome (accept false (extended s (record_of host digest s e rule)))

  commit-Outcome :
      (rule : TransitionRule)
      → (record_ok host (record_of host digest s e rule) ≡ true
          → snapshot_ok host (extended s (record_of host digest s e rule)) ≡ true
          → Accepts rule)
      → Returns Outcome (commit host digest s e rule)
  unfolding commit
  commit-Outcome rule k = elim (Bool-cases (record_ok host (record_of host digest s e rule))) [
    | inl p ↦
        rw p (elim (Bool-cases (snapshot_ok host (extended s (record_of host digest s e rule)))) [
          | inl q ↦ rw q (returned (advanced rule (k p q)))
          | inr q ↦ rw q raised
        ])
    | inr p ↦ rw p raised
  ]

  apply_rule-Outcome :
      (rule : TransitionRule) → Passed rule → Returns Outcome (apply_rule host ev digest s e rule)
  unfolding apply_rule
  apply_rule-Outcome rule g =
      Returns-bind Outcome (payload_valid ev rule.validator e.payload) _ (λ valid v.
        Returns-split Outcome _ _ _ (λ _. returned (rejected Rejection.invalid_payload))
          (λ p.
            Returns-split Outcome _ _ _ (λ _. returned (rejected Rejection.recovery_policy_denied))
              (λ q. Returns-bind Outcome (completes ev rule.target e.payload) _ (λ complete c.
                Returns-split Outcome complete _ _
                  (λ t. commit-Outcome rule (λ fits holds. record {
                    ready = record {
                      passed = g;
                      valid = v ∙ ap ok (not-false valid p);
                      recovery = not-false _ q;
                      complete = c ∙ ap ok t;
                    };
                    record_fits = fits;
                    snapshot_fits = holds;
                  }))
                  (λ _. returned (rejected Rejection.completion_policy_failed))))))

  dispatch-Outcome :
      (r : Option TransitionRule)
      → find_rule ev.definition s.state e.kind ≡ r
      → ((rule : TransitionRule) → r ≡ some rule → Passed rule)
      → Returns Outcome (dispatch host ev digest s e r)
  dispatch-Outcome none f k = returned (rejected Rejection.unknown_transition)
  dispatch-Outcome (some rule) f k = apply_rule-Outcome rule (k rule refl)

  admit-Outcome :
      policy_matches ev digest s e ≡ true
      → find (same_event e) s.history ≡ none
      → Returns Outcome (admit host ev digest s e)
  unfolding admit
  admit-Outcome policy unseen =
      Returns-split Outcome _ _ _ (λ _. returned (rejected Rejection.step_budget_exhausted))
        (λ budget.
          Returns-split Outcome (not (mem s.state ev.definition.states)) _ _
            (λ _. returned (rejected Rejection.unknown_state))
            (λ state.
              Returns-split Outcome _ _ _ (λ _. returned (rejected Rejection.terminal_state))
                (λ live.
                  Returns-split Outcome (not (mem e.kind ev.definition.events)) _ _
                    (λ _. returned (rejected Rejection.unknown_event))
                    (λ kind.
                      dispatch-Outcome (find_rule ev.definition s.state e.kind) refl (λ rule f.
                        record {
                          policy = policy;
                          unseen = unseen;
                          budget = budget;
                          known_state = not-false _ state;
                          live = live;
                          known_event = not-false _ kind;
                          found = f;
                        })))))

  replay_or_admit-Outcome :
      (prior : Option TransitionRecord)
      → policy_matches ev digest s e ≡ true
      → find (same_event e) s.history ≡ prior
      → Returns Outcome (replay_or_admit host ev digest s e prior)
  unfolding replay_or_admit
  replay_or_admit-Outcome none policy f = admit-Outcome policy f
  replay_or_admit-Outcome (some prior) policy f =
      Returns-split Outcome _ _ _
        (λ t. returned (replayed (record { policy = policy; prior = prior; found = f; same = t })))
        (λ _. returned (rejected Rejection.event_identity_conflict))

  attempt-Outcome : Returns Outcome (attempt host ev s e)
  unfolding attempt
  attempt-Outcome =
      Returns-split Outcome _ _ _
        (λ policy. replay_or_admit-Outcome (find (same_event e) s.history) policy refl)
        (λ _. returned (rejected Rejection.policy_mismatch))

  rescue-Outcome : {r : Result TransitionResult} → Returns Outcome r → Outcome (rescue s r)
  rescue-Outcome (returned o) = o
  rescue-Outcome raised = rejected Rejection.evaluator_failure

  -- Every call of `step` ends in one of three ways: it rejects the event and gives the snapshot back
  -- as it was; it replays an event that the history holds with its intent and policy, and gives the
  -- snapshot back as it was; or it appends one record, after every guard: the policy matches, the
  -- event is new, a step is left, the state and the event are known, the state is not terminal, the
  -- definition has the rule, and payload, recovery, completion and the constructors agree.
  pub step-Outcome : Outcome (step host ev s e)
  unfolding step
  step-Outcome = rescue-Outcome attempt-Outcome
