-- ===== src/Ouroboros/Replay.antt =====
-- What holds of `step` on every snapshot: what it keeps, when it is absorbing, and that it may be
-- repeated.
use ooptdd.Base.{◌≡◌, refl, true, false, some, String, find, find-append_last, str_eq_refl}
use ooptdd.Ouroboros.Model.{
  Host, mem, ProtocolEvent, ProtocolSnapshot, TransitionRecord, snapshot_ok,
}
use ooptdd.Ouroboros.Reducer.{
  PolicyEvaluator, TransitionResult, accept, record_of, extended, same_event, replay_or_admit,
  policy_matches, attempt, step,
}
use ooptdd.Ouroboros.Outcome.{Outcome, rejected, replayed, advanced, step-Outcome}

module _ (host : Host) (ev : PolicyEvaluator) (s : ProtocolSnapshot) (e : ProtocolEvent) where
  abbrev digest : String
  digest = host.definition_digest ev.definition

  outcome-keeps_ok :
      {r : TransitionResult}
      → Outcome host ev s e r
      → snapshot_ok host s ≡ true
      → snapshot_ok host r.snapshot ≡ true
  outcome-keeps_ok (rejected code) h = h
  outcome-keeps_ok (replayed p) h = h
  outcome-keeps_ok (advanced rule a) h = a.snapshot_fits

  pub step-snapshot_ok :
      snapshot_ok host s ≡ true → snapshot_ok host (step host ev s e).snapshot ≡ true
  step-snapshot_ok h = outcome-keeps_ok (step-Outcome host ev s e) h

  outcome_terminal :
      {r : TransitionResult}
      → Outcome host ev s e r
      → mem s.state ev.definition.completion.terminal_states ≡ true
      → r.snapshot ≡ s
  outcome_terminal (rejected code) h = refl
  outcome_terminal (replayed p) h = refl
  outcome_terminal (advanced rule a) h = cc (a.ready.passed.live)

  -- A terminal state is absorbing: no event changes the snapshot.
  pub terminal_absorbs :
      mem s.state ev.definition.completion.terminal_states ≡ true → (step host ev s e).snapshot ≡ s
  terminal_absorbs h = outcome_terminal (step-Outcome host ev s e) h

  outcome_refused :
      {r : TransitionResult} → Outcome host ev s e r → r.accepted ≡ false → r.snapshot ≡ s
  outcome_refused (rejected code) h = refl
  outcome_refused (replayed p) h = cc
  outcome_refused (advanced rule a) h = cc

  replays :
      (t : ProtocolSnapshot) (r : TransitionRecord)
      → policy_matches ev digest t e ≡ true
      → find (same_event e) t.history ≡ some r
      → r.intent_digest ≡ host.intent_digest e
      → r.policy_digest ≡ digest
      → step host ev t e ≡ accept true t
  unfolding step attempt replay_or_admit
  replays t r p f i d = rw (
    p,
    f,
    i,
    d,
    str_eq_refl (host.intent_digest e),
    str_eq_refl (host.definition_digest ev.definition),
  )

  outcome_again :
      {r : TransitionResult}
      → Outcome host ev s e r
      → step host ev s e ≡ r
      → r.accepted ≡ true
      → step host ev r.snapshot e ≡ accept true r.snapshot
  unfolding policy_matches
  outcome_again (rejected code) q h = cc
  outcome_again (replayed p) q h = q
  outcome_again (advanced rule a) q h =
      replays (extended s (record_of host digest s e rule)) (record_of host digest s e rule)
        a.ready.passed.policy
        (find-append_last (same_event e) s.history (record_of host digest s e rule)
          a.ready.passed.unseen (str_eq_refl e.event_id))
        refl refl

  -- Delivering an accepted event again is harmless: the second delivery is accepted as a replay and
  -- leaves the snapshot of the first as it is.
  pub step_again :
      (step host ev s e).accepted ≡ true
      → step host ev (step host ev s e).snapshot e ≡ accept true (step host ev s e).snapshot
  step_again h = outcome_again (step-Outcome host ev s e) refl h

  -- An event that is not accepted leaves the snapshot as it was.
  pub refused_unchanged : (step host ev s e).accepted ≡ false → (step host ev s e).snapshot ≡ s
  refused_unchanged h = outcome_refused (step-Outcome host ev s e) h
