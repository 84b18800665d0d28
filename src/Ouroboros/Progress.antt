-- ===== src/Ouroboros/Progress.antt =====
-- An event that passes every guard of `step` of src/ooptdd/ouroboros/reducer.py is taken up: the
-- constructor of the snapshot never refuses what `step` builds.
use ooptdd.Base.{
  ◌≡◌, refl, sym, ap, ◌∙◌, ℕ, suc, true, false, ◌&&◌, none, String, str_eq, str_eq→eq, str_eq_refl,
  eq→str_eq, subst, List, [], ◌∷◌, ◌++◌, find, all, all-append, length, length-append, ltb, leb,
  ◌==◌, ok, arith, &&_true,
}
use ooptdd.Ouroboros.Model.{
  Host, mem, ProtocolEvent, ProtocolSnapshot, TransitionRecord, TransitionRule, record_ok,
  snapshot_ok, is_text, is_digest, is_integer, max_integer, distinct, ids, path_to, bound_to,
}
use ooptdd.Ouroboros.Distinct.{str_eq_sym, distinct-append_last}
use ooptdd.Ouroboros.Reducer.{
  PolicyEvaluator, accept, record_of, extended, commit, apply_rule, admit, same_event,
  replay_or_admit, policy_matches, attempt, step,
}
use ooptdd.Ouroboros.Outcome.{Passed, Ready}

-- What `snapshot_ok` says
pub record Fits (host : Host) (s : ProtocolSnapshot) : Type 0 where
  pub workflow : is_text host s.workflow_id ≡ true
  pub text : is_text host s.state ≡ true
  pub policy : is_digest s.policy_digest ≡ true
  pub generation : is_integer 0 s.generation ≡ true
  pub revision : is_integer 0 s.revision ≡ true
  pub steps : is_integer 0 s.steps_used ≡ true
  pub early : ltb s.generation s.budget.max_generations ≡ true
  pub within : leb s.steps_used s.budget.max_steps ≡ true
  pub own : distinct (ids s.history) ≡ true
  pub counted : (s.revision == length s.history) ≡ true
  pub charged : (s.steps_used == length s.history) ≡ true
  pub path : path_to s.state s.history ≡ true
  pub bound : all (bound_to s.policy_digest) s.history ≡ true

pub snapshot_ok-Fits :
    (host : Host) (s : ProtocolSnapshot) → snapshot_ok host s ≡ true → Fits host s
unfolding snapshot_ok
snapshot_ok-Fits host s fits =
    let a = is_text host s.workflow_id in
    let b = is_text host s.state in
    let c = is_digest s.policy_digest in
    let d = is_integer 0 s.generation in
    let e = is_integer 0 s.revision in
    let f = is_integer 0 s.steps_used in
    let g = ltb s.generation s.budget.max_generations in
    let h = leb s.steps_used s.budget.max_steps in
    let i = distinct (ids s.history) in
    let j = (s.revision == length s.history) && (s.steps_used == length s.history) in
    let k = path_to s.state s.history && all (bound_to s.policy_digest) s.history in
    let p0 = &&_true a (b && (c && (d && (e && (f && (g && (h && (i && (j && k))))))))) fits in
    let p1 = &&_true b (c && (d && (e && (f && (g && (h && (i && (j && k)))))))) p0.1 in
    let p2 = &&_true c (d && (e && (f && (g && (h && (i && (j && k))))))) p1.1 in
    let p3 = &&_true d (e && (f && (g && (h && (i && (j && k)))))) p2.1 in
    let p4 = &&_true e (f && (g && (h && (i && (j && k))))) p3.1 in
    let p5 = &&_true f (g && (h && (i && (j && k)))) p4.1 in
    let p6 = &&_true g (h && (i && (j && k))) p5.1 in
    let p7 = &&_true h (i && (j && k)) p6.1 in
    let p8 = &&_true i (j && k) p7.1 in
    let q = &&_true j k p8.1 in
    let r = &&_true (s.revision == length s.history) (s.steps_used == length s.history) q.0 in
    let t = &&_true (path_to s.state s.history) (all (bound_to s.policy_digest) s.history) q.1 in
    record {
      workflow = p0.0;
      text = p1.0;
      policy = p2.0;
      generation = p3.0;
      revision = p4.0;
      steps = p5.0;
      early = p6.0;
      within = p7.0;
      own = p8.0;
      counted = r.0;
      charged = r.1;
      path = t.0;
      bound = t.1;
    }

pub Fits-snapshot_ok :
    (host : Host) (s : ProtocolSnapshot) → Fits host s → snapshot_ok host s ≡ true
unfolding snapshot_ok
Fits-snapshot_ok host s f =
    rw
      (
        f.workflow, f.text, f.policy, f.generation, f.revision, f.steps, f.early, f.within, f.own,
        f.counted, f.charged, f.path, f.bound,
      )
      refl

ids-append :
    (rs : List TransitionRecord) (r : TransitionRecord)
    → ids (rs ++ (r ∷ [])) ≡ ids rs ++ (r.event_id ∷ [])
ids-append [] r = refl
ids-append (x ∷ rs) r = ap (λ ys. x.event_id ∷ ys) (ids-append rs r)

-- The history does not know the identity of an event that it does not hold.
mem-ids :
    (e : ProtocolEvent) (rs : List TransitionRecord)
    → find (same_event e) rs ≡ none
    → mem e.event_id (ids rs) ≡ false
mem-ids e [] t = refl
mem-ids e (r ∷ rs) t = ground (arith, mem-ids e rs, str_eq_sym e.event_id r.event_id)

path_to-append :
    (state : String) (rs : List TransitionRecord) (r : TransitionRecord)
    → path_to state rs ≡ true
    → str_eq r.source state ≡ true
    → path_to r.target (rs ++ (r ∷ [])) ≡ true
path_to-append state [] r t u = str_eq_refl r.target
path_to-append state (x ∷ []) r t u =
    rw (eq→str_eq x.target r.source (str_eq→eq x.target state t ∙ sym (str_eq→eq r.source state u)))
      (str_eq_refl r.target)
path_to-append state (x ∷ (y ∷ rs)) r t u =
    let a = &&_true (str_eq x.target y.source) (path_to state (y ∷ rs)) t in
    rw a.0 (path_to-append state (y ∷ rs) r a.1 u)

room :
    (used bound : ℕ)
    → leb bound used ≡ false
    → leb bound max_integer ≡ true
    → is_integer 0 (suc used) ≡ true
room used bound a b = ground arith

within_budget : (used bound : ℕ) → leb bound used ≡ false → leb (suc used) bound ≡ true
within_budget used bound a = ground arith

counted_append :
    (n : ℕ) (rs : List TransitionRecord) (r : TransitionRecord)
    → (n == length rs) ≡ true
    → (suc n == length (rs ++ (r ∷ []))) ≡ true
counted_append n rs r t = let e = length-append rs (r ∷ []) in ground (arith, e, t)

same_count : (a b n : ℕ) → (a == n) ≡ true → (b == n) ≡ true → a ≡ b
same_count a b n t u = ground arith

module _ (host : Host) (ev : PolicyEvaluator) (s : ProtocolSnapshot) (e : ProtocolEvent)
    (rule : TransitionRule) where
  abbrev digest : String
  digest = host.definition_digest ev.definition

  abbrev taken : TransitionRecord
  taken = record_of host digest s e rule

  extended-Fits :
      Fits host s
      → Passed host ev s e rule
      → leb s.budget.max_steps max_integer ≡ true
      → is_text host rule.target ≡ true
      → str_eq s.policy_digest digest ≡ true
      → Fits host (extended s taken)
  extended-Fits f p small target same =
      let used = room s.steps_used s.budget.max_steps p.budget small in
      let equal = same_count s.revision s.steps_used (length s.history) f.counted f.charged in
      record {
        workflow = f.workflow;
        text = target;
        policy = f.policy;
        generation = f.generation;
        revision = subst (λ n. is_integer 0 (suc n) ≡ true) (sym equal) used;
        steps = used;
        early = f.early;
        within = within_budget s.steps_used s.budget.max_steps p.budget;
        own =
            rw (ids-append s.history taken) (
              distinct-append_last (ids s.history) e.event_id f.own (mem-ids e s.history p.unseen));
        counted = counted_append s.revision s.history taken f.counted;
        charged = counted_append s.steps_used s.history taken f.charged;
        path = path_to-append s.state s.history taken f.path (str_eq_refl s.state);
        bound =
            all-append (bound_to s.policy_digest) s.history (taken ∷ [])
            ∙ rw (f.bound) (rw (str_eq_sym digest s.policy_digest ∙ same) refl);
      }

  policy_of : policy_matches ev digest s e ≡ true → str_eq s.policy_digest digest ≡ true
  unfolding policy_matches
  policy_of t =
      let a = str_eq ev.version ev.definition.evaluator_version in
      let b = str_eq ev.policy_digest digest in
      let c = str_eq s.policy_digest digest in
      let d = str_eq e.policy_digest digest in
      (&&_true c d (&&_true b (c && d) (&&_true a (b && (c && d)) t).1).1).0

  target_of : record_ok host taken ≡ true → is_text host rule.target ≡ true
  unfolding record_ok
  target_of t = ground arith

  apply_rule-ok :
      Ready host ev s e rule
      → record_ok host taken ≡ true
      → snapshot_ok host (extended s taken) ≡ true
      → apply_rule host ev digest s e rule ≡ ok (accept false (extended s taken))
  unfolding apply_rule commit
  apply_rule-ok g t u = simp (g.valid, g.recovery, g.complete, t, u)

  admit-ok :
      Passed host ev s e rule
      → apply_rule host ev digest s e rule ≡ ok (accept false (extended s taken))
      → admit host ev digest s e ≡ ok (accept false (extended s taken))
  unfolding admit
  admit-ok g t = simp (g.budget, g.known_state, g.live, g.known_event, g.found, t)

  step-ok :
      Passed host ev s e rule
      → admit host ev digest s e ≡ ok (accept false (extended s taken))
      → step host ev s e ≡ accept false (extended s taken)
  unfolding step attempt replay_or_admit
  step-ok g t = simp (g.policy, g.unseen, t)

  -- An event for which every guard of `step` has passed is accepted: the snapshot is the one before
  -- with the record of the event, the state of its rule, and one revision and one step more. This is
  -- for a snapshot that its constructor accepts, a budget within the interoperable integers, and a
  -- record of texts and digests.
  pub step-taken :
      snapshot_ok host s ≡ true
      → leb s.budget.max_steps max_integer ≡ true
      → Ready host ev s e rule
      → record_ok host taken ≡ true
      → step host ev s e ≡ accept false (extended s taken)
  step-taken fits small g t = step-ok g.passed (
      admit-ok g.passed (
        apply_rule-ok g t (
          Fits-snapshot_ok host (extended s taken) (
            extended-Fits (snapshot_ok-Fits host s fits) g.passed small (target_of t)
              (policy_of g.passed.policy)))))
