-- ===== src/Ouroboros/History.antt =====
-- Runs of the reducer, and the receipts of the snapshots that they reach.
use ooptdd.Base.{
  ◌≡◌, refl, subst, Bool, true, false, some, String, str_eq, List, [], ◌∷◌, ◌++◌, find, any, all,
  all-append, str_eq_refl, ok, ℕ, arith, ok-injective,
}
use ooptdd.Ouroboros.Model.{
  Host, mem, ProtocolBudget, ProtocolDefinition, ProtocolEvent, ProtocolSnapshot, TransitionRecord,
  TransitionRule, RevisionIdentity, snapshot_ok, is_digest, keyed, initial, construct,
  first_snapshot,
}
use ooptdd.Ouroboros.Reducer.{PolicyEvaluator, TransitionResult, record_of, step}
use ooptdd.Ouroboros.Receipt.{
  declares, declared, definition_history_errors, body_of, bound_to_policy, receipt_from_snapshot,
  Seal, receipt_ok,
}
use ooptdd.Ouroboros.Replay.{step-snapshot_ok}
use ooptdd.Ouroboros.Progress.{snapshot_ok-Fits}
use ooptdd.Ouroboros.Outcome.{Outcome, rejected, replayed, advanced, step-Outcome}

-- A client that feeds events to `step` one by one
unfoldable pub run :
    Host → PolicyEvaluator → ProtocolSnapshot → List ProtocolEvent → ProtocolSnapshot
run host ev s [] = s
run host ev s (e ∷ es) = run host ev (step host ev s e).snapshot es

declares_found :
    (host : Host) (d : String) (ts : List TransitionRule) (s : ProtocolSnapshot) (e : ProtocolEvent)
    (rule : TransitionRule)
    → find (keyed s.state e.kind) ts ≡ some rule
    → any (declares (record_of host d s e rule)) ts ≡ true
declares_found host d [] s e rule h = cc
declares_found host d (t ∷ ts) s e rule h =
    ground (arith, declares_found host d ts s e rule, str_eq_refl rule.target)

all-declared :
    (ts : List TransitionRule) (rs : List TransitionRecord) (r : TransitionRecord)
    → all (declared ts) rs ≡ true
    → declared ts r ≡ true
    → all (declared ts) (rs ++ (r ∷ [])) ≡ true
all-declared ts rs r h k = rw (all-append (declared ts) rs (r ∷ [])) (ground arith)

-- A record whose source is the state reached extends a faithful history.
extend_history :
    (d : ProtocolDefinition) (state : String) (rs : List TransitionRecord) (r : TransitionRecord)
    → r.source ≡ state
    → declared d.transitions r ≡ true
    → definition_history_errors state rs d ≡ []
    → definition_history_errors r.target (rs ++ (r ∷ [])) d ≡ []
unfolding definition_history_errors
extend_history d state [] r p q h = ground arith
extend_history d state (x ∷ rs) r p q h = ground (arith, all-declared d.transitions (x ∷ rs) r)

-- The history of the snapshot is one that its definition allows, and its policy is the evaluator's.
abbrev pub IsFaithful : Host → PolicyEvaluator → ProtocolSnapshot → Type 0
IsFaithful host ev s =
    (definition_history_errors s.state s.history ev.definition ≡ [])
    × (bound_to_policy host ev s ≡ true)

outcome-IsFaithful :
    (host : Host) (ev : PolicyEvaluator) (s : ProtocolSnapshot) (e : ProtocolEvent)
    {r : TransitionResult}
    → Outcome host ev s e r
    → IsFaithful host ev s
    → IsFaithful host ev r.snapshot
unfolding bound_to_policy
outcome-IsFaithful host ev s e (rejected code) h = h
outcome-IsFaithful host ev s e (replayed p) h = h
outcome-IsFaithful host ev s e (advanced rule a) h = (
  extend_history ev.definition s.state s.history
      (record_of host (host.definition_digest ev.definition) s e rule) refl
      (declares_found host (host.definition_digest ev.definition) ev.definition.transitions s e rule
        a.ready.passed.found)
      h.0,
  h.1,
)

run-IsFaithful :
    (host : Host) (ev : PolicyEvaluator) (s : ProtocolSnapshot) (es : List ProtocolEvent)
    → IsFaithful host ev s
    → IsFaithful host ev (run host ev s es)
unfolding run
run-IsFaithful host ev s [] h = h
run-IsFaithful host ev s (e ∷ es) h =
    run-IsFaithful host ev (step host ev s e).snapshot es
      (outcome-IsFaithful host ev s e (step-Outcome host ev s e) h)

construct-ok : {A : Type 0} (b : Bool) (a x : A) → construct b a ≡ ok x → (b ≡ true) × (a ≡ x)
construct-ok true a x h = (refl, ok-injective h)
construct-ok false a x h = cc

first-IsFaithful :
    (host : Host) (ev : PolicyEvaluator) (w : String) (rev : RevisionIdentity) (b : ProtocolBudget)
    (g : ℕ)
    → str_eq ev.version ev.definition.evaluator_version ≡ true
    → str_eq ev.policy_digest (host.definition_digest ev.definition) ≡ true
    → IsFaithful host ev (first_snapshot host w rev ev.definition b g)
unfolding definition_history_errors bound_to_policy
first-IsFaithful host ev w rev b g v p = (
  rw (str_eq_refl ev.definition.initial_state),
  rw (v, p, str_eq_refl (host.definition_digest ev.definition)),
)

run-snapshot_ok :
    (host : Host) (ev : PolicyEvaluator) (s : ProtocolSnapshot) (es : List ProtocolEvent)
    → snapshot_ok host s ≡ true
    → snapshot_ok host (run host ev s es) ≡ true
unfolding run
run-snapshot_ok host ev s [] h = h
run-snapshot_ok host ev s (e ∷ es) h =
    run-snapshot_ok host ev (step host ev s e).snapshot es (step-snapshot_ok host ev s e h)

-- What a snapshot has passed is what its receipt is checked for.
snapshot_ok-receipt_ok :
    (host : Host) (s : ProtocolSnapshot) (d : String)
    → snapshot_ok host s ≡ true
    → is_digest d ≡ true
    → receipt_ok host (record { body = body_of s; content_digest = d }) ≡ true
unfolding receipt_ok
snapshot_ok-receipt_ok host s d h e =
    let f = snapshot_ok-Fits host s h in
    rw
      (f.workflow, f.text, f.policy, e, f.generation, f.revision, f.counted, f.own, f.bound, f.path)
      refl

-- The receipt of a snapshot whose history its definition allows
faithful-receipt :
    (host : Host) (seal : Seal) (ev : PolicyEvaluator) (s : ProtocolSnapshot) (d : String)
    → IsFaithful host ev s
    → mem s.state ev.definition.completion.terminal_states ≡ true
    → seal (body_of s) ≡ ok d
    → receipt_ok host (record { body = body_of s; content_digest = d }) ≡ true
    → receipt_from_snapshot host seal ev s ≡ ok (record { body = body_of s; content_digest = d })
unfolding receipt_from_snapshot
faithful-receipt host seal ev s d h t q k = simp (h.0, h.1, t, q, k)

-- Every terminal snapshot that the reducer reaches from an initial one has a receipt, whose
-- constructor accepts it, and the receipt tells the workflow, the state and the whole history of that
-- snapshot: whatever the events are, when the evaluator states the version and the digest of its own
-- definition, and `digest_json` has a digest for its body.
pub run-receipt :
    (host : Host) (seal : Seal) (ev : PolicyEvaluator) (w : String) (rev : RevisionIdentity)
    (b : ProtocolBudget) (g : ℕ) {s : ProtocolSnapshot} (es : List ProtocolEvent) (d : String)
    → seal (body_of (run host ev s es)) ≡ ok d
    → is_digest d ≡ true
    → str_eq ev.version ev.definition.evaluator_version ≡ true
    → str_eq ev.policy_digest (host.definition_digest ev.definition) ≡ true
    → initial host w rev ev.definition b g ≡ ok s
    → mem (run host ev s es).state ev.definition.completion.terminal_states ≡ true
    → receipt_from_snapshot host seal ev (run host ev s es)
      ≡ ok (record { body = body_of (run host ev s es); content_digest = d })
unfolding initial
run-receipt host seal ev w rev b g {s} es d q k v p i t =
    let c = construct-ok _ _ s i in
    faithful-receipt host seal ev (run host ev s es) d
      (run-IsFaithful host ev s es
        (subst (IsFaithful host ev) c.1 (first-IsFaithful host ev w rev b g v p)))
      t q
      (snapshot_ok-receipt_ok host (run host ev s es) d
        (run-snapshot_ok host ev s es (subst (λ x. snapshot_ok host x ≡ true) c.1 c.0)) k)
