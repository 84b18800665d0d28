-- ===== src/Ouroboros/Receipt.antt =====
-- src/ooptdd/ouroboros/receipt.py: the receipt of a snapshot with all its checks, and
-- `start_successor` of src/ooptdd/ouroboros/reducer.py. The bytes of a receipt are not modelled.
use ooptdd.Base.{
  ℕ, suc, Bool, true, false, ◌&&◌, String, str_eq, List, [], ◌∷◌, ◌++◌, any, all, length, ◌==◌, not,
  leb, if◌then◌else◌, Result, raise_if, Error, ◌>>=◌, ◌>>◌,
}
use ooptdd.Ouroboros.Model.{
  Host, mem, ProtocolDefinition, ProtocolSnapshot, RevisionIdentity, TransitionRecord,
  TransitionRule, initial, construct, is_text, is_digest, is_integer, distinct, ids, bound_to,
  path_to,
}
use ooptdd.Ouroboros.Reducer.{PolicyEvaluator}

pub data HistoryError : Type 0 where
  not_at_initial_state wrong_start undeclared_transition : HistoryError

abbrev pub declares : TransitionRecord → TransitionRule → Bool
declares r t = str_eq t.source r.source && (str_eq t.event r.kind && str_eq t.target r.target)

-- `(item.source, item.kind, item.target) in declared`
abbrev pub declared : List TransitionRule → TransitionRecord → Bool
declared ts r = any (declares r) ts

-- `_definition_history_errors`
unfoldable pub definition_history_errors :
    String → List TransitionRecord → ProtocolDefinition → List HistoryError
definition_history_errors state [] d =
    if str_eq state d.initial_state then [] else HistoryError.not_at_initial_state ∷ []
definition_history_errors state (r ∷ rs) d =
    (if str_eq r.source d.initial_state then [] else HistoryError.wrong_start ∷ [])
    ++ (if all (declared d.transitions) (r ∷ rs)
        then []
        else HistoryError.undeclared_transition ∷ [])

abbrev no_errors : List HistoryError → Bool
no_errors [] = true
no_errors (_ ∷ _) = false

-- What a receipt says of the snapshot
pub record ReceiptBody : Type 0 where
  pub workflow_id : String
  pub material_revision : RevisionIdentity
  pub generation : ℕ
  pub final_revision : ℕ
  pub state : String
  pub policy_digest : String
  pub history : List TransitionRecord

abbrev pub body_of : ProtocolSnapshot → ReceiptBody
body_of s = record {
  workflow_id = s.workflow_id;
  material_revision = s.material_revision;
  generation = s.generation;
  final_revision = s.revision;
  state = s.state;
  policy_digest = s.policy_digest;
  history = s.history;
}

-- The comparisons at the start of `receipt_from_snapshot` and `start_successor`
unfoldable pub bound_to_policy : Host → PolicyEvaluator → ProtocolSnapshot → Bool
bound_to_policy host ev s =
    str_eq ev.version ev.definition.evaluator_version
    && (str_eq ev.policy_digest (host.definition_digest ev.definition)
        && str_eq s.policy_digest (host.definition_digest ev.definition))

-- The canonical JSON and the digest of a body, `digest_json`, which may raise
abbrev pub Seal : Type 0
Seal = ReceiptBody → Result String

pub record ProtocolReceipt : Type 0 where
  pub body : ReceiptBody
  pub content_digest : String

-- The tests of `ProtocolReceipt.__post_init__` that are not on types, but for those of the schema
-- version, a constant, and of the digest, which is recomputed
unfoldable pub receipt_ok : Host → ProtocolReceipt → Bool
receipt_ok host r =
    is_text host r.body.workflow_id
    && (is_text host r.body.state
        && (is_digest r.body.policy_digest
            && (is_digest r.content_digest
                && (is_integer 0 r.body.generation
                    && (is_integer 0 r.body.final_revision
                        && (r.body.final_revision == length r.body.history
                            && (distinct (ids r.body.history)
                                && (all (bound_to r.body.policy_digest) r.body.history
                                    && path_to r.body.state r.body.history))))))))

-- `receipt_from_snapshot`
unfoldable pub receipt_from_snapshot :
    Host → Seal → PolicyEvaluator → ProtocolSnapshot → Result ProtocolReceipt
receipt_from_snapshot host seal ev s =
    raise_if (not (bound_to_policy host ev s)) Error.value_error
    >> (raise_if (not (mem s.state ev.definition.completion.terminal_states)) Error.value_error
        >> (raise_if (not (no_errors (definition_history_errors s.state s.history ev.definition)))
              Error.value_error
            >> (seal (body_of s) >>= λ content.
                let r : ProtocolReceipt = record { body = body_of s; content_digest = content } in
                construct (receipt_ok host r) r)))

-- `start_successor`
unfoldable pub start_successor :
    Host → Seal → PolicyEvaluator → ProtocolSnapshot → RevisionIdentity → Result ProtocolSnapshot
start_successor host seal ev s revision = do
  raise_if (not (bound_to_policy host ev s)) Error.value_error
  raise_if (not (mem s.state ev.definition.completion.terminal_states)) Error.value_error
  receipt ← receipt_from_snapshot host seal ev s
  raise_if (leb s.budget.max_generations (suc s.generation)) Error.value_error
  initial host s.workflow_id revision ev.definition s.budget (suc s.generation)
