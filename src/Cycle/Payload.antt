-- ===== src/Cycle/Payload.antt =====
-- extensions/ooptdd-mutation/src/ooptdd_mutation/ouroboros: the values that are read from a payload,
-- `from_dict` and `__post_init__` of model.py and of `Digest` in src/ooptdd/ouroboros/identity.py,
-- with `_require_exact_keys` and `_require_text` of reducer.py.
use text.Mathlib.Text.{find?}
use ooptdd.Base.{
  Bool, true, false, ◌&&◌, ◌||◌, not, none, some, String, str_eq, List, [], ◌∷◌, ◌++◌, all,
  if◌then◌else◌, Result, ok, raise, raise_if, Error, ◌>>=◌,
}
use ooptdd.Value.{Value, bool, str, dict, Fields, end, field, find_key, has_key}
use ooptdd.Ouroboros.Model.{mem, is_digest, hex_digits}
use ooptdd.Cycle.Model.{
  RunOutcome, red_run, green_run, no_outcome, ObservationVerdict, seen_present, seen_absent,
  seen_nothing, MonitorVerdict, sat, viol, pend, EvidenceTier, local_pass, emitted, arrived,
  queryable_causal, external_verdict, Disposition, fixed, deferred, refuted, accepted_risk,
  InterruptReason, cancelled, timed_out, budget_exhausted, retry_exhausted, no_conclusion,
  identity_clash, Digest, OracleBoundary, MaterialLock, RunEvidence, FindingDisposition, Hashing,
  is_given,
}

-- `payload[key]`
unfoldable pub item : String → Fields → Result Value
item k fs = elim (find_key k fs) [ none ↦ raise Error.key_error | some v ↦ ok v ]

abbrev pub field_names : Fields → List String
field_names end = []
field_names (field k v fs) = k ∷ field_names fs

-- No required key is missing, and no other key but an optional one is there.
unfoldable pub exact_keys : List String → List String → Fields → Bool
exact_keys required optional fs =
    all (λ k. has_key k fs) required && all (λ k. mem k (required ++ optional)) (field_names fs)

-- `_require_exact_keys`
abbrev pub require_keys : List String → List String → Fields → Result (Unit {0})
require_keys required optional fs =
    raise_if (not (exact_keys required optional fs)) Error.value_error

abbrev pub has_nul : String → Bool
has_nul s = is_given (find? s "\0")

-- `_require_text` of a text
unfoldable pub text_ok : Hashing → String → Bool
text_ok h s = not (h.is_blank s) && not (has_nul s)

-- `_require_text`
unfoldable pub require_text : Hashing → Value → Result String
require_text h (str s) = if text_ok h s then ok s else raise Error.value_error
require_text h _ = raise Error.value_error

abbrev pub text_item : Hashing → String → Fields → Result String
text_item h k fs = item k fs >>= require_text h

-- `isinstance(value, str)` or an error
abbrev pub as_text : Value → Result String
as_text (str s) = ok s
as_text _ = raise Error.value_error

abbrev pub as_bool : Value → Result Bool
as_bool (bool b) = ok b
as_bool _ = raise Error.value_error

abbrev pub as_object : Value → Result Fields
as_object (dict fs) = ok fs
as_object _ = raise Error.value_error

-- The member of an enumeration with a given value
abbrev pub named {ℓ} : {A : Type ℓ} → String → List (String × A) → Result A
named s [] = raise Error.value_error
named s (m ∷ ms) = if str_eq m.0 s then ok m.1 else named s ms

abbrev pub member {ℓ} : {A : Type ℓ} → List (String × A) → Value → Result A
member ms (str s) = named s ms
member ms _ = raise Error.value_error

abbrev pub outcomes : List (String × RunOutcome)
outcomes = ("red", red_run) ∷ ("green", green_run) ∷ ("inconclusive", no_outcome) ∷ []

abbrev pub observations : List (String × ObservationVerdict)
observations =
    ("present", seen_present) ∷ ("absent", seen_absent) ∷ ("inconclusive", seen_nothing) ∷ []

abbrev pub monitor_verdicts : List (String × MonitorVerdict)
monitor_verdicts = ("sat", sat) ∷ ("viol", viol) ∷ ("pend", pend) ∷ []

abbrev pub tiers : List (String × EvidenceTier)
tiers =
    ("local_pass", local_pass)
    ∷ ("emitted", emitted)
    ∷ ("arrived", arrived)
    ∷ ("queryable_causal", queryable_causal)
    ∷ ("external_verdict", external_verdict)
    ∷ []

abbrev pub disposition_names : List (String × Disposition)
disposition_names =
    ("fixed", fixed)
    ∷ ("deferred", deferred)
    ∷ ("refuted", refuted)
    ∷ ("accepted_risk", accepted_risk)
    ∷ []

abbrev pub reasons : List (String × InterruptReason)
reasons =
    ("cancelled", cancelled)
    ∷ ("timed_out", timed_out)
    ∷ ("budget_exhausted", budget_exhausted)
    ∷ ("retry_exhausted", retry_exhausted)
    ∷ ("inconclusive", no_conclusion)
    ∷ ("identity_conflict", identity_clash)
    ∷ []

-- `Digest.__post_init__`
unfoldable pub digest_ok : Hashing → Digest → Bool
digest_ok h d =
    text_ok h d.algorithm
    && (text_ok h d.scope
        && (text_ok h d.canonicalization
            && (text_ok h d.schema_version && (str_eq d.algorithm "sha256" && is_digest d.value))))

abbrev pub digest_keys : List String
digest_keys = "algorithm" ∷ "scope" ∷ "canonicalization" ∷ "schema_version" ∷ "value" ∷ []

-- `Digest.from_dict`
unfoldable pub digest_from : Hashing → Value → Result Digest
digest_from h v = do
  fs ← as_object v
  _ ← require_keys digest_keys [] fs
  algorithm ← item "algorithm" fs >>= as_text
  scope ← item "scope" fs >>= as_text
  canonicalization ← item "canonicalization" fs >>= as_text
  schema_version ← item "schema_version" fs >>= as_text
  value ← item "value" fs >>= as_text
  let d : Digest = record {
    algorithm = algorithm;
    scope = scope;
    canonicalization = canonicalization;
    schema_version = schema_version;
    value = value;
  } in
      if digest_ok h d then ok d else raise Error.value_error

abbrev pub digest_item : Hashing → String → Fields → Result Digest
digest_item h k fs = item k fs >>= digest_from h

-- `_GIT_OBJECT_RE.fullmatch`
unfoldable pub is_git_object : String → Bool
is_git_object s = hex_digits 40 s || hex_digits 64 s

-- `MaterialLock.from_dict`
unfoldable pub lock_from : Hashing → Value → Result MaterialLock
lock_from h v = do
  fs ← as_object v
  _ ← require_keys ("spec" ∷ "verifier" ∷ "source" ∷ "environment" ∷ "source_commit" ∷ []) [] fs
  spec ← digest_item h "spec" fs
  verifier ← digest_item h "verifier" fs
  source ← digest_item h "source" fs
  environment ← digest_item h "environment" fs
  source_commit ← item "source_commit" fs >>= as_text
  _ ← raise_if (not (is_git_object source_commit)) Error.value_error
  ok (record {
    spec = spec;
    verifier = verifier;
    source = source;
    environment = environment;
    source_commit = source_commit;
  })

-- `OracleBoundary.is_independent`
abbrev pub is_independent : OracleBoundary → Bool
is_independent o = o.separate_source && not (str_eq o.emit_identity o.read_identity)

-- `OracleBoundary.from_dict`
unfoldable pub oracle_from : Hashing → Value → Result OracleBoundary
oracle_from h v = do
  fs ← as_object v
  _ ←
      require_keys ("emit_identity" ∷ "read_identity" ∷ "separate_source" ∷ "corroborated" ∷ []) []
        fs
  separate_source ← item "separate_source" fs >>= as_bool
  corroborated ← item "corroborated" fs >>= as_bool
  emit_identity ← text_item h "emit_identity" fs
  read_identity ← text_item h "read_identity" fs
  let o : OracleBoundary = record {
    emit_identity = emit_identity;
    read_identity = read_identity;
    separate_source = separate_source;
    corroborated = corroborated;
  } in
      if o.corroborated && not (is_independent o) then raise Error.value_error else ok o

-- `RunEvidence.__post_init__`
unfoldable pub construct_run : Hashing → RunEvidence → Result RunEvidence
construct_run h r =
    if text_ok h r.run_id && (text_ok h r.artifact_namespace && is_digest r.material_lock_sha256)
    then ok r
    else raise Error.value_error

abbrev pub is_fixed : Disposition → Bool
is_fixed fixed = true
is_fixed _ = false

-- `FindingDisposition.__post_init__`
unfoldable pub disposition_ok : Hashing → FindingDisposition → Bool
disposition_ok h d =
    text_ok h d.finding_id
    && (if d.bound_material_changed
        then is_fixed d.disposition && is_given d.change_evidence
        else not (is_given d.change_evidence))

abbrev pub construct_disposition : Hashing → FindingDisposition → Result FindingDisposition
construct_disposition h d = if disposition_ok h d then ok d else raise Error.value_error
