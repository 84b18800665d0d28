-- ===== src/Chain.antt =====
-- src/ooptdd/domain/model.py: the signature of one record, and the tamper-evident hash chain.
pub mod Intact
pub mod Forgery
pub mod Record
mod Tests
use Prim.Native.Char.{code}
use Prim.Native.String.{◌∷◌ as ◌∷ₛ◌, [] as empty, ◌++◌ as ◌++ₛ◌}
use ooptdd.Base.{
  ℕ, suc, ◌-◌, Bool, true, false, ◌&&◌, ◌||◌, Option, none, some, String, str_eq, List, [], ◌∷◌,
  length, not, ltb, ◌==◌, leb, if◌then◌else◌, Result, ok, raise, Error, ◌>>=◌,
}
use ooptdd.Value.{Value, Fields, end, field, null, str, find_key, get, set_key, value_eq, truthy}

-- Python's own functions: `hmac.new(key, message, sha256).hexdigest()`, `sha256(s).hexdigest()`,
-- `json.dumps(…, sort_keys=True, default=str)` and `str`
pub record Crypto : Type 0 where
  pub hmac : String → String → String
  pub sha256 : String → String
  pub dumps : Fields → String
  pub show : Value → String

-- `s.isascii()`
unfoldable pub is_ascii : String → Bool
is_ascii empty = true
is_ascii (c ∷ₛ s) = ltb (code c) 128 && is_ascii s

-- `hmac.compare_digest` of two texts: it raises unless both are ASCII.
unfoldable pub compare_digest : String → String → Result Bool
unfolding is_ascii
compare_digest s t = if is_ascii s && is_ascii t then ok (str_eq s t) else raise Error.type_error

-- `{k: v for k, v in rec.items() if keep(k)}`
abbrev pub project : (String → Bool) → Fields → Fields
project keep end = end
project keep (field k v fs) = if keep k then field k v (project keep fs) else project keep fs

-- `_SIGNATURE_TRANSPORT_FIELDS`
abbrev pub transport : String → Bool
transport k = str_eq k "sig" || str_eq k "sig_alg" || str_eq k "sig_chain" || str_eq k "prev_sig"

-- `key.startswith("_")`
abbrev pub underscored : String → Bool
underscored empty = false
underscored (c ∷ₛ s) = code c == 95

-- `_canonical`
unfoldable pub canonical : Crypto → Fields → String
canonical py rec = py.dumps (project (λ k. not (transport k) && not (underscored k)) rec)

-- `sign_record`
unfoldable pub sign_record : Crypto → Fields → String → String
unfolding canonical
sign_record py rec key = py.hmac key (canonical py rec)

pub data Status : Type 0 where
  valid invalid unsigned unverifiable : Status

-- The last line of `signature_status`; `compare_digest` raises for a `sig` that is not a text.
abbrev pub compare_sig : Crypto → Value → String → Result Status
compare_sig py (str have) expect = do
  same ← compare_digest have expect
  ok (if same then valid else invalid)
compare_sig py _ expect = raise Error.type_error

-- `signature_status`
unfoldable pub signature_status : Crypto → Fields → Option String → Result Status
unfolding sign_record truthy get
signature_status py rec key = if not (truthy (get "sig" rec)) then ok unsigned else elim key [
  | none ↦ ok unverifiable
  | some k ↦
      if str_eq k "" then ok unverifiable else compare_sig py (get "sig" rec) (sign_record py rec k)
]

-- `_CHAIN_EXCLUDE`
abbrev pub chained : String → Bool
chained k = not (str_eq k "sig_chain" || str_eq k "prev_sig")

-- `_chain_canonical`
unfoldable pub chain_canonical : Crypto → Fields → String
chain_canonical py rec = py.dumps (project chained rec)

-- `if evolve: k = _evolve(k)`
abbrev pub next_key : Crypto → Bool → String → String
next_key py evolve k = if evolve then py.sha256 k else k

-- The MAC of a record after the MAC `prev`
unfoldable pub mac : Crypto → Fields → String → String → String
unfolding chain_canonical
mac py rec prev k = py.hmac k (chain_canonical py rec ++ₛ prev)

abbrev pub linked : Fields → String → String → Fields
linked rec prev m = set_key "sig_chain" (str m) (set_key "prev_sig" (str prev) rec)

-- The loop of `sign_chain`
unfoldable pub sign_from : Crypto → Bool → String → String → List Fields → List Fields
unfolding mac set_key
sign_from py evolve prev k [] = []
sign_from py evolve prev k (rec ∷ recs) =
    linked rec prev (mac py rec prev k)
    ∷ sign_from py evolve (mac py rec prev k) (next_key py evolve k) recs

-- `sign_chain`
unfoldable pub sign_chain : Crypto → List Fields → String → Bool → List Fields
unfolding sign_from
sign_chain py recs key evolve = sign_from py evolve "" key recs

pub data Reason : Type 0 where
  prev_link_mismatch chain_mac_mismatch truncated head_mismatch : Reason

-- The result of `verify_chain`: `ok`, or the broken index with the reason
pub data Report : Type 0 where
  intact : Report
  broken : ℕ → Reason → Report

-- Where the loop of `verify_chain` ends: at a broken record, or with the last MAC
pub data Links : Type 0 where
  at : ℕ → Reason → Links
  reached : String → Links

-- `str(v)`
abbrev pub text_of : Crypto → Value → String
text_of py (str s) = s
text_of py v = py.show v

abbrev pub or_empty : Option Value → Value
or_empty none = str ""
or_empty (some v) = v

-- `str(rec.get("sig_chain", ""))`
unfoldable pub chain_mac : Crypto → Fields → String
unfolding find_key
chain_mac py rec = text_of py (or_empty (find_key "sig_chain" rec))

-- The loop of `verify_chain`, from the record with index `i`
unfoldable pub links : Crypto → Bool → ℕ → String → String → List Fields → Result Links
unfolding mac chain_mac get value_eq compare_digest
links py evolve i prev k [] = ok (reached prev)
links py evolve i prev k (rec ∷ recs) =
    let rest = links py evolve (suc i) (chain_mac py rec) (next_key py evolve k) recs in
    if not (value_eq (get "prev_sig" rec) (str prev)) then ok (at i prev_link_mismatch) else do
      same ← compare_digest (chain_mac py rec) (mac py rec prev k)
      if same then rest else ok (at i chain_mac_mismatch)

-- `if expect_head is not None and …`
unfoldable pub check_head : ℕ → String → Option String → Result Report
unfolding compare_digest
check_head n prev none = ok intact
check_head n prev (some head) = do
  same ← compare_digest prev head
  ok (if same then intact else broken (n - 1) head_mismatch)

abbrev pub too_short : ℕ → Option ℕ → Bool
too_short n none = false
too_short n (some m) = ltb n m

-- The checks against an outside anchor
unfoldable pub anchors : ℕ → Option ℕ → Option String → Links → Result Report
unfolding check_head
anchors n expect_len expect_head (at i reason) = ok (broken i reason)
anchors n expect_len expect_head (reached prev) =
    if too_short n expect_len then ok (broken n truncated) else check_head n prev expect_head

-- `verify_chain`
unfoldable pub verify_chain :
    Crypto → List Fields → String → Bool → Option ℕ → Option String → Result Report
unfolding links anchors
verify_chain py recs key evolve expect_len expect_head =
    links py evolve 0 "" key recs >>= anchors (length recs) expect_len expect_head
