-- ===== src/Gate/Settle.antt =====
-- `_settled_green` of src/ooptdd/engine/verify.py: may a green over a prefix be reported at once?
use ooptdd.Base.{Bool, ◌&&◌, ◌||◌, not, all}
use ooptdd.Value.{str, get, has_key, value_eq}
use ooptdd.Gate.Scope.{Check, is_gating}
use ooptdd.Gate.Kernel.{GateResult}

-- `c.get("verdict") == SAT and "must_order" not in c`
unfoldable pub is_final : Check → Bool
unfolding get has_key value_eq
is_final c = value_eq (get "verdict" c.raw) (str "sat") && not (has_key "must_order" c.raw)

abbrev pub settles : Check → Bool
settles c = not (is_gating c) || is_final c

-- `_settled_green`
unfoldable pub settled_green : GateResult → Bool
unfolding is_final
settled_green r = r.ok? && (not r.oracle.signature_enforced && all settles r.checks)
