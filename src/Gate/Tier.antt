-- ===== src/Gate/Tier.antt =====
-- `evidence_tier`, `failed_checks` and `combine_results` of src/ooptdd/engine/gate.py.
use ooptdd.Base.{
  Bool, true, false, ◌&&◌, ◌||◌, not, Option, none, some, String, str_eq, List, [], ◌∷◌, any, keep,
  map, if◌then◌else◌, ltb, pos,
}
use ooptdd.Value.{Float, float, int, gt, apply_op}
use ooptdd.Gate.Scope.{Check, is_gating}
use ooptdd.Gate.Kernel.{GateResult}

-- `EVIDENCE_TIERS`
pub data Tier : Type 0 where
  local_pass emitted arrived queryable_causal external_verdict : Tier

-- A passing check with authority whose relation spans events
abbrev pub is_causal : Check → Bool
is_causal c =
    c.passed && (is_gating c && (str_eq c.strength "invariant" || str_eq c.strength "metamorphic"))

abbrev pub charged? : Option Float → Bool
charged? none = false
charged? (some f) = apply_op gt (float f) (int (pos 0))

-- `evidence_tier`
unfoldable pub evidence_tier : GateResult → Tier
evidence_tier r =
    if not r.scope.asserts_anything || not r.reachable
    then local_pass
    else if ltb 0 r.oracle.corroborated
    then external_verdict
    else if any is_causal r.checks
    then (if r.sampled then arrived else queryable_causal)
    else if charged? r.scope.charge_ratio
    then arrived
    else emitted

-- `failed_checks`
unfoldable pub failed_checks : GateResult → List Check
failed_checks r = keep (λ (c : Check). not c.passed && (not c.optional && not c.pending)) r.checks

pub record Combined : Type 0 where
  pub ok? : Bool
  pub failed : List String
  pub inconclusive : List String
  pub pending : List (String × List String)

abbrev pub is_incomplete : GateResult → Bool
is_incomplete r = not r.reachable || not r.complete

abbrev pub is_failed : GateResult → Bool
is_failed r = r.reachable && (r.complete && not r.ok?)

abbrev pub is_empty {ℓ} : {A : Type ℓ} → List A → Bool
is_empty [] = true
is_empty (_ ∷ _) = false

abbrev pub cids : List GateResult → List String
cids rs = map (λ (r : GateResult). r.cid) rs

abbrev pending_of : GateResult → String × List String
pending_of r = (r.cid, r.pending_failed)

-- `combine_results`
unfoldable pub combine_results : List GateResult → Combined
combine_results rs = record {
  ok? = is_empty (cids (keep is_failed rs)) && is_empty (cids (keep is_incomplete rs));
  failed = cids (keep is_failed rs);
  inconclusive = cids (keep is_incomplete rs);
  pending = map pending_of (keep (λ (r : GateResult). not (is_empty r.pending_failed)) rs);
}
