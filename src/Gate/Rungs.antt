-- ===== src/Gate/Rungs.antt =====
-- `combine_results` of src/ooptdd/engine/gate.py: when a combination of results is `ok`.
use ooptdd.Base.{
  ◌≡◌, refl, Bool, ◌&&◌, not, List, [], ◌∷◌, any, all, keep, arith, Bool-cases, inl, inr,
}
use ooptdd.Gate.Kernel.{GateResult}
use ooptdd.Gate.Tier.{combine_results, is_failed, is_incomplete, cids, is_empty}

none_kept :
    (p : GateResult → Bool) (rs : List GateResult) → is_empty (cids (keep p rs)) ≡ not (any p rs)
none_kept p [] = refl
none_kept p (r ∷ rs) = elim (Bool-cases (p r)) [ inl h ↦ rw h refl | inr h ↦ rw h (none_kept p rs) ]

none_wrong :
    (rs : List GateResult)
    → (not (any is_failed rs) && not (any is_incomplete rs))
      ≡ all (λ (r : GateResult). r.reachable && (r.complete && r.ok?)) rs
none_wrong [] = refl
none_wrong (r ∷ rs) = ground (arith, none_wrong rs)

-- A combination is `ok` if and only if every result was reached, was complete and is `ok`.
pub combine_results-ok :
    (rs : List GateResult)
    → (combine_results rs).ok? ≡ all (λ (r : GateResult). r.reachable && (r.complete && r.ok?)) rs
unfolding combine_results
combine_results-ok rs = rw (none_kept is_failed rs, none_kept is_incomplete rs) (none_wrong rs)
