-- ===== src/Monitor/Verdicts.antt =====
-- The three-valued verdict of `Monitor` in src/ooptdd/engine/monitor.py and its bookkeeping.
use ooptdd.Base.{sym, ap, ◌∙◌, Option, none, some, ℤ, ◌≡◌, ◌≢◌, refl, String, arith}
use ooptdd.Value.{Value, null, num, int, str, Fields, end, field}

pub data Verdict : Type 0 where
  sat viol pend : Verdict

-- The fields `_verdict` and `_settled_at` of the base class
pub record Latch : Type 0 where
  pub verdict : Verdict
  pub settled_at : Option ℤ

-- `Monitor.__init__`
abbrev pub fresh : Latch
fresh = record { verdict = pend; settled_at = none }

abbrev latch_from : Verdict → Verdict → ℤ → Latch → Latch
latch_from pend v idx l = record { verdict = v; settled_at = some idx }
latch_from sat v idx l = l
latch_from viol v idx l = l

-- `Monitor._latch`
unfoldable pub latch : Verdict → ℤ → Latch → Latch
latch v idx l = latch_from l.verdict v idx l

-- The texts `SAT`, `VIOL` and `PEND`
unfoldable pub verdict_text : Verdict → String
verdict_text sat = "sat"
verdict_text viol = "viol"
verdict_text pend = "pend"

abbrev index_value : Option ℤ → Value
index_value none = null
index_value (some i) = num (int i)

-- The two entries that `_stamp` puts at the end of a result
unfoldable pub stamp : Latch → Fields
unfolding verdict_text
stamp l =
    field "verdict" (str (verdict_text l.verdict))
      (field "settled_at" (index_value l.settled_at) end)

-- A verdict that is settled is not latched again.
pub latch_settled : (v : Verdict) (idx : ℤ) (l : Latch) → l.verdict ≢ pend → latch v idx l ≡ l
unfolding latch
latch_settled v idx l h = ground arith

pub latch_pend :
    (v : Verdict) (idx : ℤ) (l : Latch) → l.verdict ≡ pend → (latch v idx l).verdict ≡ v
unfolding latch
latch_pend v idx l h = ground arith

-- A later latch never loses a settled verdict and its index.
abbrev pub Keeps : Latch → Latch → Type 0
Keeps l k = l.verdict ≢ pend → k ≡ l

pub latch-Keeps : (v : Verdict) (idx : ℤ) (l : Latch) → Keeps l (latch v idx l)
latch-Keeps v idx l h = latch_settled v idx l h

pub Keeps-refl : (l : Latch) → Keeps l l
Keeps-refl l h = refl

pub Keeps-trans : {l k j : Latch} → Keeps l k → Keeps k j → Keeps l j
Keeps-trans h g e = g (λ p. e (sym (ap (λ (x : Latch). x.verdict) (h e)) ∙ p)) ∙ h e
