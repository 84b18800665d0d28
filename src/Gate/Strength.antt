-- ===== src/Gate/Strength.antt =====
-- `strength_fingerprint` and `compare_strength` of src/ooptdd/engine/gate.py: did a spec get weaker?
use ooptdd.Base.{
  ℕ, ◌+◌, Bool, true, false, ◌&&◌, not, Option, some, String, str_eq, List, [], ◌∷◌, ◌++◌, length,
  keep, map_m, if◌then◌else◌, ltb, Result, ok, ◌>>=◌, pos,
}
use ooptdd.Value.{
  Float, float, int, Number, lt, apply_op, Value, Fields, list, nil, get, truthy, is_null,
}
use ooptdd.Builtins.{Builtins}
use ooptdd.Monitor.Compile.{get_or}
use ooptdd.Gate.Values.{Handler}
use ooptdd.Gate.Rules.{iterate, or_else, rule_of, strength, gate_threshold, one_f}
use ooptdd.Gate.Scope.{tally}

-- The entry `enforcement` of a fingerprint
pub record Enforcement : Type 0 where
  pub require_signature : Bool
  pub require_corroboration : Bool
  pub forbid_errors : Bool
  pub allow_errors : ℕ

-- A fingerprint; one that an older version wrote has no `enforcement`.
pub record Fingerprint : Type 0 where
  pub gating : ℕ
  pub by_strength : List (String × ℕ)
  pub min_threshold : Float
  pub score : Number
  pub enforcement : Option Enforcement

-- `_STRENGTH_RANK.get(s, 1)`
abbrev pub ranks : List (String × ℕ)
ranks =
    ("existence-only", 1)
    ∷ ("bounded", 2)
    ∷ ("threshold", 2)
    ∷ ("value-pinned", 3)
    ∷ ("ordered", 3)
    ∷ ("forbid", 3)
    ∷ ("ratio", 4)
    ∷ ("liveness", 4)
    ∷ ("conformance", 4)
    ∷ ("invariant", 5)
    ∷ ("metamorphic", 5)
    ∷ ("external", 6)
    ∷ []

-- `d.get(k, default)` for counts
abbrev pub count_of : ℕ → String → List (String × ℕ) → ℕ
count_of n k [] = n
count_of n k ((j, m) ∷ ps) = if str_eq j k then m else count_of n k ps

abbrev pub rank_sum : List String → ℕ
rank_sum [] = 0
rank_sum (s ∷ ss) = count_of 1 s ranks + rank_sum ss

abbrev tallies : List (String × ℕ) → List String → List (String × ℕ)
tallies ps [] = ps
tallies ps (s ∷ ss) = tallies (tally s ps) ss

abbrev pub rule_gates : Fields → Bool
rule_gates r = not (truthy (get "optional" r)) && not (truthy (get "pending" r))

abbrev threshold_of : Builtins → Value → Result Float
threshold_of py v = if is_null v then ok one_f else gate_threshold py v

-- `strength_fingerprint`
unfoldable pub strength_fingerprint :
    Builtins → Fields → List Handler → List (String × String) → Result Fingerprint
unfolding get truthy get_or iterate strength gate_threshold
strength_fingerprint py spec registry table = do
  expected ← iterate (get_or "expect" (list nil) spec)
  rules ← map_m rule_of expected
  strengths ← map_m (λ r. strength r registry table) (keep rule_gates rules)
  threshold ← threshold_of py (get "threshold" spec)
  allowed ← iterate (or_else (get "allow_errors" spec) (list nil))
  ok (record {
    gating = length (keep rule_gates rules);
    by_strength = tallies [] strengths;
    min_threshold = threshold;
    score = py.rounded (py.product (int (pos (rank_sum strengths))) (float threshold));
    enforcement = some (record {
      require_signature = truthy (get "require_signature" spec);
      require_corroboration = truthy (get "require_corroboration" spec);
      forbid_errors = truthy (get "forbid_errors" spec);
      allow_errors = length allowed;
    });
  })

-- The sentences of `regressions`, by what they report
pub data Regression : Type 0 where
  gating_dropped : ℕ → ℕ → Regression
  score_dropped : Number → Number → Regression
  threshold_lowered : Float → Float → Regression
  checks_dropped : String → ℕ → ℕ → Regression
  enforcement_dropped : String → Regression
  allow_errors_widened : ℕ → ℕ → Regression

abbrev pub report : Bool → Regression → List Regression
report b r = if b then r ∷ [] else []

-- The classes whose counts are compared
abbrev pub compared_classes : List String
compared_classes =
    "invariant" ∷ "ratio" ∷ "conformance" ∷ "liveness" ∷ "ordered" ∷ "forbid" ∷ "value-pinned" ∷ []

unfoldable pub class_regressions :
    List (String × ℕ) → List (String × ℕ) → List String → List Regression
class_regressions bb cb [] = []
class_regressions bb cb (k ∷ ks) =
    report (ltb (count_of 0 k cb) (count_of 0 k bb))
      (checks_dropped k (count_of 0 k bb) (count_of 0 k cb))
    ++ class_regressions bb cb ks

unfoldable pub enforcement_regressions : Option Enforcement → Option Enforcement → List Regression
enforcement_regressions (some b) (some c) =
    report (b.require_signature && not c.require_signature)
      (enforcement_dropped "require_signature")
    ++ (report (b.require_corroboration && not c.require_corroboration)
          (enforcement_dropped "require_corroboration")
        ++ (report (b.forbid_errors && not c.forbid_errors) (enforcement_dropped "forbid_errors")
            ++ report (ltb b.allow_errors c.allow_errors)
                (allow_errors_widened b.allow_errors c.allow_errors)))
enforcement_regressions _ _ = []

abbrev pub is_some_regression : List Regression → Bool
is_some_regression [] = false
is_some_regression (_ ∷ _) = true

-- The entry `regressions` of `compare_strength`
unfoldable pub regressions : Fingerprint → Fingerprint → List Regression
unfolding class_regressions enforcement_regressions
regressions b c =
    report (ltb c.gating b.gating) (gating_dropped b.gating c.gating)
    ++ (report (apply_op lt c.score b.score) (score_dropped b.score c.score)
        ++ (report (apply_op lt (float c.min_threshold) (float b.min_threshold))
              (threshold_lowered b.min_threshold c.min_threshold)
            ++ (class_regressions b.by_strength c.by_strength compared_classes
                ++ enforcement_regressions b.enforcement c.enforcement)))

-- The entry `weakened` of `compare_strength`
unfoldable pub weakened : Fingerprint → Fingerprint → Bool
unfolding regressions
weakened b c = is_some_regression (regressions b c)
