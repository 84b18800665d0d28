-- ===== src/Ltl/Reference.antt =====
-- The monitors against a plain reading of the stream.
use ooptdd.Base.{
  ◌≡◌, refl, ap, ◌∙◌, ℕ, suc, ◌+◌, pos, ℤ, Bool, true, false, String, List, [], ◌∷◌, Result, ok,
  ◌>>=◌, >>=-eq-ok, ok-injective, arith,
}
use ooptdd.Value.{Number, Event}
use ooptdd.Builtins.{Builtins}
use ooptdd.Match.{Matcher, matches, ops}
use ooptdd.Monitor.{count, lift, step, passed, run_from}
use ooptdd.Monitor.Count.{CountMonitor, advance, test_op}
use ooptdd.Monitor.Count

abbrev bump : Bool → ℕ → ℕ
bump true n = suc n
bump false n = n

-- How many events of the stream the matcher finds
unfoldable pub occurrences : Matcher → List Event → Result ℕ
occurrences m [] = ok 0
occurrences m (ev ∷ evs) = do hit ← matches ev m; n ← occurrences m evs; ok (bump hit n)

-- The monitor at the end of a stream on which the matcher answers
advance_lem :
    (c : CountMonitor) (idx : ℤ) (hit : Bool)
    → ((advance c idx hit).matcher ≡ c.matcher)
      × ((advance c idx hit).got ≡ bump hit c.got)
      × ((advance c idx hit).op ≡ c.op)
      × ((advance c idx hit).want ≡ c.want)
unfolding advance
advance_lem c idx true = (refl, refl, refl, refl)
advance_lem c idx false = (refl, refl, refl, refl)

bump_add : (hit : Bool) (a b : ℕ) → bump hit a + b ≡ a + bump hit b
bump_add true a b = omega arith
bump_add false a b = refl

count_run :
    (py : Builtins) (c : CountMonitor) (i : ℕ) (evs : List Event) (n : ℕ)
    → occurrences c.matcher evs ≡ ok n
    → (d : CountMonitor) × (run_from py (count c) i evs ≡ ok (count d))
      × (d.got ≡ c.got + n)
      × (d.op ≡ c.op)
      × (d.want ≡ c.want)
unfolding occurrences run_from step Count.step
count_run py c i [] n h = (c, refl, omega (arith, ok-injective h), refl, refl)
count_run py c i (ev ∷ evs) n h =
    let (hit, e, h') =
      >>=-eq-ok (matches ev c.matcher) (λ hit. occurrences c.matcher evs >>= λ n. ok (bump hit n))
        h in
    let (k, e', h'') = >>=-eq-ok (occurrences c.matcher evs) (λ n. ok (bump hit n)) h' in
    let (p, q, r, s) = advance_lem c (pos i) hit in
    let (d, run, got, op, want) =
      count_run py (advance c (pos i) hit) (suc i) evs k (ap (λ m. occurrences m evs) p ∙ e') in
    (
      d,
      ap
            (λ (o : Result Bool). lift count (o >>= λ hit. ok (advance c (pos i) hit)) >>= λ m.
              run_from py m (suc i) evs)
            e
          ∙ run,
      got ∙ ap (λ a. a + k) q ∙ bump_add hit c.got k ∙ ap (λ a. c.got + a) (ok-injective h''),
      op ∙ r,
      want ∙ s,
    )

passed_lem :
    (d : CountMonitor) (op : String) (n : ℕ) (want : Number)
    → d.got ≡ n
    → d.op ≡ op
    → d.want ≡ want
    → Count.passed d true ≡ test_op (ops op) n want
unfolding Count.passed
passed_lem d op n want g o w =
    ap (λ o. test_op (ops o) d.got d.want) o
    ∙ ap (λ g. test_op (ops op) g d.want) g
    ∙ ap (λ w. test_op (ops op) n w) w

-- A `count` check counts: where the matcher answers on every event of a stream, the monitor runs
-- to the end, and its check of a reachable stream is the rule's operator on the number of events
-- that match and the expected count, whatever latched on the way.
pub count_exact :
    (py : Builtins) (m : Matcher) (op : String) (want : Number) (evs : List Event) (n : ℕ)
    → occurrences m evs ≡ ok n
    → (d : CountMonitor) × (run_from py (count (Count.new m op want)) 0 evs ≡ ok (count d))
      × (passed py (count d) true ≡ test_op (ops op) n want)
unfolding passed Count.new
count_exact py m op want evs n h =
    let (d, run, got, o, w) = count_run py (Count.new m op want) 0 evs n h in
    (d, run, passed_lem d op n want (got ∙ omega arith) o w)
