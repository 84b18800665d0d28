-- ===== src/Ltl/Tests.antt =====
-- The theorems on the monitors at concrete rules and streams.
use ooptdd.Base.{
  ℕ, ◌≡◌, refl, true, false, none, some, pos, String, List, [], ◌∷◌, ◌++◌, length, map_m, Result,
  ok, raise, Error,
}
use ooptdd.Value.{
  Float, finite, int, exact, Value, Fields, num, str, dict, end, field, Event, value_eq,
}
use ooptdd.Builtins.{Builtins}
use ooptdd.Match.{Matcher, matches, ops, resolve_matcher, norm_op}
use ooptdd.Match.Label.{matcher_label}
use ooptdd.Monitor.Absent
use ooptdd.Monitor.Verdicts.{Verdict, sat, viol, Latch, fresh, latch}
use ooptdd.Monitor.Count.{CountMonitor, test_op}
use ooptdd.Monitor.Count
use ooptdd.Monitor.{step, Monitor, count, absent, latched, passed, run_from}
use ooptdd.Monitor.Entries.{entries, run_monitor}
use ooptdd.Monitor.Compile.{compile_check}
use ooptdd.Monitor.Live.{LiveMonitorSet, new, from_rules, feed_all, verdicts, collapse_all}
use ooptdd.Ltl.Foretold.{Foretold, verdicts-Foretold}
use ooptdd.Ltl.Anticipation.{sat_irrevocable, viol_irrevocable, settled_for_good}
use ooptdd.Ontology.{Ontology}
use ooptdd.Ontology.Conformance.{check_conformance}
use ooptdd.Monitor.{conforms}
use ooptdd.Monitor.Conforms
use ooptdd.Monitor.Conforms.{ConformsMonitor}
use ooptdd.Ltl.Conformance.{target_value, check_conformance-run}
use ooptdd.Value.{get}
use ooptdd.Ltl.Live.{live_agrees}
use ooptdd.Ltl.Reference.{occurrences, count_exact}

abbrev float_of : Value → Result Float
float_of (num n) = ok (exact n)
float_of _ = raise Error.type_error

abbrev py : Builtins
py = record {
  lowered = λ s. s;
  rounded = λ x. x;
  show = λ v. "value";
  parse_fraction = λ s. none;
  to_float = float_of;
  times = λ x n. x;
  seconds = λ us. finite us 0;
  divide = λ a b. finite (pos a) 0;
  quotient = λ a b. finite (pos 1) 0;
  total = λ xs. int (pos 0);
  plus = λ a b. a;
  minus = λ a b. a;
  product = λ a b. a;
  magnitude = λ a. a;
}

abbrev event_of : String → Event
event_of name = field "event" (str name) end

abbrev twice_paid : Fields
twice_paid = field "event" (str "paid") (field "count" (num (int (pos 2))) end)

abbrev no_refund : Fields
no_refund = field "absent" (dict (field "event" (str "refund") end)) end

abbrev seen : List Event
seen = event_of "paid" ∷ event_of "refund" ∷ event_of "paid" ∷ []

abbrev later : List Event
later = event_of "refund" ∷ event_of "paid" ∷ []

abbrev paid_matcher : Matcher
paid_matcher = record { event = str "paid"; where_ = dict end }

abbrev refund_matcher : Matcher
refund_matcher = record { event = str "refund"; where_ = dict end }

-- The monitor of `twice_paid` after some events
abbrev counter : Latch → ℕ → Monitor
counter l n =
    count (record { latched = l; matcher = paid_matcher; op = ">="; want = int (pos 2); got = n })

-- The monitor of `no_refund` after some events
abbrev watcher : Latch → List Event → Monitor
watcher l offenders = absent (record {
  latched = l;
  resolved = refund_matcher ∷ [];
  allow = [];
  labels = str "refund" ∷ [];
  offenders = offenders;
})

abbrev settled : Verdict → ℕ → Latch
settled v i = record { verdict = v; settled_at = some (pos i) }

sat_irrevocable_example : passed py (counter (settled sat 2) 3) true ≡ ok true
unfolding compile_check run_from step resolve_matcher Count.new norm_op Count.step value_eq
sat_irrevocable_example =
    sat_irrevocable py twice_paid end none [] {m₀ = counter fresh 0} {m = counter (settled sat 2) 2}
      {m' = counter (settled sat 2) 3} seen later refl refl refl refl

viol_irrevocable_example :
    passed py (watcher (settled viol 1) (event_of "refund" ∷ event_of "refund" ∷ [])) true
    ≡ ok false
unfolding compile_check run_from step Absent.new resolve_matcher matcher_label Absent.step
    Absent.matches_any matches value_eq latch
viol_irrevocable_example =
    viol_irrevocable py no_refund end none [] {m₀ = watcher fresh []}
      {m = watcher (settled viol 1) (event_of "refund" ∷ [])}
      {m' = watcher (settled viol 1) (event_of "refund" ∷ event_of "refund" ∷ [])} seen later refl
      refl refl tt refl true

settled_for_good_example :
    latched (watcher (settled viol 1) (event_of "refund" ∷ event_of "refund" ∷ []))
    ≡ latched (watcher (settled viol 1) (event_of "refund" ∷ []))
unfolding compile_check run_from step Absent.new resolve_matcher matcher_label Absent.step
    Absent.matches_any matches value_eq latch
settled_for_good_example =
    settled_for_good py no_refund end none [] {m₀ = watcher fresh []}
      {m = watcher (settled viol 1) (event_of "refund" ∷ [])}
      {m' = watcher (settled viol 1) (event_of "refund" ∷ event_of "refund" ∷ [])} seen later refl
      refl refl (λ e. cc)

abbrev bank : List Monitor
bank = counter fresh 0 ∷ watcher fresh [] ∷ []

live_agrees_example :
    collapse_all py
      (record {
        monitors =
            counter (settled sat 2) 2 ∷ watcher (settled viol 1) (event_of "refund" ∷ []) ∷ [];
        idx = 3;
      })
      true
      true
    ≡ map_m (λ m. run_monitor py m seen true) bank
unfolding feed_all step new Count.step value_eq Absent.step Absent.matches_any latch
live_agrees_example =
    live_agrees py bank seen
      (record {
        monitors =
            counter (settled sat 2) 2 ∷ watcher (settled viol 1) (event_of "refund" ∷ []) ∷ [];
        idx = 3;
      })
      true true refl

-- What a collapse that does not raise returns
abbrev returned_by : Result (List Fields) → List Fields
returned_by (ok ds) = ds
returned_by (raise e) = []

abbrev fed : List Event → ℕ → List Event → LiveMonitorSet
fed evs n offenders = record {
  monitors = counter (settled sat 2) n ∷ watcher (settled viol 1) offenders ∷ [];
  idx = length evs;
}

-- The bank after `seen` and after `later`
abbrev early : LiveMonitorSet
early = fed seen 2 (event_of "refund" ∷ [])

abbrev finally : LiveMonitorSet
finally = fed (seen ++ later) 3 (event_of "refund" ∷ event_of "refund" ∷ [])

verdicts-Foretold_example :
    Foretold true (sat ∷ viol ∷ []) (returned_by (collapse_all py finally true true))
unfolding verdicts from_rules compile_check new feed_all step resolve_matcher norm_op Count.new
    Count.step Absent.new Absent.step Absent.matches_any matcher_label matches value_eq latch
    collapse_all entries Count.collapse Absent.collapse
verdicts-Foretold_example =
    verdicts-Foretold py (twice_paid ∷ no_refund ∷ []) end none [] (new bank) early finally seen
      later true true (returned_by (collapse_all py finally true true)) refl refl refl refl

count_exact_example :
    (d : CountMonitor) × (run_from py (count (Count.new paid_matcher "<=" (int (pos 1)))) 0 seen
      ≡ ok (count d))
    × (passed py (count d) true ≡ test_op (ops "<=") 2 (int (pos 1)))
unfolding occurrences matches value_eq
count_exact_example = count_exact py paid_matcher "<=" (int (pos 1)) seen 2 refl

-- Paid events need an amount, and no other event is declared.
abbrev vocabulary : Ontology
vocabulary = record {
  types =
      record {
        name = "paid";
        required = "amount" ∷ [];
        constraints = [];
        additional_properties = true;
      }
      ∷ [];
  closed_world = true;
}

check_conformance-run_example :
    (m : ConformsMonitor) × (run_from py
        (conforms (Conforms.new (target_value none) (some vocabulary) none))
        0
        seen
      ≡ ok (conforms m))
    × (m.checked ≡ (check_conformance vocabulary none none [] seen).checked)
    × (m.violations ≡ (check_conformance vocabulary none none [] seen).violations)
    × (m.unknown ≡ (check_conformance vocabulary none none [] seen).unknown)
unfolding get
check_conformance-run_example = check_conformance-run py vocabulary none none seen refl
