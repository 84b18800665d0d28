-- ===== src/Ltl/Foretold.antt =====
-- What `LiveMonitorSet.verdicts` of src/ooptdd/engine/monitor.py says early, `LiveMonitorSet.collapse`
-- says in the end.
use ooptdd.Base.{
  ◌≡◌, ◌≢◌, sym, ap, ◌∙◌, subst, Bool, true, false, ◌&&◌, ℕ, Option, some, List, [], ◌∷◌, map,
  map_m, Result, ok, >>=-eq-ok, ok-injective, Returns-eq,
}
use ooptdd.Value.{Event, Fields, str, bool, find_key, has_key}
use ooptdd.Builtins.{Builtins}
use ooptdd.Ontology.{Ontology}
use ooptdd.Monitor.{
  Monitor, count, present, absent, duration, heartbeat, order, ratio, invariant, metamorphic,
  conforms, latched, passed, run_from,
}
use ooptdd.Monitor.Verdicts.{Verdict, Latch, sat, viol, pend, verdict_text}
use ooptdd.Monitor.Compile.{compile_check}
use ooptdd.Monitor.Entries.{entries}
use ooptdd.Monitor.Live.{LiveMonitorSet, new, from_rules, feed_all, verdicts, collapse_all}
use ooptdd.Ltl.Sound.{IsSound, Advances, run_from-Advances}
use ooptdd.Ltl.Compiled.{compile_check-IsSound}
use ooptdd.Ltl.Anticipation.{IsUnordered, sat_passes, viol_fails}
use ooptdd.Ltl.Entries.{Reports, is_order, entries-Reports}
use ooptdd.Ltl.Live.{runs, feed_all-runs}

-- A dictionary bears out an early verdict: it has the verdict, if that was settled, and the check
-- passes after `sat`, on a stream that was read to its end, and fails after `viol`, unless it orders.
pub record Fulfils (whole : Bool) (v : Verdict) (fs : Fields) : Type 0 where
  pub kept : v ≢ pend → find_key "verdict" fs ≡ some (str (verdict_text v))
  pub passes : whole ≡ true → v ≡ sat → find_key "passed" fs ≡ some (bool true)
  pub fails : v ≡ viol → has_key "must_order" fs ≡ false → find_key "passed" fs ≡ some (bool false)

-- The dictionaries bear out the verdicts, one by one and in their order.
pub data Foretold (whole : Bool) : List Verdict → List Fields → Type 0 where
  nothing : Foretold whole [] []
  each :
      {v : Verdict} {fs : Fields} {vs : List Verdict} {ds : List Fields}
      → Fulfils whole v fs
      → Foretold whole vs ds
      → Foretold whole (v ∷ vs) (fs ∷ ds)

data Mapped {A B : Type 0} (f : A → Result B) : List A → List B → Type 0 where
  empty : Mapped f [] []
  image :
      {x : A} {y : B} {xs : List A} {ys : List B}
      → f x ≡ ok y
      → Mapped f xs ys
      → Mapped f (x ∷ xs) (y ∷ ys)

map_m-Mapped :
    {A B : Type 0} (f : A → Result B) (xs : List A) (ys : List B)
    → map_m f xs ≡ ok ys
    → Mapped f xs ys
map_m-Mapped f [] ys h = subst (λ ys. Mapped f [] ys) (ok-injective h) empty
map_m-Mapped f (x ∷ xs) ys h =
    let (y, e, h') = >>=-eq-ok (f x) _ h in
    let (zs, e', h'') = >>=-eq-ok (map_m f xs) _ h' in
    subst (λ ys. Mapped f (x ∷ xs) ys) (ok-injective h'') (image e (map_m-Mapped f xs zs e'))

unordered : (m : Monitor) → is_order m ≡ false → IsUnordered m
unordered (count m) h = tt
unordered (present m) h = tt
unordered (absent m) h = tt
unordered (duration m) h = tt
unordered (heartbeat m) h = tt
unordered (order m) h = cc
unordered (ratio m) h = tt
unordered (invariant m) h = tt
unordered (metamorphic m) h = tt
unordered (conforms m) h = tt

module _ (py : Builtins) (indicators : Fields) (ontology : Option Ontology) (allow : List Fields)
    (seen later : List Event) (i : ℕ) (whole : Bool) where
  judged_as :
      (m : Monitor) (fs : Fields) (b : Bool)
      → Reports py m whole fs
      → passed py m whole ≡ ok b
      → find_key "passed" fs ≡ some (bool b)
  judged_as m fs b r h = r.passed_entry ∙ ap (λ b. some (bool b)) (ok-injective (sym r.judged ∙ h))

  entries-Fulfils :
      (rule : Fields) {m₀ m m' : Monitor} {fs : Fields}
      → compile_check py rule indicators ontology allow ≡ ok m₀
      → run_from py m₀ 0 seen ≡ ok m
      → run_from py m i later ≡ ok m'
      → entries py m' whole ≡ ok fs
      → Fulfils whole (latched m).verdict fs
  entries-Fulfils rule {m₀} {m} {m'} {fs} c before after h =
      let first = Returns-eq (Advances py m₀) before (
        run_from-Advances py m₀ 0 seen
          (Returns-eq (IsSound py) c (compile_check-IsSound py rule indicators ontology allow))) in
      let second = Returns-eq (Advances py m) after (run_from-Advances py m i later first.0) in
      let r = Returns-eq (Reports py m' whole) h (entries-Reports py m' whole) in
      let same : (latched m).verdict ≢ pend → (latched m').verdict ≡ (latched m).verdict =
        λ n. ap (λ (l : Latch). l.verdict) (second.1 n) in
      record {
        kept = λ n. r.verdict_entry ∙ ap (λ v. some (str (verdict_text v))) (same n);
        passes = λ w e. judged_as m' fs true r (
            subst (λ b. passed py m' b ≡ ok true) (sym w)
              (sat_passes py m' second.0 (same (λ x. cc) ∙ e)));
        fails = λ e u. judged_as m' fs false r (
            viol_fails py m' whole second.0 (unordered m' (sym r.order_entry ∙ u))
              (same (λ x. cc) ∙ e));
      }

  all-Foretold :
      {rules : List Fields} {ms₀ ms ms' : List Monitor} {ds : List Fields}
      → Mapped (λ rule. compile_check py rule indicators ontology allow) rules ms₀
      → Mapped (λ m. run_from py m 0 seen) ms₀ ms
      → Mapped (λ m. run_from py m i later) ms ms'
      → Mapped (λ m. entries py m whole) ms' ds
      → Foretold whole (map (λ m. (latched m).verdict) ms) ds
  all-Foretold empty empty empty empty = nothing
  all-Foretold (image c cs) (image b bs) (image a more) (image e es) =
      each (entries-Fulfils _ c b a e) (all-Foretold cs bs more es)

-- What the bank of monitors of a list of rules says of a prefix of the stream, its dictionaries bear
-- out after every further event: if the rules compile and neither a feed nor the collapse raises, the
-- dictionary of each monitor has the verdict that was settled, its check passes after `sat` if the
-- store was reached and read to its end, and fails after `viol`, unless it is that of an order.
pub verdicts-Foretold :
    (py : Builtins) (rules : List Fields) (indicators : Fields) (ontology : Option Ontology)
    (allow : List Fields) (s₀ s s' : LiveMonitorSet) (seen later : List Event)
    (reachable complete : Bool) (ds : List Fields)
    → from_rules py rules indicators ontology allow ≡ ok s₀
    → feed_all py s₀ seen ≡ ok s
    → feed_all py s later ≡ ok s'
    → collapse_all py s' reachable complete ≡ ok ds
    → Foretold (reachable && complete) (verdicts s) ds
unfolding from_rules new collapse_all verdicts runs
verdicts-Foretold py rules indicators ontology allow s₀ s s' seen later r c ds e before after h =
    let (ms, f, g) =
      >>=-eq-ok (map_m (λ rule. compile_check py rule indicators ontology allow) rules) _ e in
    all-Foretold py indicators ontology allow seen later s.idx (r && c) (map_m-Mapped _ rules ms f)
      (map_m-Mapped _ ms s.monitors (
        feed_all-runs py ms 0 seen s
          (subst (λ s₀. feed_all py s₀ seen ≡ ok s) (sym (ok-injective g)) before)))
      (map_m-Mapped _ s.monitors s'.monitors (feed_all-runs py s.monitors s.idx later s' after))
      (map_m-Mapped _ s'.monitors ds h)
