-- ===== src/Gate/Kept.antt =====
-- A check of a monitor that is settled over a prefix of the stream is settled over the whole of it.
use ooptdd.Base.{
  ◌≡◌, refl, sym, ap, ◌∙◌, ℕ, suc, ◌+◌, Bool, true, false, Option, String, List, [], ◌∷◌, ◌++◌,
  length, ℤ, pos, Result, ok, raise, >>=-eq-ok, Returns, returned, raised, Returns-bind, Returns-eq,
  ok-injective, arith, subst,
}
use ooptdd.Value.{
  Value, Fields, Event, str, bool, dict, find_key, get, truthy, value_eq, or_null, null,
}
use ooptdd.Builtins.{Builtins}
use ooptdd.Monitor.{
  Monitor, count, present, absent, duration, heartbeat, order, ratio, invariant, metamorphic,
  conforms, latched, lift, step, run_from, passed,
}
use ooptdd.Monitor.Verdicts.{Verdict, sat, viol, pend, verdict_text}
use ooptdd.Monitor.Count
use ooptdd.Monitor.Count.{CountMonitor}
use ooptdd.Monitor.Compile.{compile_check}
use ooptdd.Monitor.Entries.{entries}
use ooptdd.Ltl.Entries.{taut, taut_entry, Reports, entries-Reports}
use ooptdd.Ltl.Anticipation.{sat_irrevocable}
use ooptdd.Gate.Values.{CheckCtx}
use ooptdd.Gate.Handlers.{run, allow_of}
use ooptdd.Gate.Decorate.{passed_of}

-- A run over a stream is a run over its prefix and then over the rest.
run_from-append :
    (py : Builtins) (m m' : Monitor) (i j : ℕ) (seen later : List Event)
    → length seen + i ≡ j
    → run_from py m i seen ≡ ok m'
    → run_from py m i (seen ++ later) ≡ run_from py m' j later
unfolding run_from
run_from-append py m m' i j [] later p h =
    ap (λ n. run_from py m n later) (arith-eq i j p)
    ∙ ap (λ n. run_from py n j later) (ok-injective h)
  where
    arith-eq : (i j : ℕ) → 0 + i ≡ j → i ≡ j
    arith-eq i j p = omega arith
run_from-append py m m' i j (ev ∷ seen) later p h =
    let (m₁, a, b) = >>=-eq-ok (step py m ev (pos i)) (λ m₁. run_from py m₁ (suc i) seen) h in
    rw a (run_from-append py m₁ m' (suc i) j seen later (shifted (length seen) p) b)
  where
    shifted : (n : ℕ) → suc n + i ≡ j → n + suc i ≡ j
    shifted n p = omega arith

advance-taut :
    (m : CountMonitor) (i : ℤ) (hit : Bool)
    → Count.tautological (Count.advance m i hit) ≡ Count.tautological m
unfolding Count.advance Count.tautological
advance-taut m i true = refl
advance-taut m i false = refl

lift-taut :
    {A : Type 0} (f : A → Monitor) (r : Result A) (b : Bool)
    → ((a : A) → r ≡ ok a → taut (f a) ≡ b)
    → Returns (λ m. taut m ≡ b) (lift f r)
lift-taut f (ok a) b h = returned (h a refl)
lift-taut f (raise e) b h = raised

count_taut :
    (m : CountMonitor) (ev : Event) (i : ℤ)
    → Returns
        (λ (m' : CountMonitor). Count.tautological m' ≡ Count.tautological m)
        (Count.step m ev i)
unfolding Count.step
count_taut m ev i =
    Returns-bind (λ (m' : CountMonitor). Count.tautological m' ≡ Count.tautological m) _ _
      (λ hit h. returned (advance-taut m i hit))

step-taut :
    (py : Builtins) (m : Monitor) (ev : Event) (i : ℤ)
    → Returns (λ m'. taut m' ≡ taut m) (step py m ev i)
unfolding step
step-taut py (count m) ev i = lift-taut count (Count.step m ev i) (Count.tautological m) (λ a h.
    Returns-eq (λ (m' : CountMonitor). Count.tautological m' ≡ Count.tautological m) h
      (count_taut m ev i))
step-taut py (present m) ev i = lift-taut present _ false (λ a h. refl)
step-taut py (absent m) ev i = lift-taut absent _ false (λ a h. refl)
step-taut py (duration m) ev i = lift-taut duration _ false (λ a h. refl)
step-taut py (heartbeat m) ev i = lift-taut heartbeat _ false (λ a h. refl)
step-taut py (order m) ev i = lift-taut order _ false (λ a h. refl)
step-taut py (ratio m) ev i = lift-taut ratio _ false (λ a h. refl)
step-taut py (invariant m) ev i = lift-taut invariant _ false (λ a h. refl)
step-taut py (metamorphic m) ev i = lift-taut metamorphic _ false (λ a h. refl)
step-taut py (conforms m) ev i = returned refl

run_from-taut :
    (py : Builtins) (m : Monitor) (i : ℕ) (evs : List Event)
    → Returns (λ m'. taut m' ≡ taut m) (run_from py m i evs)
unfolding run_from
run_from-taut py m i [] = returned refl
run_from-taut py m i (ev ∷ evs) =
    Returns-bind (λ m'. taut m' ≡ taut m) (step py m ev (pos i)) _
      (λ m₁ h.
        subst (λ b. Returns (λ m'. taut m' ≡ b) (run_from py m₁ (suc i) evs))
          (Returns-eq (λ m'. taut m' ≡ taut m) h (step-taut py m ev (pos i)))
          (run_from-taut py m₁ (suc i) evs))

-- What a handler that drives a monitor did
pub record Ran (py : Builtins) (events : List Event) (rule : Fields) (ctx : CheckCtx) (v : Value)
    : Type 0 where
  pub raw : Fields
  pub start : Monitor
  pub end_ : Monitor
  pub shaped : v ≡ dict raw
  pub compiled : compile_check py rule ctx.indicators ctx.ontology (allow_of rule ctx) ≡ ok start
  pub reached : run_from py start 0 events ≡ ok end_
  pub collapsed : entries py end_ ctx.reachable ≡ ok raw

pub run-Ran :
    (py : Builtins) (events : List Event) (rule : Fields) (ctx : CheckCtx)
    → Returns (Ran py events rule ctx) (run py events rule ctx)
unfolding run
run-Ran py events rule ctx =
    Returns-bind (Ran py events rule ctx)
      (compile_check py rule ctx.indicators ctx.ontology (allow_of rule ctx)) _
      (λ m₀ h. Returns-bind (Ran py events rule ctx) (run_from py m₀ 0 events) _ (λ m k.
        Returns-bind (Ran py events rule ctx) (entries py m ctx.reachable) _ (λ fs l.
          returned (record {
            raw = fs;
            start = m₀;
            end_ = m;
            shaped = refl;
            compiled = h;
            reached = k;
            collapsed = l;
          }))))

get-found : (k : String) (fs : Fields) (o : Option Value) → find_key k fs ≡ o → get k fs ≡ or_null o
unfolding get
get-found k fs o h = ap or_null h

taut_entry-truthy : (m : Monitor) → truthy (or_null (taut_entry m)) ≡ taut m
unfolding truthy
taut_entry-truthy (count m) = refl
taut_entry-truthy (present m) = refl
taut_entry-truthy (absent m) = refl
taut_entry-truthy (duration m) = refl
taut_entry-truthy (heartbeat m) = refl
taut_entry-truthy (order m) = refl
taut_entry-truthy (ratio m) = refl
taut_entry-truthy (invariant m) = refl
taut_entry-truthy (metamorphic m) = refl
taut_entry-truthy (conforms m) = refl

sat_text : (v : Verdict) → value_eq (str (verdict_text v)) (str "sat") ≡ true → v ≡ sat
unfolding value_eq verdict_text
sat_text sat h = refl
sat_text viol h = cc
sat_text pend h = cc

passing :
    (py : Builtins) (m : Monitor) (fs : Fields)
    → Reports py m true fs
    → passed py m true ≡ ok true
    → passed_of fs ≡ ok true
unfolding passed_of
passing py m fs t h =
    rw (get-found "passed" fs _ t.passed_entry ∙ ap bool (ok-injective (sym t.judged ∙ h))) refl

dict-injective : {fs gs : Fields} → dict fs ≡ dict gs → fs ≡ gs
dict-injective h = cc

Ran-Reports :
    (py : Builtins) (evs : List Event) (rule : Fields) (ctx : CheckCtx) (fs : Fields)
    → ctx.reachable ≡ true
    → (r : Ran py evs rule ctx (dict fs)) → Reports py r.end_ true fs
Ran-Reports py evs rule ctx fs reach r =
    Returns-eq (Reports py r.end_ true)
      (ap (λ b. entries py r.end_ b) (sym reach)
        ∙ r.collapsed
        ∙ ap ok (sym (dict-injective r.shaped)))
      (entries-Reports py r.end_ true)

-- The same check over a prefix and over the whole stream: a tautology stays one, and a `sat` that is
-- settled over the prefix passes on both.
module _ (py : Builtins) (rule : Fields) (ctx : CheckCtx) (seen later : List Event)
    (fs fs' : Fields) (reach : ctx.reachable ≡ true) (before : Ran py seen rule ctx (dict fs))
    (after : Ran py (seen ++ later) rule ctx (dict fs')) where
  same_start : after.start ≡ before.start
  same_start = ok-injective (sym after.compiled ∙ before.compiled)

  extended : run_from py before.end_ (length seen) later ≡ ok after.end_
  extended =
      sym (
        run_from-append py before.start before.end_ 0 (length seen) seen later
          (plus_zero (length seen)) before.reached)
      ∙ ap (λ m. run_from py m 0 (seen ++ later)) (sym same_start)
      ∙ after.reached
    where
      plus_zero : (n : ℕ) → n + 0 ≡ n
      plus_zero n = omega arith

  prefix-Reports : Reports py before.end_ true fs
  prefix-Reports = Ran-Reports py seen rule ctx fs reach before

  whole-Reports : Reports py after.end_ true fs'
  whole-Reports = Ran-Reports py (seen ++ later) rule ctx fs' reach after

  pub same_tautology : truthy (get "tautological" fs') ≡ truthy (get "tautological" fs)
  same_tautology =
      ap truthy (get-found "tautological" fs' _ whole-Reports.tautological_entry)
      ∙ taut_entry-truthy after.end_
      ∙ Returns-eq (λ m. taut m ≡ taut before.end_) extended
          (run_from-taut py before.end_ (length seen) later)
      ∙ sym (taut_entry-truthy before.end_)
      ∙ ap truthy (sym (get-found "tautological" fs _ prefix-Reports.tautological_entry))

  module _ (final : value_eq (get "verdict" fs) (str "sat") ≡ true) where
    settled_sat : (latched before.end_).verdict ≡ sat
    settled_sat = sat_text (latched before.end_).verdict (
        ap (λ v. value_eq v (str "sat"))
          (sym (get-found "verdict" fs _ prefix-Reports.verdict_entry))
        ∙ final)

    pub prefix_passes : passed_of fs ≡ ok true
    unfolding run_from
    prefix_passes = passing py before.end_ fs prefix-Reports (
        sat_irrevocable py rule ctx.indicators ctx.ontology (allow_of rule ctx) seen []
          before.compiled before.reached refl settled_sat)

    pub whole_passes : passed_of fs' ≡ ok true
    whole_passes = passing py after.end_ fs' whole-Reports (
        sat_irrevocable py rule ctx.indicators ctx.ontology (allow_of rule ctx) seen later
          before.compiled before.reached extended settled_sat)

  pub prefix_source : get "separate_source" fs ≡ null
  prefix_source = get-found "separate_source" fs _ prefix-Reports.source_entry

  pub whole_source : get "separate_source" fs' ≡ null
  whole_source = get-found "separate_source" fs' _ whole-Reports.source_entry
