-- ===== src/Ltl/Conformance.antt =====
-- The batch validation of events and the conforms monitor agree.
use ooptdd.Base.{
  ◌≡◌, refl, sym, ap, ◌∙◌, ℕ, suc, Bool, true, false, ◌&&◌, not, Option, none, some, String, List,
  [], ◌∷◌, all, pos, ok, if◌then◌else◌, Bool-cases, Option-cases, inl, inr, &&_true, arith,
}
use ooptdd.Value.{Value, Event, str, null, get, value_eq, text?}
use ooptdd.Builtins.{Builtins}
use ooptdd.Ontology.{Ontology, find_type, validate, Problem}
use ooptdd.Ontology.Conformance.{
  Conformance, unchecked, closed?, in_scope, check_named, check_name, with_problems,
  conformance_from, check_conformance,
}
use ooptdd.Monitor.{conforms, step, run_from}
use ooptdd.Monitor.Verdicts.{Latch, viol, fresh, latch}
use ooptdd.Monitor.Conforms.{ConformsMonitor, Violation, scope_all, out_of_scope, type_of}
use ooptdd.Monitor.Conforms

abbrev pub target_value : Option String → Value
target_value none = null
target_value (some t) = str t

abbrev pub is_some_text : Option String → Bool
is_some_text none = false
is_some_text (some s) = true

-- The name of the event is a text.
abbrev pub is_named : Event → Bool
is_named ev = is_some_text (text? (get "event" ev))

-- The monitor with the counts of the batch
abbrev view : Ontology → Bool → Option String → Latch → Conformance → ConformsMonitor
view o closed target l c = record {
  latched = l;
  target = target_value target;
  ontology = some o;
  closed = closed;
  checked = c.checked;
  violations = c.violations;
  unknown = c.unknown;
}

text?-str : (v : Value) (n : String) → text? v ≡ some n → v ≡ str n
text?-str (str s) n h = ap or_str h
  where
    or_str : Option String → Value
    or_str none = null
    or_str (some s) = str s
text?-str _ n h = cc

scope_agrees :
    (target : Option String) (name : Value)
    → (not (scope_all (target_value target)) && not (value_eq name (target_value target)))
      ≡ not (in_scope target name)
unfolding scope_all value_eq
scope_agrees none name = refl
scope_agrees (some t) name = ground arith

type_of-named :
    (o : Ontology) (v : Value) (n : String) → text? v ≡ some n → type_of o v ≡ find_type n o.types
unfolding type_of
type_of-named o v n h = rw (type_of, h) refl

false-true : false ≡ true → ⊥
false-true h = cc

module _ (o : Ontology) (closed : Bool) (target : Option String) where
  abbrev next : Conformance → ℕ → Event → Conformance
  next c i ev =
      if in_scope target (get "event" ev)
      then check_name o closed [] c i (text? (get "event" ev)) ev
      else c

  declared_agrees :
      (l : Latch) (c : Conformance) (i : ℕ) (n : String) (ps : List Problem)
      → (l' : Latch) × (Conforms.declared (view o closed target l c) (str n) (pos i) ps
          ≡ view o closed target l'
              (with_problems (record c { checked = suc c.checked }) (str n) i ps))
  unfolding Conforms.declared Conforms.violate with_problems
  declared_agrees l c i n [] = (l, refl)
  declared_agrees l c i n (p ∷ ps) = (latch viol (pos i) l, refl)

  judge_agrees :
      (l : Latch) (c : Conformance) (i : ℕ) (n : String) (ev : Event)
      → get "event" ev ≡ str n
      → (l' : Latch) × (Conforms.judge (view o closed target l c) (find_type n o.types) ev (pos i)
          ≡ view o closed target l' (check_named o closed [] c i n ev))
  unfolding Conforms.judge Conforms.undeclared Conforms.violate check_named
  judge_agrees l c i n ev e = elim (Option-cases (find_type n o.types)) [
    | inl f ↦
        rw (f, e)
          (elim (Bool-cases closed) [
            | inl k ↦ rw k (latch viol (pos i) l, refl)
            | inr k ↦ rw k (l, refl)
          ])
    | inr (et, f) ↦ rw (f, e) (declared_agrees l c i n (validate et ev))
  ]

  step_agrees :
      (l : Latch) (c : Conformance) (i : ℕ) (ev : Event)
      → is_named ev ≡ true
      → (l' : Latch) × (Conforms.step (view o closed target l c) ev (pos i)
          ≡ view o closed target l' (next c i ev))
  unfolding Conforms.step Conforms.step_with check_name
  step_agrees l c i ev h = elim (Option-cases (text? (get "event" ev))) [
    | inl t ↦ absurd (false-true (sym (ap is_some_text t) ∙ h))
    | inr (n, t) ↦ elim (Bool-cases (in_scope target (get "event" ev))) [
      | inl s ↦
          rw
            (
              scope_agrees target (get "event" ev) ∙ ap not s,
              s,
              t,
              type_of-named o (get "event" ev) n t,
            )
            (judge_agrees l c i n ev (text?-str (get "event" ev) n t))
      | inr s ↦ rw (scope_agrees target (get "event" ev) ∙ ap not s, s) (l, refl)
    ]
  ]

  run_agrees :
      (py : Builtins) (l : Latch) (c : Conformance) (i : ℕ) (evs : List Event)
      → all is_named evs ≡ true
      → (l' : Latch) × (run_from py (conforms (view o closed target l c)) i evs
          ≡ ok (conforms (view o closed target l' (conformance_from o closed target [] c i evs))))
  unfolding run_from step conformance_from
  run_agrees py l c i [] h = (l, refl)
  run_agrees py l c i (ev ∷ evs) h =
      let (a, b) = &&_true (is_named ev) (all is_named evs) h in
      let (l₁, e) = step_agrees l c i ev a in
      let (l₂, k) = run_agrees py l₁ (next c i ev) (suc i) evs b in
      (l₂, ap (λ m. run_from py (conforms m) (suc i) evs) e ∙ k)

-- The batch validation and the stream agree. If the name of every event is a text,
-- `check_conformance` without excluded names counts as many events, reports the same violations in
-- the same order and lists the same unknown names as a conforms monitor with the same ontology,
-- target and closed world that is run over the events.
pub check_conformance-run :
    (py : Builtins) (o : Ontology) (target : Option String) (closed : Option Bool)
    (evs : List Event)
    → all is_named evs ≡ true
    → (m : ConformsMonitor) × (run_from py
          (conforms (Conforms.new (target_value target) (some o) closed))
          0
          evs
        ≡ ok (conforms m))
      × (m.checked ≡ (check_conformance o target closed [] evs).checked)
      × (m.violations ≡ (check_conformance o target closed [] evs).violations)
      × (m.unknown ≡ (check_conformance o target closed [] evs).unknown)
unfolding check_conformance Conforms.new
check_conformance-run py o target closed evs h =
    let (l, e) = run_agrees o (closed? o closed) target py fresh unchecked 0 evs h in
    (
      view o (closed? o closed) target l
          (conformance_from o (closed? o closed) target [] unchecked 0 evs),
      ap
            (λ b.
              run_from py
                (conforms
                  (record (Conforms.new (target_value target) (some o) closed) { closed = b }))
                0 evs)
            (same_closed closed)
          ∙ e,
      refl,
      refl,
      refl,
    )
  where
    same_closed :
        (b : Option Bool) → (Conforms.new (target_value target) (some o) b).closed ≡ closed? o b
    same_closed none = refl
    same_closed (some b) = refl
