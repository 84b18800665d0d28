-- ===== src/Monitor/Entries.antt =====
-- The dictionaries that the `collapse` methods of src/ooptdd/engine/monitor.py return: those of the
-- relations and of `ConformsMonitor`, and the dispatch. A sentence that reports a problem is named by
-- its kind and its attribute.
use Prim.Native.String.{◌++◌ as ◌++ₛ◌}
use ooptdd.Base.{
  Bool, false, Option, none, some, String, str_eq, List, [], ◌∷◌, map, if◌then◌else◌, Result, ok,
  ◌>>=◌, pos,
}
use ooptdd.Value.{
  Event, Number, int, float, Value, Fields, null, bool, num, str, list, dict, nil, cons, end, field,
  merge, truthy,
}
use ooptdd.Builtins.{Builtins}
use ooptdd.Match.Label.{items}
use ooptdd.Ontology.{
  Problem, missing, not_in_enum, not_of_type, below_min, above_max, unexpected, unknown_event_type,
  ontology_not_loaded, name_not_text,
}
use ooptdd.Monitor.{
  Monitor, count, present, absent, duration, heartbeat, order, ratio, invariant, metamorphic,
  conforms, run_from,
}
use ooptdd.Monitor.Verdicts.{stamp}
use ooptdd.Monitor.Count
use ooptdd.Monitor.Present
use ooptdd.Monitor.Absent
use ooptdd.Monitor.Duration
use ooptdd.Monitor.Heartbeat
use ooptdd.Monitor.Order
use ooptdd.Monitor.Ratio
use ooptdd.Monitor.Reduce.{Side, reduce_side}
use ooptdd.Monitor.Relation.{
  InvariantMonitor, MetamorphicMonitor, evidence, invariant_holds, metamorphic_holds,
}
use ooptdd.Monitor.Conforms.{ConformsMonitor, Violation}
use ooptdd.Monitor.Conforms

abbrev number_value : Option Number → Value
number_value none = null
number_value (some n) = num n

-- `self.field or self.event`, in a format string
abbrev side_text : Builtins → Side → String
side_text py s =
    s.reduce
    ++ₛ ("(" ++ₛ (py.show (if truthy s.field_name then s.field_name else s.matcher.event) ++ₛ ")"))

abbrev pub no_evidence : String → Option (Number × Number) → Fields
no_evidence text none = field "reason" (str text) end
no_evidence text (some _) = end

-- `InvariantMonitor.collapse`
unfoldable pub collapse_invariant : Builtins → InvariantMonitor → Bool → Result Fields
unfolding stamp truthy
collapse_invariant py m reachable = do
  x ← reduce_side py m.left
  y ← reduce_side py m.right
  p ← invariant_holds py m (evidence m.left m.right x y) reachable
  ok (
      field "invariant"
        (str (side_text py m.left ++ₛ (" " ++ₛ (m.op ++ₛ (" " ++ₛ side_text py m.right)))))
        (field "left" (number_value x) (
          field "right" (number_value y) (
            field "op" (str m.op) (
              field "tol" (num (float m.tol)) (
                field "passed" (bool p) (
                  merge (no_evidence "invariant_no_evidence" (evidence m.left m.right x y))
                    (stamp m.latched))))))))

-- `base["factor"]`
abbrev pub factor_entry : MetamorphicMonitor → Fields → Fields
factor_entry m rest =
    if str_eq m.relation "scaled" then field "factor" (num (float m.factor)) rest else rest

-- `MetamorphicMonitor.collapse`
unfoldable pub collapse_metamorphic : Builtins → MetamorphicMonitor → Bool → Result Fields
unfolding stamp
collapse_metamorphic py m reachable = do
  x ← reduce_side py m.a
  y ← reduce_side py m.b
  p ← metamorphic_holds py m (evidence m.a m.b x y) reachable
  ok (
      field "metamorphic" (str m.relation) (
        field "relation" (str m.relation) (
          field "reduce" (str m.a.reduce) (
            field "left" (number_value x) (
              field "right" (number_value y) (
                field "tol" (num (float m.tol)) (
                  factor_entry m (
                    field "passed" (bool p) (
                      merge (no_evidence "metamorphic_no_evidence" (evidence m.a m.b x y))
                        (stamp m.latched))))))))))

abbrev sentence : Problem → Value
sentence (missing k) = str ("missing required attr '" ++ₛ (k ++ₛ "'"))
sentence (not_in_enum k) = str ("'" ++ₛ (k ++ₛ "' not in enum"))
sentence (not_of_type k) = str ("'" ++ₛ (k ++ₛ "' is not type"))
sentence (below_min k) = str ("'" ++ₛ (k ++ₛ "' < min"))
sentence (above_max k) = str ("'" ++ₛ (k ++ₛ "' > max"))
sentence (unexpected k) = str ("unexpected attr '" ++ₛ (k ++ₛ "' (additionalProperties:false)"))
sentence unknown_event_type = str "unknown_event_type (closed-world drift)"
sentence name_not_text = str "event name must be a string"
sentence ontology_not_loaded =
    str "ontology_not_loaded (set `ontology:` in the spec or pass ontology=)"

abbrev sentences : List Problem → Value
sentences ps = list (items (map sentence ps))

abbrev violation_entry : Violation → Value
violation_entry v = dict (
    field "event" v.event
      (field "index" (num (int v.index)) (field "problems" (sentences v.problems) end)))

abbrev not_loaded : Value
not_loaded = list (cons (dict (field "problems" (sentences (ontology_not_loaded ∷ [])) end)) nil)

-- `ConformsMonitor.collapse`
unfoldable pub collapse_conforms : ConformsMonitor → Bool → Fields
unfolding stamp Conforms.passed
collapse_conforms m reachable = elim m.ontology [
  | none ↦ field "conforms" m.target (
      field "passed" (bool false) (
        field "checked" (num (int (pos 0)))
          (field "violations" not_loaded (field "unknown" (list nil) (stamp m.latched)))))
  | some _ ↦ field "conforms" m.target (
      field "passed" (bool (Conforms.passed m reachable)) (
        field "checked" (num (int (pos m.checked))) (
          field "violations" (list (items (map violation_entry m.violations)))
            (field "unknown" (list (items m.unknown)) (stamp m.latched)))))
]

-- `Monitor.collapse`
unfoldable pub entries : Builtins → Monitor → Bool → Result Fields
unfolding collapse_invariant collapse_metamorphic collapse_conforms
entries py (count m) r = Count.collapse m r
entries py (present m) r = ok (Present.collapse m r)
entries py (absent m) r = ok (Absent.collapse m r)
entries py (duration m) r = Duration.collapse py m r
entries py (heartbeat m) r = ok (Heartbeat.collapse py m r)
entries py (order m) r = ok (Order.collapse py m r)
entries py (ratio m) r = Ratio.collapse py m r
entries py (invariant m) r = collapse_invariant py m r
entries py (metamorphic m) r = collapse_metamorphic py m r
entries py (conforms m) r = ok (collapse_conforms m r)

-- `run_monitor`
unfoldable pub run_monitor : Builtins → Monitor → List Event → Bool → Result Fields
run_monitor py m evs r = run_from py m 0 evs >>= λ m'. entries py m' r
