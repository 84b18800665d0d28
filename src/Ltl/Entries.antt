-- ===== src/Ltl/Entries.antt =====
-- What the dictionaries of the monitors hold, for every class.
use ooptdd.Base.{
  ◌≡◌, refl, ap, ◌∙◌, Bool, true, false, ◌&&◌, not, Option, none, some, String, str_eq, List, ok,
  Returns, returned, Returns-bind, Bool-cases, Option-cases, inl, inr, if◌then◌else◌, pos, ltb,
  ◌==◌, ltb_ℤ,
}
use ooptdd.Value.{
  Number, num, float, int, Value, Fields, bool, str, end, field, find_key, has_key, merge, set_key,
}
use ooptdd.Value.Keys.{find_key-set_key, find_key-set_key_other}
use ooptdd.Builtins.{Builtins}
use ooptdd.Match.Label.{matcher_label}
use ooptdd.Monitor.{
  Monitor, count, present, absent, duration, heartbeat, order, ratio, invariant, metamorphic,
  conforms, latched, passed,
}
use ooptdd.Monitor.Verdicts.{Latch, verdict_text, stamp}
use ooptdd.Monitor.Count
use ooptdd.Monitor.Count.{CountMonitor}
use ooptdd.Monitor.Present
use ooptdd.Monitor.Absent
use ooptdd.Monitor.Duration
use ooptdd.Monitor.Duration.{DurationMonitor}
use ooptdd.Monitor.Heartbeat
use ooptdd.Monitor.Heartbeat.{HeartbeatMonitor, edge_entries}
use ooptdd.Monitor.Order
use ooptdd.Monitor.Order.{OrderMonitor, bound_entries, exceeded}
use ooptdd.Monitor.Ratio
use ooptdd.Monitor.Ratio.{RatioMonitor, then_stamp}
use ooptdd.Monitor.Reduce.{reduce_side}
use ooptdd.Monitor.Relation.{
  InvariantMonitor, MetamorphicMonitor, evidence, invariant_holds, metamorphic_holds,
}
use ooptdd.Monitor.Relation
use ooptdd.Monitor.Conforms
use ooptdd.Monitor.Conforms.{ConformsMonitor}
use ooptdd.Monitor.Entries.{
  entries, collapse_invariant, collapse_metamorphic, collapse_conforms, no_evidence, factor_entry,
}

-- Is the check a tautology? Only a count says so.
abbrev pub taut : Monitor → Bool
taut (count m) = Count.tautological m
taut (present m) = false
taut _ = false

abbrev pub taut_entry : Monitor → Option Value
taut_entry (count m) = some (bool (Count.tautological m))
taut_entry (present m) = none
taut_entry _ = none

abbrev pub is_order : Monitor → Bool
is_order (order m) = true
is_order (count m) = false
is_order _ = false

-- What every dictionary tells of its monitor
pub record Reports (py : Builtins) (m : Monitor) (r : Bool) (fs : Fields) : Type 0 where
  pub holds : Bool
  pub judged : passed py m r ≡ ok holds
  pub passed_entry : find_key "passed" fs ≡ some (bool holds)
  pub verdict_entry : find_key "verdict" fs ≡ some (str (verdict_text (latched m).verdict))
  pub tautological_entry : find_key "tautological" fs ≡ taut_entry m
  pub order_entry : has_key "must_order" fs ≡ is_order m
  pub source_entry : find_key "separate_source" fs ≡ none

abbrev known : Option Value → Bool
known none = false
known (some v) = true

count-Reports :
    (py : Builtins) (m : CountMonitor) (r : Bool)
    → Returns (Reports py (count m) r) (Count.collapse m r)
unfolding Count.collapse stamp find_key has_key passed
count-Reports py m r = Returns-bind (Reports py (count m) r) (Count.passed m r) _ (λ p h.
    returned (record {
      holds = p;
      judged = h;
      passed_entry = refl;
      verdict_entry = refl;
      tautological_entry = refl;
      order_entry = refl;
      source_entry = refl;
    }))

-- The two entries that `_stamp` adds, and those that it leaves
stamp_verdict :
    (a : Fields) (l : Latch)
    → find_key "verdict" (merge a (stamp l)) ≡ some (str (verdict_text l.verdict))
unfolding merge stamp
stamp_verdict a l =
    find_key-set_key_other "verdict" "settled_at" _
      (set_key "verdict" (str (verdict_text l.verdict)) a) refl
    ∙ find_key-set_key "verdict" (str (verdict_text l.verdict)) a

stamp_other :
    (k : String) (a : Fields) (l : Latch)
    → str_eq "settled_at" k ≡ false
    → str_eq "verdict" k ≡ false
    → find_key k (merge a (stamp l)) ≡ find_key k a
unfolding merge stamp
stamp_other k a l h g =
    find_key-set_key_other k "settled_at" _ (set_key "verdict" (str (verdict_text l.verdict)) a) h
    ∙ find_key-set_key_other k "verdict" (str (verdict_text l.verdict)) a g

bounds_silent :
    (k : String) (w : Option Number) (gs : List String)
    → str_eq "within_s" k ≡ false
    → str_eq "gaps_exceeded" k ≡ false
    → find_key k (bound_entries w gs) ≡ none
unfolding find_key
bounds_silent k none gs h g = refl
bounds_silent k (some w) gs h g = rw (h, g)

order-Reports :
    (py : Builtins) (m : OrderMonitor) (r : Bool) → Reports py (order m) r (Order.collapse py m r)
unfolding Order.collapse find_key has_key passed
order-Reports py m r =
    let tail = bound_entries m.within_s (exceeded py m) in
    record {
      holds = Order.passed py m r;
      judged = refl;
      passed_entry = refl;
      verdict_entry = stamp_verdict tail m.latched;
      tautological_entry =
          stamp_other "tautological" tail m.latched refl refl
          ∙ bounds_silent "tautological" m.within_s (exceeded py m) refl refl;
      order_entry = refl;
      source_entry =
          stamp_other "separate_source" tail m.latched refl refl
          ∙ bounds_silent "separate_source" m.within_s (exceeded py m) refl refl;
    }

-- A dictionary whose head has the entry `passed` and whose tail is stamped
reason_silent :
    (k text : String) (o : Option (Number × Number))
    → str_eq "reason" k ≡ false
    → find_key k (no_evidence text o) ≡ none
unfolding find_key
reason_silent k text none h = rw h
reason_silent k text (some x) h = refl

invariant-Reports :
    (py : Builtins) (m : InvariantMonitor) (r : Bool)
    → Returns (Reports py (invariant m) r) (collapse_invariant py m r)
unfolding collapse_invariant passed Relation.passed_invariant find_key has_key
invariant-Reports py m r =
    Returns-bind (Reports py (invariant m) r) (reduce_side py m.left) _ (λ x h.
      Returns-bind (Reports py (invariant m) r) (reduce_side py m.right) _ (λ y g.
        Returns-bind (Reports py (invariant m) r)
          (invariant_holds py m (evidence m.left m.right x y) r) _
          (λ p k.
            let o = evidence m.left m.right x y in
            let tail = no_evidence "invariant_no_evidence" o in
            returned (record {
              holds = p;
              judged = rw (h, g) k;
              passed_entry = refl;
              verdict_entry = stamp_verdict tail m.latched;
              tautological_entry =
                  stamp_other "tautological" tail m.latched refl refl
                  ∙ reason_silent "tautological" "invariant_no_evidence" o refl;
              order_entry = ap known (
                  stamp_other "must_order" tail m.latched refl refl
                  ∙ reason_silent "must_order" "invariant_no_evidence" o refl);
              source_entry =
                  stamp_other "separate_source" tail m.latched refl refl
                  ∙ reason_silent "separate_source" "invariant_no_evidence" o refl;
            }))))

factor_silent :
    (k : String) (m : MetamorphicMonitor) (fs : Fields)
    → str_eq "factor" k ≡ false
    → find_key k (factor_entry m fs) ≡ find_key k fs
unfolding find_key
factor_silent k m fs h = elim (Bool-cases (str_eq m.relation "scaled")) [
  | inl e ↦ rw (e, h)
  | inr e ↦ rw e
]

metamorphic-Reports :
    (py : Builtins) (m : MetamorphicMonitor) (r : Bool)
    → Returns (Reports py (metamorphic m) r) (collapse_metamorphic py m r)
unfolding collapse_metamorphic passed Relation.passed_metamorphic find_key has_key
metamorphic-Reports py m r =
    Returns-bind (Reports py (metamorphic m) r) (reduce_side py m.a) _ (λ x h.
      Returns-bind (Reports py (metamorphic m) r) (reduce_side py m.b) _ (λ y g.
        Returns-bind (Reports py (metamorphic m) r)
          (metamorphic_holds py m (evidence m.a m.b x y) r) _
          (λ p k.
            let o = evidence m.a m.b x y in
            let tail = no_evidence "metamorphic_no_evidence" o in
            let rest = field "passed" (bool p) (merge tail (stamp m.latched)) in
            returned (record {
              holds = p;
              judged = rw (h, g) k;
              passed_entry = factor_silent "passed" m rest refl;
              verdict_entry = factor_silent "verdict" m rest refl ∙ stamp_verdict tail m.latched;
              tautological_entry =
                  factor_silent "tautological" m rest refl
                  ∙ stamp_other "tautological" tail m.latched refl refl
                  ∙ reason_silent "tautological" "metamorphic_no_evidence" o refl;
              order_entry = ap known (
                  factor_silent "must_order" m rest refl
                  ∙ stamp_other "must_order" tail m.latched refl refl
                  ∙ reason_silent "must_order" "metamorphic_no_evidence" o refl);
              source_entry =
                  factor_silent "separate_source" m rest refl
                  ∙ stamp_other "separate_source" tail m.latched refl refl
                  ∙ reason_silent "separate_source" "metamorphic_no_evidence" o refl;
            }))))

-- The entry `reason` of a ratio, before the stamp
ratio_tail :
    (k : String) (m : RatioMonitor)
    → str_eq "reason" k ≡ false
    → find_key k (then_stamp (Ratio.reason m) (stamp m.latched)) ≡ find_key k (stamp m.latched)
unfolding Ratio.reason find_key
ratio_tail k m h = elim (Bool-cases (m.total == 0)) [
  | inl e ↦ rw (e, h)
  | inr e ↦ elim (Bool-cases (ltb m.total m.good)) [ inl f ↦ rw (e, f, h) | inr f ↦ rw (e, f) ]
]

ratio-Reports :
    (py : Builtins) (m : RatioMonitor) (r : Bool)
    → Returns (Reports py (ratio m) r) (Ratio.collapse py m r)
unfolding Ratio.collapse passed find_key has_key stamp
ratio-Reports py m r = Returns-bind (Reports py (ratio m) r) (Ratio.passed py m r) _ (λ p h.
    returned (record {
      holds = p;
      judged = h;
      passed_entry = refl;
      verdict_entry = ratio_tail "verdict" m refl;
      tautological_entry = ratio_tail "tautological" m refl;
      order_entry = ap known (ratio_tail "must_order" m refl);
      source_entry = ratio_tail "separate_source" m refl;
    }))

if_both {ℓ} :
    {A : Type 0} (P : A → Type ℓ) (b : Bool) (x y : A) → P x → P y → P (if b then x else y)
if_both P true x y h k = h
if_both P false x y h k = k

-- The entries that `edge_silence` adds have one of three shapes.
edge_shape {ℓ} :
    (P : Fields → Type ℓ) (py : Builtins) (m : HeartbeatMonitor)
    → P end
    → ((v : Value) → P (field "edge_silence_s" v end))
    → ((v w : Value) → P (field "edge_silence_s" v (field "reason" w end)))
    → P (edge_entries py m)
unfolding edge_entries
edge_shape P py m a b c =
    if_both P m.edge_silence _ end
      (if_both (λ x. P (field "edge_silence_s" (num (float (py.seconds (Heartbeat.edge_gap m)))) x))
        (not (Heartbeat.within py m) && ltb_ℤ m.max_gap_us (Heartbeat.edge_gap m)) _ end (c _ _)
        (b _))
      a

abbrev beats_entries : Builtins → HeartbeatMonitor → Bool → Fields
beats_entries py m r = field "heartbeat" m.name (
    field "every_s" (num (float m.every_s)) (
      field "beats" (num (int (pos m.beats))) (
        field "max_gap_s" (num (float (py.seconds (Heartbeat.effective m)))) (
          field "inter_beat_max_gap_s" (num (float (py.seconds m.max_gap_us)))
            (field "passed" (bool (r && Heartbeat.within py m)) end)))))

heartbeat-Reports :
    (py : Builtins) (m : HeartbeatMonitor) (r : Bool)
    → Reports py (heartbeat m) r (Heartbeat.collapse py m r)
unfolding Heartbeat.collapse passed Heartbeat.passed stamp merge set_key find_key has_key
heartbeat-Reports py m r = elim (Bool-cases (m.beats == 0)) [
  | inl e ↦ rw e (record {
    holds = false;
    judged = rw e;
    passed_entry = refl;
    verdict_entry = refl;
    tautological_entry = refl;
    order_entry = refl;
    source_entry = refl;
  })
  | inr e ↦ rw e (
      edge_shape
        (λ x. Reports py (heartbeat m) r (merge (beats_entries py m r) (merge x (stamp m.latched))))
        py m
        (record {
          holds = r && Heartbeat.within py m;
          judged = rw e;
          passed_entry = refl;
          verdict_entry = refl;
          tautological_entry = refl;
          order_entry = refl;
          source_entry = refl;
        })
        (λ v. record {
          holds = r && Heartbeat.within py m;
          judged = rw e;
          passed_entry = refl;
          verdict_entry = refl;
          tautological_entry = refl;
          order_entry = refl;
          source_entry = refl;
        })
        (λ v w. record {
          holds = r && Heartbeat.within py m;
          judged = rw e;
          passed_entry = refl;
          verdict_entry = refl;
          tautological_entry = refl;
          order_entry = refl;
          source_entry = refl;
        }))
]

conforms-Reports :
    (py : Builtins) (m : ConformsMonitor) (r : Bool)
    → Reports py (conforms m) r (collapse_conforms m r)
unfolding collapse_conforms passed Conforms.passed stamp find_key has_key
conforms-Reports py m r = elim (Option-cases m.ontology) [
  | inl e ↦ record {
    holds = Conforms.passed m r;
    judged = refl;
    passed_entry = rw e;
    verdict_entry = rw e;
    tautological_entry = rw e;
    order_entry = rw e;
    source_entry = rw e;
  }
  | inr (o, e) ↦ record {
    holds = Conforms.passed m r;
    judged = refl;
    passed_entry = rw e;
    verdict_entry = rw e;
    tautological_entry = rw e;
    order_entry = rw e;
    source_entry = rw e;
  }
]

duration-Reports :
    (py : Builtins) (m : DurationMonitor) (r : Bool)
    → Returns (Reports py (duration m) r) (Duration.collapse py m r)
unfolding Duration.collapse passed stamp find_key has_key
duration-Reports py m r =
    Returns-bind (Reports py (duration m) r) (matcher_label py m.matcher) _ (λ l h.
      returned (record {
        holds = Duration.passed m r;
        judged = refl;
        passed_entry = refl;
        verdict_entry = refl;
        tautological_entry = refl;
        order_entry = refl;
        source_entry = refl;
      }))

-- The dictionary that a monitor of any class collapses to has an exact Boolean under `passed`, which is
-- the verdict of the class, the three-valued verdict of its latch under `verdict`, `tautological` if
-- and only if it counts, `must_order` if and only if it orders, and no claim of another source; where
-- the collapse raises, nothing is claimed.
pub entries-Reports :
    (py : Builtins) (m : Monitor) (r : Bool) → Returns (Reports py m r) (entries py m r)
unfolding entries Present.collapse Absent.collapse passed stamp find_key has_key
entries-Reports py (count m) r = count-Reports py m r
entries-Reports py (present m) r = returned (record {
  holds = Present.passed m r;
  judged = refl;
  passed_entry = refl;
  verdict_entry = refl;
  tautological_entry = refl;
  order_entry = refl;
  source_entry = refl;
})
entries-Reports py (absent m) r = returned (record {
  holds = Absent.passed m r;
  judged = refl;
  passed_entry = refl;
  verdict_entry = refl;
  tautological_entry = refl;
  order_entry = refl;
  source_entry = refl;
})
entries-Reports py (duration m) r = duration-Reports py m r
entries-Reports py (heartbeat m) r = returned (heartbeat-Reports py m r)
entries-Reports py (order m) r = returned (order-Reports py m r)
entries-Reports py (ratio m) r = ratio-Reports py m r
entries-Reports py (invariant m) r = invariant-Reports py m r
entries-Reports py (metamorphic m) r = metamorphic-Reports py m r
entries-Reports py (conforms m) r = returned (conforms-Reports py m r)
