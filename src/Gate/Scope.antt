-- ===== src/Gate/Scope.antt =====
-- `_scope` and `_oracle` of src/ooptdd/engine/gate_kernel.py: what a gate asserted, and on whose word.
use Prim.Native.Nat.{Ordering}
use Prim.Native.String.{compare}
use ooptdd.Base.{
  ℕ, zero, suc, ◌-◌, Bool, true, false, ◌&&◌, not, Option, none, some, String, str_eq, List, [],
  ◌∷◌, length, keep, count_if, take, map, if◌then◌else◌, ◌==◌, Result, ok, ◌>>=◌,
}
use ooptdd.Value.{Float, Fields, Event, get}
use ooptdd.Builtins.{Builtins}
use ooptdd.Gate.Values.{Handler, GatePolicy, GateSource}
use ooptdd.Gate.Names.{member, add_name, add_event_name, rule_event_names}

pub data Grounding : Type 0 where
  corroborated derived_self : Grounding

-- A check as `_decorate_check` leaves it: what the handler returned, and the entries that it sets
pub record Check : Type 0 where
  pub raw : Fields
  pub passed : Bool
  pub optional : Bool
  pub pending : Bool
  pub tautological : Bool
  pub weight : Float
  pub strength : String
  pub kind : String
  pub label : String
  pub demoted_same_endpoint : Bool
  pub grounding : Grounding
  pub charged : Bool

-- Not optional, not pending and not a tautology: the checks that a verdict rests on
abbrev pub is_gating : Check → Bool
is_gating c = not c.optional && (not c.pending && not c.tautological)

abbrev pub is_corroborated : Grounding → Bool
is_corroborated corroborated = true
is_corroborated derived_self = false

-- `sum(1 for c in gating if …corroborated… and c.get("passed"))`
unfoldable pub corroborations : List Check → ℕ
corroborations gating = count_if (λ (c : Check). is_corroborated c.grounding && c.passed) gating

-- `Counter(…)`
abbrev pub tally : String → List (String × ℕ) → List (String × ℕ)
tally s [] = (s, 1) ∷ []
tally s ((t, n) ∷ ps) =
    let rest = tally s ps in if str_eq t s then (t, suc n) ∷ ps else (t, n) ∷ rest

abbrev counter_from : List (String × ℕ) → List Check → List (String × ℕ)
counter_from ps [] = ps
counter_from ps (c ∷ cs) = counter_from (tally c.strength ps) cs

-- The event names of the stream, as a set
abbrev observed_from : List String → List Event → List String
observed_from ns [] = ns
observed_from ns (ev ∷ evs) = observed_from (add_event_name ns (get "event" ev)) evs

abbrev union : List String → List String → List String
union ns [] = ns
union ns (m ∷ ms) = union (add_name m ns) ms

unfoldable pub asserted_from : List String → List Fields → List Handler → Result (List String)
unfolding rule_event_names
asserted_from ns [] registry = ok ns
asserted_from ns (rule ∷ rules) registry =
    rule_event_names rule registry >>= λ ms. asserted_from (union ns ms) rules registry

abbrev precedes : Ordering → Bool
precedes Ordering.lt = true
precedes _ = false

abbrev insert_name : String → List String → List String
insert_name n [] = n ∷ []
insert_name n (m ∷ ms) =
    let rest = insert_name n ms in if precedes (compare m n) then m ∷ rest else n ∷ (m ∷ ms)

-- `sorted` of a set of names
abbrev sorted_names : List String → List String
sorted_names [] = []
sorted_names (n ∷ ns) = insert_name n (sorted_names ns)

pub record Scope : Type 0 where
  pub gating : ℕ
  pub optional : ℕ
  pub pending : ℕ
  pub total : ℕ
  pub asserts_anything : Bool
  pub by_strength : List (String × ℕ)
  pub observed_event_types : ℕ
  pub named_event_types : ℕ
  pub unasserted_observed : List String
  pub stream_coverage : Option Float
  pub charged : ℕ
  pub charge_ratio : Option Float
  pub uncharged : List String

abbrev pub is_some_check : List Check → Bool
is_some_check [] = false
is_some_check (_ ∷ _) = true

abbrev ratio_of : Builtins → ℕ → ℕ → Option Float
ratio_of py a zero = none
ratio_of py a (suc b) = some (py.divide a (suc b))

abbrev pub labels_of : List Check → List String
labels_of cs = map (λ (c : Check). c.label) cs

-- The sets of names in, and the counts out
abbrev scope_of : Builtins → List Check → List Check → List String → List String → Scope
scope_of py checks gating observed asserted =
    let named = keep (λ n. member n asserted) observed in
    let charged = count_if (λ (c : Check). c.charged) gating in
    record {
      gating = length gating;
      optional = count_if (λ (c : Check). c.optional) checks;
      pending = count_if (λ (c : Check). c.pending) checks;
      total = length checks;
      asserts_anything = is_some_check gating;
      by_strength = counter_from [] gating;
      observed_event_types = length observed;
      named_event_types = length named;
      unasserted_observed = take 10 (sorted_names (keep (λ n. not (member n asserted)) observed));
      stream_coverage = ratio_of py (length named) (length observed);
      charged = charged;
      charge_ratio = ratio_of py charged (length gating);
      uncharged = take 10 (labels_of (keep (λ (c : Check). not c.charged) gating));
    }

-- `_scope`
unfoldable pub scope :
    Builtins → List Check → List Check → List Event → List Fields → List Handler → Result Scope
unfolding get asserted_from
scope py checks gating events rules registry = asserted_from [] rules registry >>= λ asserted.
    ok (scope_of py checks gating (observed_from [] events) asserted)

pub record Oracle : Type 0 where
  pub gating : ℕ
  pub corroborated : ℕ
  pub derived_self : ℕ
  pub single_authority : Bool
  pub enforced : Bool
  pub emit_backend : Option String
  pub emit_identity : Option String
  pub emit_independent : Option Bool
  pub independent_store_enforced : Bool
  pub relocated : ℕ
  pub signature_enforced : Bool
  pub forbid_errors : Bool

-- `_oracle`
unfoldable pub oracle : GateSource → GatePolicy → List Check → ℕ → Oracle
oracle source policy gating n = record {
  gating = length gating;
  corroborated = n;
  derived_self = length gating - n;
  single_authority = is_some_check gating && (n == 0);
  enforced = policy.require_corroboration;
  emit_backend = source.emit_backend;
  emit_identity = source.emit_identity;
  emit_independent = source.emit_independent;
  independent_store_enforced = policy.require_independent_store;
  relocated = count_if (λ (c : Check). c.demoted_same_endpoint) gating;
  signature_enforced = policy.require_signature;
  forbid_errors = policy.forbid_errors;
}
