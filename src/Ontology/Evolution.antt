-- ===== src/Ontology/Evolution.antt =====
-- What a backward compatible vocabulary keeps.
use ooptdd.Base.{
  ◌≡◌, refl, sym, ap, ◌∙◌, Bool, true, ◌||◌, not, some, String, str_eq, str_eq→eq, List, [], ◌∷◌,
  ◌++◌, all, map, if◌then◌else◌, Bool-cases, inl, inr, &&_true, arith, subst,
}
use ooptdd.Value.{Event, get, is_null}
use ooptdd.Ontology.{Ontology, EventType, check_required, find_type}
use ooptdd.Ontology.Compat.{
  Mode, looks_back, looks_forward, Break, required_added, among, without, shared_breaks, old_breaks,
  kept_from, added_from, ontology_compat,
}

some-injective {ℓ} : {A : Type ℓ} {a b : A} → some a ≡ some b → a ≡ b
some-injective e = cc

append_empty : (xs ys : List Break) → (xs ++ ys) ≡ [] → (xs ≡ []) × (ys ≡ [])
append_empty [] ys h = (refl, h)
append_empty (x ∷ xs) ys h = cc

map_empty : {A : Type 0} (f : A → Break) (xs : List A) → map f xs ≡ [] → xs ≡ []
map_empty f [] h = refl
map_empty f (x ∷ xs) h = cc

-- Every name of the one list is in the other.
without_empty : (xs ys : List String) → without xs ys ≡ [] → all (λ x. among x ys) xs ≡ true
without_empty [] ys h = refl
without_empty (x ∷ xs) ys h = ground (arith, without_empty xs ys)

-- The attribute is there.
abbrev has_attr : Event → String → Bool
has_attr ev k = not (is_null (get k ev))

required_met :
    (ks : List String) (ev : Event) → check_required ks ev ≡ [] → all (has_attr ev) ks ≡ true
unfolding check_required
required_met [] ev h = refl
required_met (k ∷ ks) ev h = ground (arith, required_met ks ev)

met_required :
    (ks : List String) (ev : Event) → all (has_attr ev) ks ≡ true → check_required ks ev ≡ []
unfolding check_required
met_required [] ev h = refl
met_required (k ∷ ks) ev h = ground (arith, met_required ks ev)

among_has :
    (ev : Event) (k : String) (ks : List String)
    → among k ks ≡ true
    → all (has_attr ev) ks ≡ true
    → has_attr ev k ≡ true
among_has ev k [] h a = cc
among_has ev k (j ∷ ks) h a =
    let (b, bs) = &&_true (has_attr ev j) (all (has_attr ev) ks) a in
    elim (Bool-cases (str_eq k j)) [
      | inl e ↦ subst (λ i. has_attr ev i ≡ true) (sym (str_eq→eq k j e)) b
      | inr e ↦ among_has ev k ks (ap (λ x. x || among k ks) (sym e) ∙ h) bs
    ]

all_has :
    (ev : Event) (ks js : List String)
    → all (λ k. among k js) ks ≡ true
    → all (has_attr ev) js ≡ true
    → all (has_attr ev) ks ≡ true
all_has ev [] js h a = refl
all_has ev (k ∷ ks) js h a =
    let (b, bs) = &&_true (among k js) (all (λ k. among k js) ks) h in
    rw (among_has ev k js b a) (all_has ev ks js bs a)

shared_required :
    (fwd : Bool) (o n : EventType)
    → shared_breaks true fwd o n ≡ []
    → without n.required o.required ≡ []
unfolding shared_breaks
shared_required fwd o n h =
    map_empty (required_added o.name) (without n.required o.required) (append_empty _ _ h).0

found_breaks :
    (fwd : Bool) (new : Ontology) (os : List EventType) (name : String) (o n : EventType)
    → kept_from true fwd new os ≡ []
    → find_type name os ≡ some o
    → find_type name new.types ≡ some n
    → shared_breaks true fwd o n ≡ []
unfolding kept_from find_type
found_breaks fwd new [] name o n h f g = cc
found_breaks fwd new (t ∷ os) name o n h f g =
    let (here, rest) =
      append_empty (old_breaks true fwd new.closed_world t (find_type t.name new.types))
        (kept_from true fwd new os) h in
    elim (Bool-cases (str_eq t.name name)) [
      | inl e ↦
          let same =
            some-injective (ap (λ b. if b then some t else find_type name os) (sym e) ∙ f) in
          let found = ap (λ k. find_type k new.types) (str_eq→eq t.name name e) ∙ g in
          subst (λ x. shared_breaks true fwd x n ≡ []) same
            (ap (old_breaks true fwd new.closed_world t) (sym found) ∙ here)
      | inr e ↦
          found_breaks fwd new os name o n rest
            (ap (λ b. if b then some t else find_type name os) (sym e) ∙ f) g
    ]

-- A backward compatible vocabulary asks for no attribute that old data may lack. If `ontology_compat`
-- finds no violation in a mode that looks back, and a name is declared in both vocabularies, then an
-- event that has every attribute that the old type requires has every one that the new type
-- requires.
pub ontology_compat-required :
    (old new : Ontology) (mode : Mode) (name : String) (o n : EventType) (ev : Event)
    → looks_back mode ≡ true
    → ontology_compat old new mode ≡ []
    → find_type name old.types ≡ some o
    → find_type name new.types ≡ some n
    → check_required o.required ev ≡ []
    → check_required n.required ev ≡ []
unfolding ontology_compat
ontology_compat-required old new mode name o n ev b h f g v =
    let kept =
      (append_empty (kept_from (looks_back mode) (looks_forward mode) new old.types)
        (added_from (looks_forward mode) old new.types) h).0 in
    let shared =
      found_breaks (looks_forward mode) new old.types name o n
        (ap (λ x. kept_from x (looks_forward mode) new old.types) (sym b) ∙ kept) f g in
    met_required n.required ev (
      all_has ev n.required o.required
        (without_empty n.required o.required (shared_required (looks_forward mode) o n shared))
        (required_met o.required ev v))
