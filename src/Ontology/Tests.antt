-- ===== src/Ontology/Tests.antt =====
-- The theorem on `ontology_compat` at a vocabulary that drops a required attribute.
use ooptdd.Base.{◌≡◌, refl, pos, true, String, List, [], ◌∷◌}
use ooptdd.Value.{Event, str, num, int, field, end}
use ooptdd.Ontology.{Ontology, EventType, check_required}
use ooptdd.Ontology.Compat.{backward, ontology_compat}
use ooptdd.Ontology.Evolution.{ontology_compat-required}

abbrev paid : List String → EventType
paid required = record {
  name = "paid";
  required = required;
  constraints = [];
  additional_properties = true;
}

abbrev vocabulary : List String → Ontology
vocabulary required = record { types = paid required ∷ []; closed_world = true }

abbrev paid_event : Event
paid_event =
    field "event" (str "paid") (field "amount" (num (int (pos 5))) (field "payer" (str "ada") end))

ontology_compat-required_example : check_required ("amount" ∷ []) paid_event ≡ []
unfolding ontology_compat check_required
ontology_compat-required_example =
    ontology_compat-required (vocabulary ("amount" ∷ "payer" ∷ [])) (vocabulary ("amount" ∷ []))
      backward "paid" (paid ("amount" ∷ "payer" ∷ [])) (paid ("amount" ∷ [])) paid_event refl refl
      refl refl refl
