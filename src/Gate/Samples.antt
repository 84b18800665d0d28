-- ===== src/Gate/Samples.antt =====
-- A gate on a paid event, for the tests of the gate and of `verify_gate`.
use ooptdd.Base.{
  ◌≡◌, pos, true, false, none, some, String, List, [], ◌∷◌, Result, ok, raise, Error, Bool,
}
use ooptdd.Value.{
  int, Value, Float, finite, exact, num, str, bool, list, dict, nil, cons, field, end, Event,
  Fields, Items,
}
use ooptdd.Builtins.{Builtins}
use ooptdd.Chain.{Crypto}
use ooptdd.Gate.Values.{GatePolicy}
use ooptdd.Gate.Shell.{Request}

abbrev pub is_ok {ℓ} : {A : Type ℓ} → Result A → Bool
is_ok (ok a) = true
is_ok (raise e) = false

pub false-true : false ≡ true → ⊥
false-true h = cc

abbrev pub value_of {ℓ} : {A : Type ℓ} (r : Result A) → is_ok r ≡ true → A
value_of (ok a) h = a
value_of (raise e) h = absurd (false-true h)

abbrev float_of : Value → Result Float
float_of (num n) = ok (exact n)
float_of _ = raise Error.type_error

abbrev pub py : Builtins
py = record {
  show = λ v. "value";
  parse_fraction = λ s. none;
  lowered = λ s. s;
  rounded = λ x. x;
  to_float = float_of;
  times = λ x n. x;
  seconds = λ us. finite us 0;
  divide = λ a b. finite (pos a) 0;
  quotient = λ a b. finite (pos 1) 0;
  total = λ xs. int (pos 0);
  plus = λ a b. b;
  minus = λ a b. a;
  product = λ a b. a;
  magnitude = λ a. a;
}

abbrev pub crypto : Crypto
crypto = record { hmac = λ k s. s; sha256 = λ s. s; dumps = λ fs. "{}"; show = λ v. "value" }

abbrev pub event_of : String → Event
event_of name = field "event" (str name) end

abbrev items : List Value → Items
items [] = nil
items (v ∷ vs) = cons v (items vs)

abbrev pub paid_rule : Fields
paid_rule = field "event" (str "paid") end

abbrev pub optional_rule : Fields
optional_rule =
    field "absent" (dict (field "event" (str "refund") end)) (field "optional" (bool true) end)

abbrev pub gate_spec : Fields
gate_spec =
    field "cid" (str "run")
      (field "expect" (list (items (dict paid_rule ∷ dict optional_rule ∷ []))) end)

abbrev pub policy : GatePolicy
policy = record {
  forbid_errors = false;
  require_corroboration = false;
  require_signature = false;
  signing_key = none;
  require_independent_store = false;
}

abbrev pub request : Request
request = record {
  spec = gate_spec;
  ontology = none;
  cid = some "run";
  probe = none;
  emit_backend = none;
  emit_identity = none;
  emit_independent = none;
  emit_sampled = false;
  policy = some policy;
  registry = none;
  count_handler = none;
  strength_by_key = [];
  environ = [];
  env_keys = record {
    cid = "OOPTDD_CID";
    signing_key = "OOPTDD_SIGNING_KEY";
    require_signature = "OOPTDD_REQUIRE_SIGNATURE";
    forbid_errors = "OOPTDD_FORBID_ERRORS";
    require_corroboration = "OOPTDD_REQUIRE_CORROBORATION";
    require_independent_store = "OOPTDD_REQUIRE_INDEPENDENT";
  };
}

abbrev pub seen : List Event
seen = event_of "order" ∷ event_of "paid" ∷ []

abbrev pub later : List Event
later = event_of "refund" ∷ []
