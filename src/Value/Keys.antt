-- ===== src/Value/Keys.antt =====
-- Looking a key up in a dictionary that was extended or merged.
use ooptdd.Base.{
  ◌≡◌, ap, ◌∙◌, false, some, String, str_eq, str_eq_refl, str_eq→eq, inl, inr, Bool-cases,
}
use ooptdd.Value.{Value, Fields, end, field, find_key, get, set_key}

pub find_key-set_key : (k : String) (v : Value) (fs : Fields) → find_key k (set_key k v fs) ≡ some v
unfolding set_key find_key
find_key-set_key k v end = rw (str_eq_refl k)
find_key-set_key k v (field j w fs) = elim (Bool-cases (str_eq j k)) [
  | inl e ↦ rw (e, e)
  | inr e ↦ rw (e, e, find_key-set_key k v fs)
]

pub find_key-set_key_other :
    (j k : String) (v : Value) (fs : Fields)
    → str_eq k j ≡ false
    → find_key j (set_key k v fs) ≡ find_key j fs
unfolding set_key find_key
find_key-set_key_other j k v end h = rw h
find_key-set_key_other j k v (field i w fs) h = elim (Bool-cases (str_eq i k)) [
  | inl e ↦ let e' = ap (λ i. str_eq i j) (str_eq→eq i k e) ∙ h in rw (e, e')
  | inr e ↦ rw (e, find_key-set_key_other j k v fs h)
]

pub get-set_key : (k : String) (v : Value) (rec : Fields) → get k (set_key k v rec) ≡ v
unfolding get
get-set_key k v rec = rw (find_key-set_key k v rec)

pub get-set_key_other :
    (j k : String) (v : Value) (rec : Fields)
    → str_eq k j ≡ false
    → get j (set_key k v rec) ≡ get j rec
unfolding get
get-set_key_other j k v rec h = rw (find_key-set_key_other j k v rec h)
