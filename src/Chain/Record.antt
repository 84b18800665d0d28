-- ===== src/Chain/Record.antt =====
-- The signature of one record.
use ooptdd.Base.{
  ◌≡◌, refl, ap, Bool, true, false, ◌&&◌, ◌||◌, Option, none, some, String, str_eq, ok, not,
}
use ooptdd.Value.{Value, Fields, str, get, set_key, truthy}
use ooptdd.Chain.{
  Crypto, is_ascii, canonical, transport, underscored, sign_record, signature_status, valid,
}
use ooptdd.Chain.Intact.{project-set_key, compare_digest_refl}
use ooptdd.Value.Keys.{get-set_key, get-set_key_other}

-- The keys that a signature leaves out
abbrev pub unsigned_key : String → Bool
unsigned_key k = transport k || underscored k

canonical-set_key :
    (py : Crypto) (k : String) (v : Value) (rec : Fields)
    → unsigned_key k ≡ true
    → canonical py (set_key k v rec) ≡ canonical py rec
unfolding canonical
canonical-set_key py k v rec h = ap py.dumps (
    project-set_key (λ k. not (transport k) && not (underscored k)) k v rec
      (left_out (transport k) (underscored k) h))
  where
    left_out : (a b : Bool) → (a || b) ≡ true → (not a && not b) ≡ false
    left_out true b h = refl
    left_out false true h = refl
    left_out false false h = cc

sign_record-set_key :
    (py : Crypto) (k : String) (v : Value) (rec : Fields) (key : String)
    → unsigned_key k ≡ true
    → sign_record py (set_key k v rec) key ≡ sign_record py rec key
unfolding sign_record
sign_record-set_key py k v rec key h = ap (py.hmac key) (canonical-set_key py k v rec h)

-- The status of a record depends on the signature that it carries and on the one that it should have.
status_cong :
    (py : Crypto) (a b : Fields) (key : Option String)
    → get "sig" a ≡ get "sig" b
    → ((k : String) → sign_record py a k ≡ sign_record py b k)
    → signature_status py a key ≡ signature_status py b key
unfolding signature_status
status_cong py a b none g s = rw g
status_cong py a b (some k) g s = rw (g, s k)

status_of_sig :
    (py : Crypto) (rec : Fields) (key sig : String)
    → str_eq key "" ≡ false
    → get "sig" rec ≡ str sig
    → sign_record py rec key ≡ sig
    → is_ascii sig ≡ true
    → str_eq sig "" ≡ false
    → signature_status py rec (some key) ≡ ok valid
unfolding signature_status truthy
status_of_sig py rec key sig n g s a f = rw (g, s, n, f, compare_digest_refl sig a)

-- A record that carries its own signature is valid under the key that signed it, if the key is not
-- empty and MACs are ASCII and not empty.
pub signature_status-sign :
    (py : Crypto) (rec : Fields) (key : String)
    → str_eq key "" ≡ false
    → ((k s : String) → (is_ascii (py.hmac k s) ≡ true) × (str_eq (py.hmac k s) "" ≡ false))
    → signature_status py (set_key "sig" (str (sign_record py rec key)) rec) (some key) ≡ ok valid
unfolding sign_record
signature_status-sign py rec key n hex =
    status_of_sig py (set_key "sig" (str (sign_record py rec key)) rec) key (sign_record py rec key)
      n (get-set_key "sig" (str (sign_record py rec key)) rec)
      (sign_record-set_key py "sig" (str (sign_record py rec key)) rec key refl)
      (hex key (canonical py rec)).0 (hex key (canonical py rec)).1

-- An annotation does not touch the signature: to set a transport field other than `sig`, or a field
-- whose name starts with an underscore, leaves the status of a record as it is, under every key.
pub signature_status-set_key :
    (py : Crypto) (k : String) (v : Value) (rec : Fields) (key : Option String)
    → unsigned_key k ≡ true
    → str_eq k "sig" ≡ false
    → signature_status py (set_key k v rec) key ≡ signature_status py rec key
signature_status-set_key py k v rec key h n =
    status_cong py (set_key k v rec) rec key (get-set_key_other "sig" k v rec n)
      (λ key'. sign_record-set_key py k v rec key' h)
