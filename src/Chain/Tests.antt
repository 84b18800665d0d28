-- ===== src/Chain/Tests.antt =====
-- The theorems on the hash chain at concrete records.
use Prim.Native.Char.{Char, code}
use Prim.Native.String.{◌++◌ as ◌++ₛ◌, ◌∷◌ as ◌∷ₛ◌, [] as empty}
use Prim.Native.String.append.{nil, cons}
use text.Mathlib.TextLemmas.{append_assoc}
use ooptdd.Base.{
  pos, ◌≡◌, refl, sym, ap, ◌∙◌, true, false, none, some, String, List, [], ◌∷◌, map, ◌⊎◌, ok, take,
  arith,
}
use ooptdd.Value.{Value, Fields, num, int, set_key, str, end, field}
use ooptdd.Chain.{
  Crypto, intact, broken, truncated, is_ascii, chain_canonical, sign_chain, verify_chain,
}
use ooptdd.Chain.{signature_status, sign_record, valid}
use ooptdd.Chain.Record.{signature_status-sign, signature_status-set_key}
use ooptdd.Chain.Intact.{last_mac, verify-sign, truncation_boundary}
use ooptdd.Chain.Forgery.{Collides, same_head}

-- A text whose every character is marked, and which ends itself
marked : String → String
marked empty = "." ∷ₛ ""
marked (c ∷ₛ s) = ":" ∷ₛ c ∷ₛ marked s

abbrev value_text : Value → String
value_text (str s) = marked s
value_text v = marked ""

-- The keys and the texts of a record, in a form that ends itself
printed : Fields → String
printed end = "." ∷ₛ ""
printed (field k v fs) = "|" ∷ₛ (marked k ++ₛ (value_text v ++ₛ printed fs))

abbrev rest : String → String
rest empty = ""
rest (c ∷ₛ s) = s

abbrev first : String → Char
first empty = "."
first (c ∷ₛ s) = c

-- The texts after the first characters
dropped :
    (c d : Char) (s t p q : String)
    → ((c ∷ₛ s) ++ₛ p) ≡ ((d ∷ₛ t) ++ₛ q)
    → (c ≡ d) × ((s ++ₛ p) ≡ (t ++ₛ q))
dropped c d s t p q h = let e = sym (cons c s p) ∙ h ∙ cons d t q in (ap first e, ap rest e)

marked-delimited :
    (a b p q : String) → (marked a ++ₛ p) ≡ (marked b ++ₛ q) → (marked a ≡ marked b) × (p ≡ q)
unfolding marked
marked-delimited empty empty p q h = (refl, sym (nil p) ∙ (dropped "." "." "" "" p q h).1 ∙ nil q)
marked-delimited empty (d ∷ₛ t) p q h =
    absurd (omega (arith, ap code (dropped "." ":" "" (d ∷ₛ marked t) p q h).0))
marked-delimited (c ∷ₛ s) empty p q h =
    absurd (omega (arith, ap code (dropped ":" "." (c ∷ₛ marked s) "" p q h).0))
marked-delimited (c ∷ₛ s) (d ∷ₛ t) p q h =
    let m = (dropped ":" ":" (c ∷ₛ marked s) (d ∷ₛ marked t) p q h).1 in
    let (e, n) = dropped c d (marked s) (marked t) p q m in
    let (f, r) = marked-delimited s t p q n in (rw (e, f) refl, r)

value-delimited :
    (v w : Value) (p q : String)
    → (value_text v ++ₛ p) ≡ (value_text w ++ₛ q)
    → (value_text v ≡ value_text w) × (p ≡ q)
value-delimited v w p q h =
    let (s, e) = shown v in
    let (t, f) = shown w in rw (e, f) (marked-delimited s t p q (rw (← e, ← f) h))
  where
    shown : (v : Value) → (s : String) × (value_text v ≡ marked s)
    shown (str s) = (s, refl)
    shown v = ("", refl)

delimited :
    (a b : Fields) (p q : String)
    → (printed a ++ₛ p) ≡ (printed b ++ₛ q)
    → (printed a ≡ printed b) × (p ≡ q)
unfolding printed
delimited end end p q h = (refl, sym (nil p) ∙ (dropped "." "." "" "" p q h).1 ∙ nil q)
delimited end (field j w gs) p q h = absurd (omega (arith, ap code (dropped "." "|" "" _ p q h).0))
delimited (field k v fs) end p q h = absurd (omega (arith, ap code (dropped "|" "." _ "" p q h).0))
delimited (field k v fs) (field j w gs) p q h =
    let m = (dropped "|" "|" _ _ p q h).1 in
    let (e, n) =
      marked-delimited k j _ _
        (sym (append_assoc (marked k) _ p) ∙ m ∙ append_assoc (marked j) _ q) in
    let (f, o) =
      value-delimited v w _ _
        (sym (append_assoc (value_text v) _ p) ∙ n ∙ append_assoc (value_text w) _ q) in
    let (g, r) = delimited fs gs p q o in (rw (e, f, g) refl, r)

abbrev crypto : Crypto
crypto = record { hmac = λ k s. "0af"; sha256 = λ s. "e3b"; dumps = printed; show = λ v. "value" }

abbrev plain : Crypto
plain = record { hmac = λ k s. s; sha256 = λ s. s; dumps = printed; show = λ v. "value" }

abbrev arrived : Fields
arrived = field "event" (str "pay") (field "sig" (str "..") end)

abbrev records : List Fields
records =
    field "event" (str "start") end
    ∷ field "event" (str "pay") (field "cid" (str "1") end)
    ∷ field "event" (str "stop") end
    ∷ []

verify-sign_example :
    verify_chain crypto
      (sign_chain crypto records "key" true)
      "key"
      true
      (some 3)
      (some (last_mac crypto true "" "key" records))
    ≡ ok intact
unfolding is_ascii
verify-sign_example = verify-sign crypto true (λ k s. refl) records "key"

truncation_boundary_example :
    verify_chain crypto (take 2 (sign_chain crypto records "key" true)) "key" true (some 3) none
    ≡ ok (broken 2 truncated)
unfolding is_ascii sign_chain
truncation_boundary_example = truncation_boundary crypto true (λ k s. refl) records "key" 2 (some 3)

-- The same records, of which one comes with the fields of an older chain
abbrev resent : List Fields
resent =
    field "event" (str "start") end
    ∷ field "prev_sig" (str "old")
        (field "sig_chain" (str "old") (field "event" (str "pay") (field "cid" (str "1") end)))
    ∷ field "event" (str "stop") end
    ∷ []

abbrev head : String
head = "|:e:v:e:n:t.:s:t:o:p..|:e:v:e:n:t.:p:a:y.|:c:i:d.:1..|:e:v:e:n:t.:s:t:a:r:t.."

same_head_example :
    (map (chain_canonical plain) (sign_chain plain records "key" false)
      ≡ map (chain_canonical plain) (sign_chain plain resent "key" false))
    ⊎ Collides plain false "" "" "key"
        (sign_chain plain records "key" false)
        (sign_chain plain resent "key" false)
unfolding verify_chain sign_chain printed marked
same_head_example =
    same_head plain false delimited (sign_chain plain records "key" false)
      (sign_chain plain resent "key" false) "key" head refl refl refl

signature_status-sign_example :
    signature_status crypto
      (set_key "sig" (str (sign_record crypto arrived "key")) arrived)
      (some "key")
    ≡ ok valid
unfolding is_ascii
signature_status-sign_example =
    signature_status-sign crypto arrived "key" refl (λ k s. (refl, refl))

signature_status-set_key_example :
    signature_status plain (set_key "_seq" (num (int (pos 4))) arrived) (some "key")
    ≡ signature_status plain arrived (some "key")
signature_status-set_key_example =
    signature_status-set_key plain "_seq" (num (int (pos 4))) arrived (some "key") refl refl
