-- ===== src/Chain/Intact.antt =====
-- A chain that `sign_chain` wrote verifies, and so does each prefix of it.
use Prim.Native.String.{◌++◌ as ◌++ₛ◌}
use ooptdd.Base.{
  ◌≡◌, refl, sym, ap, ◌∙◌, subst, ℕ, zero, suc, ltb, Bool, true, false, Option, none, some, String,
  str_eq, str_eq_refl, str_eq→eq, List, [], ◌∷◌, length, if◌then◌else◌, ok, Bool-cases, inl, inr,
  arith, take,
}
use ooptdd.Value.{Value, Fields, end, field, str, get, set_key, value_eq}
use ooptdd.Value.Keys.{find_key-set_key, find_key-set_key_other}
use ooptdd.Chain.{
  Crypto, intact, broken, truncated, reached, is_ascii, compare_digest, project, chained,
  chain_canonical, mac, linked, next_key, sign_from, sign_chain, chain_mac, links, verify_chain,
  anchors, check_head, too_short,
}

pub project-set_key :
    (keep : String → Bool) (k : String) (v : Value) (fs : Fields)
    → keep k ≡ false
    → project keep (set_key k v fs) ≡ project keep fs
unfolding set_key
project-set_key keep k v end h = rw h
project-set_key keep k v (field j w fs) h = elim (Bool-cases (str_eq j k)) [
  | inl e ↦ let e' = ap keep (str_eq→eq j k e) ∙ h in rw (e, e')
  | inr e ↦ rw (e, project-set_key keep k v fs h)
]

linked-canonical :
    (py : Crypto) (rec : Fields) (p m : String)
    → chain_canonical py (linked rec p m) ≡ chain_canonical py rec
unfolding chain_canonical
linked-canonical py rec p m = ap py.dumps (
    project-set_key chained "sig_chain" (str m) (set_key "prev_sig" (str p) rec) refl
    ∙ project-set_key chained "prev_sig" (str p) rec refl)

linked-chain_mac : (py : Crypto) (rec : Fields) (p m : String) → chain_mac py (linked rec p m) ≡ m
unfolding chain_mac
linked-chain_mac py rec p m =
    rw (find_key-set_key "sig_chain" (str m) (set_key "prev_sig" (str p) rec))

linked-prev :
    (rec : Fields) (p m : String) → value_eq (get "prev_sig" (linked rec p m)) (str p) ≡ true
unfolding get value_eq
linked-prev rec p m =
    rw
      (
        find_key-set_key_other "prev_sig" "sig_chain" (str m) (set_key "prev_sig" (str p) rec) refl,
        find_key-set_key "prev_sig" (str p) rec,
      )
      (str_eq_refl p)

linked-mac :
    (py : Crypto) (rec : Fields) (p m prev k : String)
    → mac py (linked rec p m) prev k ≡ mac py rec prev k
unfolding mac
linked-mac py rec p m prev k = ap (λ c. py.hmac k (c ++ₛ prev)) (linked-canonical py rec p m)

mac-ascii :
    (py : Crypto) (rec : Fields) (prev k : String)
    → ((k s : String) → is_ascii (py.hmac k s) ≡ true)
    → is_ascii (mac py rec prev k) ≡ true
unfolding mac
mac-ascii py rec prev k hex = hex k (chain_canonical py rec ++ₛ prev)

pub compare_digest_refl : (s : String) → is_ascii s ≡ true → compare_digest s s ≡ ok true
unfolding compare_digest
compare_digest_refl s h = rw (h, str_eq_refl s)

if_ok : {A : Type 0} (b : Bool) (x y : A) → (if b then ok x else ok y) ≡ ok (if b then x else y)
if_ok true x y = refl
if_ok false x y = refl

ltb_irrefl : (n : ℕ) → ltb n n ≡ false
ltb_irrefl n = ground arith

ascii_empty : is_ascii "" ≡ true
unfolding is_ascii
ascii_empty = refl

links_none :
    (py : Crypto) (evolve : Bool) (i : ℕ) (prev k : String)
    → links py evolve i prev k [] ≡ ok (reached prev)
unfolding links
links_none py evolve i prev k = refl

-- The last MAC of a signed stream
pub last_mac : Crypto → Bool → String → String → List Fields → String
last_mac py evolve prev k [] = prev
last_mac py evolve prev k (rec ∷ recs) =
    last_mac py evolve (mac py rec prev k) (next_key py evolve k) recs

module _ (py : Crypto) (evolve : Bool) (hex : (k s : String) → is_ascii (py.hmac k s) ≡ true) where
  links-linked :
      (i : ℕ) (prev k : String) (rec : Fields) (recs : List Fields)
      → links py evolve i prev k (linked rec prev (mac py rec prev k) ∷ recs)
        ≡ links py evolve (suc i) (mac py rec prev k) (next_key py evolve k) recs
  unfolding links
  links-linked i prev k rec recs = rw (
    linked-prev rec prev (mac py rec prev k),
    linked-chain_mac py rec prev (mac py rec prev k),
    linked-mac py rec prev (mac py rec prev k) prev k,
    compare_digest_refl (mac py rec prev k) (mac-ascii py rec prev k hex),
  )

  links-sign :
      (i : ℕ) (prev k : String) (recs : List Fields) (n : ℕ)
      → links py evolve i prev k (take n (sign_from py evolve prev k recs))
        ≡ ok (reached (last_mac py evolve prev k (take n recs)))
  unfolding sign_from last_mac
  links-sign i prev k recs zero = links_none py evolve i prev k
  links-sign i prev k [] (suc n) = links_none py evolve i prev k
  links-sign i prev k (rec ∷ recs) (suc n) =
      links-linked i prev k rec
        (take n (sign_from py evolve (mac py rec prev k) (next_key py evolve k) recs))
      ∙ links-sign (suc i) (mac py rec prev k) (next_key py evolve k) recs n

  last_mac-ascii :
      (prev k : String) (recs : List Fields)
      → is_ascii prev ≡ true
      → is_ascii (last_mac py evolve prev k recs) ≡ true
  unfolding last_mac
  last_mac-ascii prev k [] h = h
  last_mac-ascii prev k (rec ∷ recs) h =
      last_mac-ascii (mac py rec prev k) (next_key py evolve k) recs (mac-ascii py rec prev k hex)

  length-sign :
      (prev k : String) (recs : List Fields)
      → length (sign_from py evolve prev k recs) ≡ length recs
  unfolding sign_from
  length-sign prev k [] = refl
  length-sign prev k (rec ∷ recs) =
      ap suc (length-sign (mac py rec prev k) (next_key py evolve k) recs)

  take-length : {A : Type 0} (xs : List A) → take (length xs) xs ≡ xs
  take-length [] = refl
  take-length (x ∷ xs) = ap (λ ys. x ∷ ys) (take-length xs)

  -- A chain cannot testify to its own length: each prefix of a signed chain passes every link, with
  -- or without key evolution, and without an expected head `verify_chain` refuses it exactly if it
  -- is shorter than the expected length. It raises on none of them. MACs are ASCII.
  pub truncation_boundary :
      (recs : List Fields) (key : String) (n : ℕ) (expect_len : Option ℕ)
      → verify_chain py (take n (sign_chain py recs key evolve)) key evolve expect_len none
        ≡ ok (
            if too_short (length (take n (sign_chain py recs key evolve))) expect_len
            then broken (length (take n (sign_chain py recs key evolve))) truncated
            else intact)
  unfolding verify_chain anchors check_head sign_chain
  truncation_boundary recs key n expect_len =
      rw (links-sign 0 "" key recs n)
        (if_ok (too_short (length (take n (sign_from py evolve "" key recs))) expect_len) _ intact)

  -- What `sign_chain` writes verifies against both outside anchors: the number of the records and
  -- the last MAC, if MACs are ASCII.
  pub verify-sign :
      (recs : List Fields) (key : String)
      → verify_chain py
          (sign_chain py recs key evolve)
          key
          evolve
          (some (length recs))
          (some (last_mac py evolve "" key recs))
        ≡ ok intact
  unfolding verify_chain anchors check_head sign_chain
  verify-sign recs key = rw (
    subst
        (λ xs.
          links py evolve 0 "" key xs
          ≡ ok (reached (last_mac py evolve "" key (take (length recs) recs))))
        (ap (λ n. take n (sign_from py evolve "" key recs)) (sym (length-sign "" key recs))
          ∙ take-length (sign_from py evolve "" key recs))
        (links-sign 0 "" key recs (length recs)),
    length-sign "" key recs,
    ltb_irrefl (length recs),
    take-length recs,
    compare_digest_refl (last_mac py evolve "" key recs) (last_mac-ascii "" key recs ascii_empty),
  )
