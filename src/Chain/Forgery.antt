-- ===== src/Chain/Forgery.antt =====
-- What an outside anchor buys: two chains that reach one head hold the same texts.
use Prim.Native.String.{◌++◌ as ◌++ₛ◌}
use ooptdd.Base.{
  ◌≡◌, ◌≢◌, ◌⊎◌, inl, inr, refl, sym, ap, ◌∙◌, ℕ, suc, ◌-◌, Bool, true, false, ◌&&◌, none, some,
  String, str_eq, str_eq→eq, eq→str_eq, List, [], ◌∷◌, map, length, not, if◌then◌else◌, Result, ok,
  raise, ◌>>=◌, Bool-cases, arith, Error,
}
use ooptdd.Value.{Fields, str, get, value_eq}
use ooptdd.Chain.{
  Crypto, intact, broken, Links, reached, at, is_ascii, compare_digest, chain_canonical, mac,
  next_key, chain_mac, links, verify_chain, anchors, check_head, prev_link_mismatch,
  chain_mac_mismatch, head_mismatch,
}

-- At one position of two streams, the texts that the loop hands to HMAC, the content of the record
-- and the MAC before it, differ, and their MACs under the key of that position are the same.
pub data Collides (py : Crypto) (evolve : Bool)
    : String → String → String → List Fields → List Fields → Type 0 where
  here :
      {prev prev' k : String} {r r' : Fields} {rs rs' : List Fields}
      → (chain_canonical py r ++ₛ prev) ≢ (chain_canonical py r' ++ₛ prev')
      → py.hmac k (chain_canonical py r ++ₛ prev) ≡ py.hmac k (chain_canonical py r' ++ₛ prev')
      → Collides py evolve prev prev' k (r ∷ rs) (r' ∷ rs')
  later :
      {prev prev' k : String} {r r' : Fields} {rs rs' : List Fields}
      → Collides py evolve (chain_mac py r) (chain_mac py r') (next_key py evolve k) rs rs'
      → Collides py evolve prev prev' k (r ∷ rs) (r' ∷ rs')

digest_eq : (s t : String) → compare_digest s t ≡ ok true → s ≡ t
unfolding compare_digest
digest_eq s t h = elim (Bool-cases (str_eq s t)) [
  | inl e ↦ str_eq→eq s t e
  | inr e ↦ absurd (no (is_ascii s && is_ascii t) (str_eq s t) e h)
]
  where
    no : (a b : Bool) → b ≡ false → (if a then ok b else raise Error.type_error) ≡ ok true → ⊥
    no true b e h = cc
    no false b e h = cc

module _ (py : Crypto) (evolve : Bool) where
  -- A record that the loop passes carries the MAC of its content after the MAC before it.
  links_inv :
      (i : ℕ) (prev k h : String) (rec : Fields) (recs : List Fields)
      → links py evolve i prev k (rec ∷ recs) ≡ ok (reached h)
      → (chain_mac py rec ≡ mac py rec prev k)
        × (links py evolve (suc i) (chain_mac py rec) (next_key py evolve k) recs ≡ ok (reached h))
  unfolding links
  links_inv i prev k h rec recs e =
      go (value_eq (get "prev_sig" rec) (str prev))
        (compare_digest (chain_mac py rec) (mac py rec prev k)) refl e
    where
      go :
          (b : Bool) (d : Result Bool)
          → compare_digest (chain_mac py rec) (mac py rec prev k) ≡ d
          → (if not b
              then ok (at i prev_link_mismatch)
              else d >>= λ same.
                  if same
                  then links py evolve (suc i) (chain_mac py rec) (next_key py evolve k) recs
                  else ok (at i chain_mac_mismatch))
            ≡ ok (reached h)
          → (chain_mac py rec ≡ mac py rec prev k)
            × (links py evolve (suc i) (chain_mac py rec) (next_key py evolve k) recs
                ≡ ok (reached h))
      go false d q e = cc
      go true (ok true) q e = (digest_eq (chain_mac py rec) (mac py rec prev k) q, e)
      go true (ok false) q e = cc
      go true (raise x) q e = cc

  mac_split :
      ((a b : Fields) (p q : String)
        → (py.dumps a ++ₛ p) ≡ (py.dumps b ++ₛ q)
        → (py.dumps a ≡ py.dumps b) × (p ≡ q))
      → (r r' : Fields) (p p' k : String) → mac py r p k ≡ mac py r' p' k
      → ((chain_canonical py r ≡ chain_canonical py r') × (p ≡ p'))
        ⊎ (((chain_canonical py r ++ₛ p) ≢ (chain_canonical py r' ++ₛ p'))
            × (py.hmac k (chain_canonical py r ++ₛ p) ≡ py.hmac k (chain_canonical py r' ++ₛ p')))
  unfolding mac chain_canonical
  mac_split delimited r r' p p' k e =
      elim (Bool-cases (str_eq (chain_canonical py r ++ₛ p) (chain_canonical py r' ++ₛ p'))) [
        | inl q ↦ inl (delimited _ _ p p' (str_eq→eq _ _ q))
        | inr q ↦ inr ((λ x. differ _ _ q x), e)
      ]
    where
      differ : (s t : String) → str_eq s t ≡ false → s ≡ t → ⊥
      differ s t q x = let y = eq→str_eq s t x in cc

  reached_eq :
      (i : ℕ) (prev prev' k h : String)
      → links py evolve i prev k [] ≡ ok (reached h)
      → links py evolve i prev' k [] ≡ ok (reached h)
      → prev ≡ prev'
  unfolding links
  reached_eq i prev prev' k h e e' = cc

  links_agree :
      ((a b : Fields) (p q : String)
        → (py.dumps a ++ₛ p) ≡ (py.dumps b ++ₛ q)
        → (py.dumps a ≡ py.dumps b) × (p ≡ q))
      → (i : ℕ) (prev prev' k h : String) (recs recs' : List Fields) → length recs ≡ length recs'
      → links py evolve i prev k recs ≡ ok (reached h)
      → links py evolve i prev' k recs' ≡ ok (reached h)
      → ((map (chain_canonical py) recs ≡ map (chain_canonical py) recs') × (prev ≡ prev'))
        ⊎ Collides py evolve prev prev' k recs recs'
  links_agree delimited i prev prev' k h [] [] n e e' = inl (refl, reached_eq i prev prev' k h e e')
  links_agree delimited i prev prev' k h [] (r' ∷ rs') n e e' = absurd (omega arith)
  links_agree delimited i prev prev' k h (r ∷ rs) [] n e e' = absurd (omega arith)
  links_agree delimited i prev prev' k h (r ∷ rs) (r' ∷ rs') n e e' =
      let (m, f) = links_inv i prev k h r rs e in
      let (m', f') = links_inv i prev' k h r' rs' e' in
      elim (links_agree delimited (suc i) _ _ (next_key py evolve k) h rs rs' (omega arith) f f') [
        | inr c ↦ inr (later c)
        | inl (q, p) ↦ elim (mac_split delimited r r' prev prev' k (sym m ∙ p ∙ m')) [
          | inr (c, d) ↦ inr (here c d)
          | inl (a, b) ↦ inl (rw (a, q), b)
        ]
      ]

  settled :
      (n : ℕ) (d : Result Bool)
      → (d >>= λ same. ok (if same then intact else broken n head_mismatch)) ≡ ok intact
      → d ≡ ok true
  settled n (ok true) e = refl
  settled n (ok false) e = cc
  settled n (raise x) e = cc

  accepted :
      (recs : List Fields) (key head : String)
      → verify_chain py recs key evolve none (some head) ≡ ok intact
      → links py evolve 0 "" key recs ≡ ok (reached head)
  unfolding verify_chain anchors check_head
  accepted recs key head e = go (links py evolve 0 "" key recs) e
    where
      go :
          (l : Result Links)
          → (l >>= anchors (length recs) none (some head)) ≡ ok intact
          → l ≡ ok (reached head)
      go (raise x) e = cc
      go (ok (at i x)) e = cc
      go (ok (reached p)) e =
          ap (λ s. ok (reached s))
            (digest_eq p head (settled (length recs - 1) (compare_digest p head) e))

  -- Two streams of one length that `verify_chain` accepts under one key for one expected head have
  -- the same canonical JSON text at each position, that of the record without the two fields that
  -- carry the chain, or at some position they hand two different texts to HMAC that have the same
  -- MAC under the key of that position. JSON texts of records are taken to delimit themselves.
  pub same_head :
      ((a b : Fields) (p q : String)
        → (py.dumps a ++ₛ p) ≡ (py.dumps b ++ₛ q)
        → (py.dumps a ≡ py.dumps b) × (p ≡ q))
      → (recs recs' : List Fields) (key head : String) → length recs ≡ length recs'
      → verify_chain py recs key evolve none (some head) ≡ ok intact
      → verify_chain py recs' key evolve none (some head) ≡ ok intact
      → (map (chain_canonical py) recs ≡ map (chain_canonical py) recs')
        ⊎ Collides py evolve "" "" key recs recs'
  same_head delimited recs recs' key head n e e' =
      elim (links_agree delimited 0 "" "" key head recs recs' n (accepted recs key head e)
        (accepted recs' key head e')) [ inl (q, p) ↦ inl q | inr c ↦ inr c ]
