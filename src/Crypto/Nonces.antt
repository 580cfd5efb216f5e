-- ===== src/Crypto/Nonces.antt =====
-- No nonce is used twice under a cipher, nor by two ciphers of different prefixes.
use rfrp.Base.{
  ℕ, zero, suc, ◌+◌, ◌^◌, ◌≤◌, ◌<◌, ◌≡◌, ◌≢◌, refl, sym, ap, ◌∙◌, List, [], ◌∷◌, ◌++◌, none, some,
  arith, length, take, take-append, get_elem?, get_elem?-lt, some_inj, Option-cases, inl, inr,
}
use rfrp.Base.Bytes.{to_be_bytes, to_be_bytes_injective}
use rfrp.Crypto.{Aead, Cipher, nonce_of, bump, encrypt_inner}
use rfrp.Crypto.RoundTrip.{encrypt_inner-some, encrypt_inner-none}

append-cancel {ℓ} : {A : Type ℓ} (xs ys zs : List A) → xs ++ ys ≡ xs ++ zs → ys ≡ zs
append-cancel [] ys zs h = h
append-cancel (x ∷ xs) ys zs h = append-cancel xs ys zs (cc)

-- The nonces that a cipher uses for the messages, one after another, as `encrypt_inner` returns them.
unfoldable pub nonces_used : Aead → Cipher → List (List ℕ) → List (List ℕ)
nonces_used a c [] = []
nonces_used a c (m ∷ ms) = elim (encrypt_inner a c m) [
  | none ↦ []
  | some (nonce, tag, body, c') ↦ nonce ∷ nonces_used a c' ms
]

-- The nonce of a prefix at a value of the counter.
abbrev nonce_at : List ℕ → ℕ → List ℕ
nonce_at prefix n = prefix ++ to_be_bytes 8 n

-- `fetch_add` moves the counter on by one while it stays below 2^64.
bump-counter :
    (c : Cipher) (n : ℕ) → c.nonce_counter + 1 ≡ n → n < 2 ^ 64 → (bump c).nonce_counter ≡ n
unfolding bump
bump-counter c n e l = omega arith

bump-prefix : (c : Cipher) → (bump c).random_prefix ≡ c.random_prefix
unfolding bump
bump-prefix c = refl

module _ (a : Aead) (c : Cipher) (m : List ℕ) (ms : List (List ℕ)) where
  nonces_used-some :
      {tag : List ℕ}
      → (a.encrypt_in_place_detached c.key (nonce_of c) m).0 ≡ some tag
      → nonces_used a c (m ∷ ms) ≡ nonce_of c ∷ nonces_used a (bump c) ms
  unfolding nonces_used
  nonces_used-some h = rw (encrypt_inner-some a c m h, nonces_used)

  nonces_used-none :
      (a.encrypt_in_place_detached c.key (nonce_of c) m).0 ≡ none → nonces_used a c (m ∷ ms) ≡ []
  unfolding nonces_used
  nonces_used-none h = rw (encrypt_inner-none a c m h, nonces_used)

length-nonces_used :
    (a : Aead) (ms : List (List ℕ)) (c : Cipher) → length (nonces_used a c ms) ≤ length ms
length-nonces_used a [] c = unfold nonces_used in omega arith
length-nonces_used a (m ∷ ms) c =
    elim (Option-cases (a.encrypt_in_place_detached c.key (nonce_of c) m).0) [
      | inl panic ↦ rw (nonces_used-none a c m ms panic) (omega arith)
      | inr (tag, made) ↦
          rw (nonces_used-some a c m ms made) (omega (arith, length-nonces_used a ms (bump c)))
    ]

-- The nonce at place `i` of those used is that of the counter's value `i` steps on.
nonces_used-at :
    (a : Aead) (ms : List (List ℕ)) (c : Cipher) (i n : ℕ) {nonce : List ℕ}
    → get_elem? (nonces_used a c ms) i ≡ some nonce
    → c.nonce_counter + i ≡ n
    → n < 2 ^ 64
    → nonce ≡ nonce_at c.random_prefix n
nonces_used-at a [] c i n h e l = unfold nonces_used in cc
nonces_used-at a (m ∷ ms) c zero n h e l =
    elim (Option-cases (a.encrypt_in_place_detached c.key (nonce_of c) m).0) [
      | inl panic ↦ cc (rw (nonces_used-none a c m ms panic) at h)
      | inr (tag, made) ↦
          sym (some_inj (rw (nonces_used-some a c m ms made) at h))
          ∙ unfold nonce_of in ap (nonce_at c.random_prefix) (omega arith)
    ]
nonces_used-at a (m ∷ ms) c (suc i) n h e l =
    elim (Option-cases (a.encrypt_in_place_detached c.key (nonce_of c) m).0) [
      | inl panic ↦ cc (rw (nonces_used-none a c m ms panic) at h)
      | inr (tag, made) ↦
          nonces_used-at a ms (bump c) i n (rw (nonces_used-some a c m ms made) at h)
            (omega (arith, bump-counter c (c.nonce_counter + 1) refl (omega arith))) l
          ∙ ap (λ p. nonce_at p n) (bump-prefix c)
    ]

-- Within 2^64 messages a cipher uses no nonce twice: two places that hold the same nonce are one.
pub nonces_used-distinct :
    (a : Aead) (c : Cipher) (ms : List (List ℕ)) (i j : ℕ) (nonce : List ℕ)
    → c.nonce_counter + length ms ≤ 2 ^ 64
    → get_elem? (nonces_used a c ms) i ≡ some nonce
    → get_elem? (nonces_used a c ms) j ≡ some nonce
    → i ≡ j
nonces_used-distinct a c ms i j nonce room hi hj = omega (arith, counters_eq)
  where
    below : (k : ℕ) → get_elem? (nonces_used a c ms) k ≡ some nonce → c.nonce_counter + k < 2 ^ 64
    below k h = omega (arith, get_elem?-lt (nonces_used a c ms) k h, length-nonces_used a ms c)

    counters_eq : c.nonce_counter + i ≡ c.nonce_counter + j
    counters_eq = to_be_bytes_injective 8 _ _ (below i hi) (below j hj) (
        append-cancel c.random_prefix _ _ (
          sym (nonces_used-at a ms c i _ hi refl (below i hi))
          ∙ nonces_used-at a ms c j _ hj refl (below j hj)))

-- Two ciphers whose prefixes have the same size and differ share no nonce, within 2^64 messages of
-- each.
pub nonces_used-disjoint :
    (a : Aead) (c d : Cipher) (ms ns : List (List ℕ)) (i j : ℕ) (nonce : List ℕ)
    → length c.random_prefix ≡ length d.random_prefix
    → c.random_prefix ≢ d.random_prefix
    → c.nonce_counter + length ms ≤ 2 ^ 64
    → d.nonce_counter + length ns ≤ 2 ^ 64
    → get_elem? (nonces_used a c ms) i ≡ some nonce
    → get_elem? (nonces_used a d ns) j ≢ some nonce
nonces_used-disjoint a c d ms ns i j nonce same differ room_c room_d hi hj = differ (
    sym (take-append (length c.random_prefix) c.random_prefix _ refl)
    ∙ ap (take (length c.random_prefix)) (
        sym (nonces_used-at a ms c i _ hi refl (below c ms room_c i hi))
        ∙ nonces_used-at a ns d j _ hj refl (below d ns room_d j hj))
    ∙ take-append (length c.random_prefix) d.random_prefix _ same)
  where
    below :
        (c : Cipher) (ms : List (List ℕ))
        → c.nonce_counter + length ms ≤ 2 ^ 64
        → (k : ℕ) → get_elem? (nonces_used a c ms) k ≡ some nonce
        → c.nonce_counter + k < 2 ^ 64
    below c ms room k h =
        omega (arith, get_elem?-lt (nonces_used a c ms) k h, length-nonces_used a ms c)
