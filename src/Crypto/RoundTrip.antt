-- ===== src/Crypto/RoundTrip.antt =====
-- Encryption appends nonce and tag, and decryption under the same key undoes it.
use rfrp.Base.{
  ℕ, ◌+◌, ◌-◌, ◌^◌, ◌≤◌, ◌<◌, ◌≡◌, refl, ap, ◌∙◌, Bool, true, List, ◌++◌, none, some, arith, lt→ltb,
  le→ltb, if◌then◌else◌, length, take, drop, length-append, length-take, length-drop, take-append,
  drop-append,
}
use native.Mathlib.Decide.{dec_lt}
use rfrp.Base.Bytes.{to_be_bytes, length-to_be_bytes}
use rfrp.Base.Result.{Result, ok, err}
use mathlib.Core.List.{append_assoc}
use rfrp.Crypto.{
  Aead, Cipher, ProtoError, ciphertext_too_short, decryption_failed, nonce_of, bump, encrypt_inner,
  encrypt_in_place, encrypt_in_place_bytes_mut, encrypt, cut, decrypt, decrypt_in_place,
  decrypt_in_place_bytes_mut,
}
use rfrp.Base.Outcome.{
  returns, ◌>>=◌, checked_sub-le, slice_to-le, slice_from-le, slice-le, copied-eq,
}
use rfrp.Crypto.Laws.{IsAead}

-- The sizes that the types of the source give: a key of 32 bytes and a prefix of four.
pub record IsCipher (c : Cipher) : Type 0 where
  pub key_size : length c.key ≡ 32
  pub prefix_size : length c.random_prefix ≡ 4

pub length-nonce_of : (c : Cipher) → IsCipher c → length (nonce_of c) ≡ 12
unfolding nonce_of
length-nonce_of c h =
    length-append c.random_prefix (to_be_bytes 8 c.nonce_counter)
    ∙ omega (arith, length-to_be_bytes 8 c.nonce_counter, h.prefix_size)

-- What the three decryptions make of the answer of the AEAD.
abbrev answer : Bool × List ℕ → Result ProtoError (List ℕ) × List ℕ
answer r = if r.0 then (ok r.1, r.1) else (err decryption_failed, r.1)

-- A buffer with room for a nonce and a tag is cut without a panic.
cut-long :
    (buf : List ℕ)
    → 28 ≤ length buf
    → let split = length buf - 28 in
      cut buf ≡ returns (take split buf, take 12 (drop split buf), drop (split + 12) buf)
unfolding cut
cut-long buf h =
    let split = length buf - 28 in
    rw (
      checked_sub-le (length buf) 28 h,
      slice-le buf split 12 (omega arith),
      copied-eq 12 (take 12 (drop split buf))
          (omega (arith, length-take 12 (drop split buf), length-drop split buf)),
      slice_from-le buf (split + 12) (omega arith),
      copied-eq 16 (drop (split + 12) buf) (omega (arith, length-drop (split + 12) buf)),
      slice_to-le buf split (omega arith),
    )

module _ (a : Aead) where
  -- The three decryptions differ only in what they leave of the buffer.
  pub decrypt-eq-in_place :
      (c : Cipher) (buf : List ℕ)
      → (decrypt a c buf ≡ (decrypt_in_place a c buf >>= λ r. returns r.0))
        × (decrypt_in_place a c buf ≡ decrypt_in_place_bytes_mut a c buf)
  unfolding decrypt decrypt_in_place decrypt_in_place_bytes_mut
  decrypt-eq-in_place c buf = (ground arith, refl)

  -- A buffer too short for a nonce and a tag is refused by each decryption, and left as it is.
  pub decrypt-short :
      (c : Cipher) (buf : List ℕ)
      → length buf < 28
      → (decrypt a c buf ≡ returns (err ciphertext_too_short))
        × (decrypt_in_place a c buf ≡ returns (err ciphertext_too_short, buf))
        × (decrypt_in_place_bytes_mut a c buf ≡ returns (err ciphertext_too_short, buf))
  unfolding decrypt decrypt_in_place decrypt_in_place_bytes_mut
  decrypt-short c buf h = rw (lt→ltb (length buf) 28 h) (refl, refl, refl)

  -- Any other buffer is opened at its nonce and tag.
  decrypt-long :
      (c : Cipher) (buf : List ℕ)
      → 28 ≤ length buf
      → let split = length buf - 28 in
        decrypt_in_place_bytes_mut a c buf
        ≡ returns (
            answer (
              a.decrypt_in_place_detached c.key
                (take 12 (drop split buf))
                (take split buf)
                (drop (split + 12) buf)))
  unfolding decrypt_in_place_bytes_mut
  decrypt-long c buf h = rw (le→ltb (length buf) 28 h, cut-long buf h)

  -- Decryption in place panics on no buffer.
  pub decrypt-ends :
      (c : Cipher) (buf : List ℕ)
      → (r : Result ProtoError (List ℕ)) × (buf' : List ℕ) × (decrypt_in_place_bytes_mut a c buf
          ≡ returns (r, buf'))
  decrypt-ends c buf = elim (dec_lt (length buf) 28) [
    | yes short ↦ (err ciphertext_too_short, buf, (decrypt-short c buf short).2)
    | no long ↦
        let split = length buf - 28 in
        let r = answer (
          a.decrypt_in_place_detached c.key (take 12 (drop split buf)) (take split buf)
            (drop (split + 12) buf)) in
        (r.0, r.1, decrypt-long c buf (omega arith))
  ]

  -- A buffer of three parts is cut at their joints.
  decrypt-parts :
      (c : Cipher) (body nonce tag : List ℕ)
      → length nonce ≡ 12
      → length tag ≡ 16
      → decrypt_in_place_bytes_mut a c (body ++ nonce ++ tag)
        ≡ returns (answer (a.decrypt_in_place_detached c.key nonce body tag))
  decrypt-parts c body nonce tag hn ht = rw (
    decrypt-long c (body ++ nonce ++ tag) (omega (arith, size)),
    split,
    drop-append (length body + 12) (body ++ nonce) tag (omega (arith, length-append body nonce)),
    append_assoc body nonce tag,
    take-append (length body) body (nonce ++ tag) refl,
    drop-append (length body) body (nonce ++ tag) refl,
    take-append 12 nonce tag (omega arith),
  )
    where
      size : length (body ++ nonce ++ tag) ≡ length body + 28
      size = length-append (body ++ nonce) tag ∙ omega (arith, length-append body nonce, hn, ht)

      split : length (body ++ nonce ++ tag) - 28 ≡ length body
      split = omega (arith, size)

module _ (a : Aead) (c : Cipher) (plain : List ℕ) where
  pub encrypt_inner-some :
      {tag : List ℕ}
      → (a.encrypt_in_place_detached c.key (nonce_of c) plain).0 ≡ some tag
      → encrypt_inner a c plain
        ≡ some (nonce_of c, tag, (a.encrypt_in_place_detached c.key (nonce_of c) plain).1, bump c)
  unfolding encrypt_inner
  encrypt_inner-some h = rw (h, encrypt_inner)

  pub encrypt_inner-none :
      (a.encrypt_in_place_detached c.key (nonce_of c) plain).0 ≡ none
      → encrypt_inner a c plain ≡ none
  unfolding encrypt_inner
  encrypt_inner-none h = rw (h, encrypt_inner)

  encrypt_in_place-some :
      {tag : List ℕ}
      → (a.encrypt_in_place_detached c.key (nonce_of c) plain).0 ≡ some tag
      → encrypt_in_place_bytes_mut a c plain
        ≡ some
            ((a.encrypt_in_place_detached c.key (nonce_of c) plain).1 ++ nonce_of c ++ tag, bump c)
  unfolding encrypt_in_place_bytes_mut
  encrypt_in_place-some h = rw (encrypt_inner-some h, encrypt_in_place_bytes_mut)

module _ (a : Aead) (laws : IsAead a) where
  -- What an encryption leaves: the body, the nonce of the counter's value and the tag in this order,
  -- and the counter moved on.
  pub encrypt-shape :
      (c : Cipher) (plain : List ℕ)
      → IsCipher c
      → length plain ≤ 2 ^ 36
      → (tag body : List ℕ) × (encrypt_in_place_bytes_mut a c plain
          ≡ some (body ++ nonce_of c ++ tag, bump c))
        × (length tag ≡ 16)
        × (length body ≡ length plain)
        × (a.decrypt_in_place_detached c.key (nonce_of c) body tag ≡ (true, plain))
  encrypt-shape c plain h fits =
      let (tag, made, size, same) =
        laws.encrypts c.key (nonce_of c) plain h.key_size (length-nonce_of c h) fits in
      (
        tag,
        (a.encrypt_in_place_detached c.key (nonce_of c) plain).1,
        encrypt_in_place-some a c plain made,
        size,
        same,
        laws.decrypts c.key (nonce_of c) plain tag made,
      )

  -- A plaintext of at most 2^36 bytes is encrypted, to 28 bytes more, and any cipher under the same
  -- key, whatever its own counter and prefix, decrypts it in place to the plaintext.
  pub decrypt-encrypt :
      (c d : Cipher) (plain : List ℕ)
      → IsCipher c
      → d.key ≡ c.key
      → length plain ≤ 2 ^ 36
      → (sealed : List ℕ) × (encrypt_in_place_bytes_mut a c plain ≡ some (sealed, bump c))
        × (length sealed ≡ length plain + 28)
        × (decrypt_in_place_bytes_mut a d sealed ≡ returns (ok plain, plain))
  decrypt-encrypt c d plain h same fits =
      let (tag, body, made, tag_size, body_size, opens) = encrypt-shape c plain h fits in
      (
        body ++ nonce_of c ++ tag,
        made,
        length-append (body ++ nonce_of c) tag
            ∙ omega (arith, length-append body (nonce_of c), length-nonce_of c h),
        decrypt-parts a d body (nonce_of c) tag (length-nonce_of c h) tag_size ∙ rw (same, opens),
      )

  -- The copying `encrypt` and `decrypt` are inverse in the same way.
  pub decrypt-encrypt_copy :
      (c d : Cipher) (plain : List ℕ)
      → IsCipher c
      → d.key ≡ c.key
      → length plain ≤ 2 ^ 36
      → (sealed : List ℕ) × (encrypt a c plain ≡ some (sealed, bump c))
        × (decrypt a d sealed ≡ returns (ok plain))
  unfolding encrypt encrypt_in_place encrypt_in_place_bytes_mut
  decrypt-encrypt_copy c d plain h same fits =
      let (sealed, made, size, opens) = decrypt-encrypt c d plain h same fits in
      (
        sealed,
        made,
        (decrypt-eq-in_place a d sealed).0
            ∙ ap (λ o. o >>= λ r. returns r.0) ((decrypt-eq-in_place a d sealed).1 ∙ opens),
      )
