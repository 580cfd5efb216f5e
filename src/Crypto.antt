-- ===== src/Crypto.antt =====
-- rfrp_proto/src/crypto.rs: key derivation and the cipher. AES-256-GCM, SHA-256 and the random
-- generator are not the repository's: the first is an `Aead` value, the others are arguments.
-- A panic of `expect` is `none`; the slices of a decryption panic out of range.
pub mod Laws
pub mod RoundTrip
pub mod Nonces
pub mod Keys
use rfrp.Base.{
  ℕ, ◌+◌, ◌-◌, ◌%◌, ◌^◌, Bool, true, false, List, [], ◌∷◌, ◌++◌, Option, none, some, ltb,
  if◌then◌else◌, length, take, drop,
}
use rfrp.Base.Bytes.{codes, to_be_bytes}
use rfrp.Base.Result.{Result, ok, err}
use rfrp.Base.Outcome.{Outcome, returns, ◌>>=◌, checked_sub, slice_to, slice_from, slice, copied}

-- The messages of this crate's `Result<_, String>`, one constructor for each.
pub data ProtoError : Type 0 where
  ciphertext_too_short : ProtoError
  decryption_failed : ProtoError
  decompression_failed : ProtoError
  decompression_bomb : ProtoError
  decompression_stalled : ProtoError
  decode_failed : ProtoError

-- `AeadInPlace` of the aes_gcm crate with empty associated data, under a key of 32 bytes: the tag,
-- or `none` for an error, and the buffer afterwards; success or not, and the buffer afterwards.
pub record Aead : Type 0 where
  pub encrypt_in_place_detached : (key nonce : List ℕ) → List ℕ → Option (List ℕ) × List ℕ
  pub decrypt_in_place_detached : (key nonce : List ℕ) → List ℕ → (tag : List ℕ) → Bool × List ℕ

pub record Cipher : Type 0 where
  pub key : List ℕ
  pub nonce_counter : ℕ  -- AtomicU64
  pub random_prefix : List ℕ  -- four bytes

unfoldable pub derive_key : (List ℕ → List ℕ) → List ℕ → List ℕ
derive_key sha256 auth_token = sha256 auth_token

-- What `derive_session_key` hashes.
unfoldable pub session_input : (auth_token client_nonce server_nonce : List ℕ) → List ℕ
session_input auth_token client_nonce server_nonce =
    auth_token ++ (codes "rfrp-handshake-v1" ++ (client_nonce ++ server_nonce))

unfoldable pub derive_session_key :
    (List ℕ → List ℕ) → (auth_token client_nonce server_nonce : List ℕ) → List ℕ
derive_session_key sha256 auth_token client_nonce server_nonce =
    sha256 (session_input auth_token client_nonce server_nonce)

-- The second argument is what `rand::random` returned.
unfoldable pub new : List ℕ → List ℕ → Cipher
new key random_prefix = record { key = key; nonce_counter = 0; random_prefix = random_prefix }

unfoldable pub nonce_of : Cipher → List ℕ
nonce_of c = c.random_prefix ++ to_be_bytes 8 c.nonce_counter

-- `fetch_add` wraps.
unfoldable pub bump : Cipher → Cipher
bump c = record c { nonce_counter = (c.nonce_counter + 1) % 2 ^ 64 }

-- How a ciphertext is cut: the body, the nonce of 12 bytes and the tag of 16.
unfoldable pub cut : List ℕ → Outcome (List ℕ × List ℕ × List ℕ)
cut buf = do
  split ← checked_sub (length buf) 28
  nonce_slice ← slice buf split (split + 12)
  nonce ← copied 12 nonce_slice
  tag_slice ← slice_from buf (split + 12)
  tag ← copied 16 tag_slice
  body ← slice_to buf split
  returns (body, nonce, tag)

module _ (aead : Aead) where
  -- The nonce, the tag, the data encrypted in place, and the cipher afterwards.
  unfoldable pub encrypt_inner : Cipher → List ℕ → Option (List ℕ × List ℕ × List ℕ × Cipher)
  encrypt_inner c plain =
      let (tag, body) = aead.encrypt_in_place_detached c.key (nonce_of c) plain in
      elim tag [ none ↦ none | some t ↦ some (nonce_of c, t, body, bump c) ]

  -- The buffer and the cipher afterwards.
  unfoldable pub encrypt_in_place : Cipher → List ℕ → Option (List ℕ × Cipher)
  encrypt_in_place c buf = elim (encrypt_inner c buf) [
    | none ↦ none
    | some (nonce, tag, body, c') ↦ some (body ++ nonce ++ tag, c')
  ]

  unfoldable pub encrypt_in_place_bytes_mut : Cipher → List ℕ → Option (List ℕ × Cipher)
  encrypt_in_place_bytes_mut c buf = elim (encrypt_inner c buf) [
    | none ↦ none
    | some (nonce, tag, body, c') ↦ some (body ++ nonce ++ tag, c')
  ]

  unfoldable pub encrypt : Cipher → List ℕ → Option (List ℕ × Cipher)
  encrypt c plaintext = encrypt_in_place c plaintext

  unfoldable pub decrypt : Cipher → List ℕ → Outcome (Result ProtoError (List ℕ))
  decrypt c ciphertext =
      if ltb (length ciphertext) 28 then returns (err ciphertext_too_short) else (do
        (body, nonce, tag) ← cut ciphertext
        let r = aead.decrypt_in_place_detached c.key nonce body tag
        returns (if r.0 then ok r.1 else err decryption_failed))

  -- The result, and the buffer afterwards, of which a successful result is a view.
  unfoldable pub decrypt_in_place : Cipher → List ℕ → Outcome (Result ProtoError (List ℕ) × List ℕ)
  decrypt_in_place c buf =
      if ltb (length buf) 28 then returns (err ciphertext_too_short, buf) else (do
        (body, nonce, tag) ← cut buf
        let r = aead.decrypt_in_place_detached c.key nonce body tag
        returns (if r.0 then (ok r.1, r.1) else (err decryption_failed, r.1)))

  unfoldable pub decrypt_in_place_bytes_mut :
      Cipher → List ℕ → Outcome (Result ProtoError (List ℕ) × List ℕ)
  decrypt_in_place_bytes_mut c buf =
      if ltb (length buf) 28 then returns (err ciphertext_too_short, buf) else (do
        (body, nonce, tag) ← cut buf
        let r = aead.decrypt_in_place_detached c.key nonce body tag
        returns (if r.0 then (ok r.1, r.1) else (err decryption_failed, r.1)))
