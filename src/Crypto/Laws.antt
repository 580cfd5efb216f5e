-- ===== src/Crypto/Laws.antt =====
-- What the cipher relies on of the aes_gcm crate, as its documentation states it.
use rfrp.Base.{ℕ, ◌^◌, ◌≤◌, ◌≡◌, true, List, some, length}
use rfrp.Crypto.{Aead}

-- A message of at most 2^36 bytes, the crate's P_MAX, under a key of 32 bytes and a nonce of 12 is
-- encrypted to as many bytes with a tag of 16, and decryption under the same key and nonce undoes it.
pub record IsAead (a : Aead) : Type 0 where
  pub encrypts :
      (key nonce plain : List ℕ)
      → length key ≡ 32
      → length nonce ≡ 12
      → length plain ≤ 2 ^ 36
      → (tag : List ℕ) × ((a.encrypt_in_place_detached key nonce plain).0 ≡ some tag)
        × (length tag ≡ 16)
        × (length (a.encrypt_in_place_detached key nonce plain).1 ≡ length plain)
  pub decrypts :
      (key nonce plain tag : List ℕ)
      → (a.encrypt_in_place_detached key nonce plain).0 ≡ some tag
      → a.decrypt_in_place_detached key nonce (a.encrypt_in_place_detached key nonce plain).1 tag
        ≡ (true, plain)
