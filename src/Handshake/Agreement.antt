-- ===== src/Handshake/Agreement.antt =====
-- A handshake gives both sides a cipher under one key.
use rfrp.Base.{ℕ, ◌≡◌, refl, List, [], length}
use rfrp.Base.Result.{ok}
use rfrp.Crypto.{Cipher, new, derive_session_key}
use rfrp.Crypto.RoundTrip.{IsCipher}
use rfrp.Compress.{returns}
use rfrp.Codec.{Crates}
use rfrp.Codec.Laws.{AreCrates}
use rfrp.WriteTask.{Item, write_loop}
use rfrp.WriteTask.Wire.{taken, read_all, as_read, AllFit, read_all-write_loop}
use rfrp.Handshake.{done, server_handshake, client_handshake}

-- What one cipher's side writes is read under the other's.
abbrev pub Arrives :
    (crates : Crates)
    → List Item
    → Cipher
    → Cipher
    → crates.deflate.State
    → crates.inflate.State
    → Type 0
Arrives crates items c d compress decompress =
    (wire : List (List ℕ)) × (write_loop crates items c [] compress ≡ returns wire)
    × (read_all crates wire d [] decompress ≡ returns (as_read (taken items)))

module _ (sha256 : List ℕ → List ℕ) (digests : (x : List ℕ) → length (sha256 x) ≡ 32) where
  new-IsCipher :
      (token n m prefix : List ℕ)
      → length prefix ≡ 4
      → IsCipher (new (derive_session_key sha256 token n m) prefix)
  unfolding new derive_session_key
  new-IsCipher token n m prefix h = record { key_size = digests _; prefix_size = h }

  -- When both sides have the same token and each reads the nonce that the other sent, both handshakes
  -- succeed, and then the frames of either side's write task arrive at the other, in order, up to the
  -- writer's first failure. SHA-256 gives 32 bytes, a prefix has four, and each frame has a MessagePack
  -- form of at most 64 MiB.
  pub handshake-Arrives :
      (token client_nonce server_nonce client_prefix server_prefix : List ℕ)
      → length client_prefix ≡ 4
      → length server_prefix ≡ 4
      → (crates : Crates) → AreCrates crates
      → (requests answers : List Item) → AllFit crates requests
      → AllFit crates answers
      → (compress : crates.deflate.State) (decompress : crates.inflate.State)
      → (c d : Cipher) × (client_handshake sha256 token client_nonce client_prefix
            (done tt)
            (done server_nonce)
          ≡ ok (c, client_nonce))
        × (server_handshake sha256 token server_nonce server_prefix (done client_nonce) (done tt)
            ≡ ok (d, server_nonce))
        × Arrives crates requests c d compress decompress
        × Arrives crates answers d c compress decompress
  unfolding client_handshake server_handshake
  handshake-Arrives token n m p q hp hq crates laws requests answers fits fits' compress
        decompress =
      let key = derive_session_key sha256 token n m in
      let c = new key p in
      let d = new key q in
      (
        c,
        d,
        refl,
        refl,
        read_all-write_loop crates laws requests c d (new-IsCipher token n m p hp)
            (unfold new in refl) fits [] [] compress decompress,
        read_all-write_loop crates laws answers d c (new-IsCipher token n m q hq)
            (unfold new in refl) fits' [] [] compress decompress,
      )
