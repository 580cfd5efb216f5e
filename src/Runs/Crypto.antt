-- ===== src/Runs/Crypto.antt =====
-- Ciphers at work, and the theorems on them.
use rfrp.Base.{
  ℕ, ◌+◌, ◌*◌, ◌≤◌, ◌≡◌, ◌≢◌, refl, arith, List, [], ◌∷◌, some, length, replicate, get_elem?,
}
use rfrp.Base.Bytes.{codes, to_be_bytes}
use rfrp.Base.Result.{ok}
use rfrp.Crypto.{Cipher, bump, nonce_of, encrypt_inner}
use rfrp.Crypto.RoundTrip.{IsCipher}
use rfrp.Crypto.Nonces.{nonces_used, nonces_used-distinct, nonces_used-disjoint}
use rfrp.Compress.{chunk_size, returns, compress_into_bytes_mut, decompress_into_vec}
use rfrp.Compress.Bounds.{EndsWithin, decompress_into_vec-ends}
use rfrp.Compress.Stream.{decompress-compress}
use rfrp.Runs.StandIns.{plain_aead}
use rfrp.Runs.StandIns.Copy.{Totals, copier, copier-IsFlate, copier-IsLossless}

abbrev pub client_cipher : Cipher
client_cipher = record {
  key = replicate 32 5;
  nonce_counter = 0;
  random_prefix = 1 ∷ 2 ∷ 3 ∷ 4 ∷ [];
}

abbrev pub server_cipher : Cipher
server_cipher = record {
  key = replicate 32 5;
  nonce_counter = 9;
  random_prefix = 5 ∷ 6 ∷ 7 ∷ 8 ∷ [];
}

pub client_cipher-IsCipher : IsCipher client_cipher
client_cipher-IsCipher = record { key_size = refl; prefix_size = refl }

abbrev pub used : Totals
used = record { total_in = 11; total_out = 12 }

abbrev messages : List (List ℕ)
messages = codes "a" ∷ codes "b" ∷ []

-- The second nonce of the client.
abbrev second_nonce : List ℕ
second_nonce = 1 ∷ 2 ∷ 3 ∷ 4 ∷ 0 ∷ 0 ∷ 0 ∷ 0 ∷ 0 ∷ 0 ∷ 0 ∷ 1 ∷ []

second_used : get_elem? (nonces_used plain_aead client_cipher messages) 1 ≡ some second_nonce
unfolding nonces_used encrypt_inner nonce_of bump to_be_bytes
second_used = refl

nonces_used-distinct_example : ◌≡◌ {A = ℕ} 1 1
nonces_used-distinct_example =
    nonces_used-distinct plain_aead client_cipher messages 1 1 second_nonce (omega arith)
      second_used second_used

nonces_used-disjoint_example :
    get_elem? (nonces_used plain_aead server_cipher messages) 0 ≢ some second_nonce
nonces_used-disjoint_example =
    nonces_used-disjoint plain_aead client_cipher server_cipher messages messages 1 0 second_nonce
      refl (λ e. ground arith) (omega arith) (omega arith) second_used

abbrev ones : List ℕ
ones = replicate 32 1

abbrev twos : List ℕ
twos = replicate 32 2

decompress_into_vec-ends_example :
    EndsWithin chunk_size (decompress_into_vec copier (codes "abc") (codes "old") used)
decompress_into_vec-ends_example =
    decompress_into_vec-ends copier copier-IsFlate (codes "abc") (codes "old") used

decompress-compress_example :
    (out : List ℕ) × (t v : Totals) × (compress_into_bytes_mut copier
        (codes "abc")
        (codes "old")
        used
      ≡ returns (out, t))
    × (length out ≤ 2 * length (codes "abc") + 64)
    × (decompress_into_vec copier out [] used ≡ returns (ok tt, codes "abc", v))
decompress-compress_example =
    decompress-compress copier copier copier-IsFlate copier-IsFlate copier-IsLossless (codes "abc")
      (codes "old") [] used used (omega arith)
