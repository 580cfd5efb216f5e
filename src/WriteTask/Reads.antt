-- ===== src/WriteTask/Reads.antt =====
-- Taking apart a run of `read_all`.
use rfrp.Base.{ℕ, ◌≡◌, refl, sym, List, ◌∷◌}
use rfrp.Base.Result.{Result}
use rfrp.Frame.{RfrpFrame}
use rfrp.Crypto.{ProtoError, Cipher}
use rfrp.Compress.{Outcome, returns, panics, out_of_fuel}
use rfrp.Codec.{Crates, decode_encrypted_bytes_mut, ◌>>=◌}
use rfrp.Codec.Laws.{AreCrates}
use rfrp.Codec.RoundTrip.{decode-ends}
use rfrp.WriteTask.Wire.{read_all}

pub >>=-eq-returns {ℓ κ} :
    {A : Type ℓ} {B : Type κ} (m : Outcome A) (f : A → Outcome B) {b : B}
    → (m >>= f) ≡ returns b
    → (a : A) × (m ≡ returns a) × (f a ≡ returns b)
>>=-eq-returns (returns a) f h = (a, refl, h)
>>=-eq-returns panics f h = cc
>>=-eq-returns out_of_fuel f h = cc

pub returns_inj {ℓ} : {A : Type ℓ} {a b : A} → returns a ≡ returns b → a ≡ b
returns_inj h = cc

-- The first payload of a run, and the rest of it.
abbrev pub Unfolds :
    (crates : Crates)
    → List ℕ
    → List (List ℕ)
    → Cipher
    → List ℕ
    → crates.inflate.State
    → List (Result ProtoError RfrpFrame)
    → Type 0
Unfolds crates bytes wire d decomp_buf decompress l =
    (r : Result ProtoError RfrpFrame) × (rs : List (Result ProtoError RfrpFrame)) × (buf
      decomp_buf' : List ℕ)
    × (decompress' : crates.inflate.State) × (l ≡ r ∷ rs)
    × (decode_encrypted_bytes_mut crates bytes d decomp_buf decompress
        ≡ returns (r, buf, decomp_buf', decompress'))
    × (read_all crates wire d decomp_buf' decompress' ≡ returns rs)

module _ (crates : Crates) (laws : AreCrates crates) where
  pub read_all-Unfolds :
      (bytes : List ℕ) (wire : List (List ℕ)) (d : Cipher) (decomp_buf : List ℕ)
      (decompress : crates.inflate.State) (l : List (Result ProtoError RfrpFrame))
      → read_all crates (bytes ∷ wire) d decomp_buf decompress ≡ returns l
      → Unfolds crates bytes wire d decomp_buf decompress l
  unfolding read_all
  read_all-Unfolds bytes wire d decomp_buf decompress l h =
      let (r, buf, decomp_buf', decompress', e) =
        decode-ends crates laws bytes d decomp_buf decompress in
      let (rs, later, whole) =
        >>=-eq-returns (read_all crates wire d decomp_buf' decompress') (λ rs. returns (r ∷ rs))
          (rw e at h) in
      (r, rs, buf, decomp_buf', decompress', sym (returns_inj whole), e, later)
