-- ===== src/Network/Carried.antt =====
-- Lines (rfrp_proto/src/coalesce.rs) whose payloads are those of the frames that are sent.
use rfrp.Base.{
  ℕ, ◌+◌, ◌≤◌, ◌≡◌, sym, arith, List, [], ◌∷◌, ◌++◌, some, length, get_elem?, get_elem?-append_left,
  get_elem?-lt,
}
use mathlib.Core.Path.{subst}
use rfrp.Base.Result.{ok}
use rfrp.Frame.{RfrpFrame, skip_fields}
use rfrp.Crypto.{Cipher}
use rfrp.Crypto.RoundTrip.{IsCipher}
use rfrp.Compress.{returns, max_decompressed_size}
use rfrp.Codec.{Crates, decode_encrypted_bytes_mut}
use rfrp.Network.Growth.{Grows}
use rfrp.Network.Line.{Line}

-- A frame with a MessagePack form of at most 64 MiB.
abbrev pub Fits : Crates → RfrpFrame → Type 0
Fits crates f =
    (serialized : List ℕ) × (crates.message_pack.to_vec f ≡ some serialized)
    × (length serialized ≤ max_decompressed_size)

-- A frame with a MessagePack form of at most 524,242 bytes, of which no more than 1 MiB comes out.
abbrev pub IsSlim : Crates → RfrpFrame → Type 0
IsSlim crates f =
    (serialized : List ℕ) × (crates.message_pack.to_vec f ≡ some serialized)
    × (length serialized ≤ 524242)

pub IsSlim-Fits : (crates : Crates) (f : RfrpFrame) → IsSlim crates f → Fits crates f
IsSlim-Fits crates f (serialized, made, small) = (serialized, made, omega arith)

-- A payload that every reader under the key decodes to the frame.
abbrev pub Opens : Crates → List ℕ → List ℕ → RfrpFrame → Type 0
Opens crates key bytes f =
    (d : Cipher) (decomp_buf : List ℕ) (decompress : crates.inflate.State)
    → d.key ≡ key
    → (plain serialized : List ℕ) × (decompress' : crates.inflate.State)
      × (decode_encrypted_bytes_mut crates bytes d decomp_buf decompress
          ≡ returns (ok (skip_fields f), plain, serialized, decompress'))

-- The payloads are those of the frames from the `i`th on.
abbrev pub Carries : Crates → List ℕ → List RfrpFrame → ℕ → List (List ℕ) → Type 0
Carries crates key sent i [] = Unit
Carries crates key sent i (bytes ∷ rest) =
    ((f : RfrpFrame) × (get_elem? sent i ≡ some f) × Opens crates key bytes f)
    × Carries crates key sent (i + 1) rest

-- A line whose reader has read the first `i` of the frames that are sent.
pub record IsCarrying (crates : Crates) (l : Line crates) (sent : List RfrpFrame) (i : ℕ)
    : Type 0 where
  pub ciphers : IsCipher l.cipher
  pub same_key : l.reader.key ≡ l.cipher.key
  pub carries : Carries crates l.cipher.key sent i l.wire
  pub counts : i + length l.wire ≡ l.wrote

grown-Carries :
    (crates : Crates) (key : List ℕ) (before more : List RfrpFrame) (i : ℕ) (wire : List (List ℕ))
    → Carries crates key before i wire
    → Carries crates key (before ++ more) i wire
grown-Carries crates key before more i [] v = tt
grown-Carries crates key before more i (bytes ∷ rest) ((f, at, opens), later) = (
  (f, get_elem?-append_left before more i at, opens),
  grown-Carries crates key before more (i + 1) rest later,
)

pub snoc-Carries :
    (crates : Crates) (key : List ℕ) (sent : List RfrpFrame) (i : ℕ) (wire : List (List ℕ))
    (bytes : List ℕ) (f : RfrpFrame)
    → get_elem? sent (i + length wire) ≡ some f
    → Opens crates key bytes f
    → Carries crates key sent i wire
    → Carries crates key sent i (wire ++ (bytes ∷ []))
snoc-Carries crates key sent i [] bytes f at opens v =
    ((f, subst (λ n. get_elem? sent n ≡ some f) (omega arith) at, opens), tt)
snoc-Carries crates key sent i (b ∷ rest) bytes f at opens (first, later) = (
  first,
  snoc-Carries crates key sent (i + 1) rest bytes f
      (subst (λ n. get_elem? sent n ≡ some f) (omega arith) at) opens later,
)

pub grown-IsCarrying :
    (crates : Crates) (l : Line crates) (before after : List RfrpFrame) (i : ℕ)
    → Grows before after
    → IsCarrying crates l before i
    → IsCarrying crates l after i
grown-IsCarrying crates l before after i (more, e) v = record {
  ciphers = v.ciphers;
  same_key = v.same_key;
  carries =
      subst (λ fs. Carries crates l.cipher.key fs i l.wire) (sym e)
        (grown-Carries crates l.cipher.key before more i l.wire v.carries);
  counts = v.counts;
}

pub Carries-length :
    (crates : Crates) (key : List ℕ) (sent : List RfrpFrame) (i : ℕ) (wire : List (List ℕ))
    → i ≤ length sent
    → Carries crates key sent i wire
    → i + length wire ≤ length sent
Carries-length crates key sent i [] le v = omega arith
Carries-length crates key sent i (bytes ∷ rest) le ((f, at, opens), later) = omega (
  arith,
  Carries-length crates key sent (i + 1) rest (omega (arith, get_elem?-lt sent i at)) later,
)
