-- ===== src/WriteTask/Wire.antt =====
-- What one side's write task puts on the wire is what the other side's loop reads.
use rfrp.Base.{ℕ, ◌≤◌, ◌≡◌, refl, true, false, List, [], ◌∷◌, some, length}
use rfrp.Base.Result.{Result, ok}
use rfrp.Frame.{RfrpFrame, skip_fields}
use rfrp.Crypto.{ProtoError, Cipher, bump}
use rfrp.Crypto.RoundTrip.{IsCipher}
use rfrp.Compress.{Outcome, returns, max_decompressed_size}
use rfrp.Codec.{Crates, decode_encrypted_bytes_mut, ◌>>=◌}
use rfrp.Codec.Laws.{AreCrates}
use rfrp.Codec.RoundTrip.{decode-encode}
use rfrp.WriteTask.{Item, write_loop}

-- The frames of the items that the writer took: those before its first failure.
abbrev pub taken : List Item → List RfrpFrame
taken [] = []
taken ((f, true) ∷ items) = f ∷ taken items
taken ((f, false) ∷ items) = []

-- What successive calls of the decoder give, as both sides' loops make them.
unfoldable pub read_all :
    (crates : Crates)
    → List (List ℕ)
    → Cipher
    → List ℕ
    → crates.inflate.State
    → Outcome (List (Result ProtoError RfrpFrame))
read_all crates [] cipher decomp_buf decompress = returns []
read_all crates (bytes ∷ rest) cipher decomp_buf decompress = do
  (frame, _, decomp_buf', decompress') ←
      decode_encrypted_bytes_mut crates bytes cipher decomp_buf decompress
  later ← read_all crates rest cipher decomp_buf' decompress'
  returns (frame ∷ later)

abbrev pub as_read : List RfrpFrame → List (Result ProtoError RfrpFrame)
as_read [] = []
as_read (f ∷ fs) = ok (skip_fields f) ∷ as_read fs

-- Each frame has a MessagePack form of at most 64 MiB.
abbrev pub AllFit : Crates → List Item → Type 0
AllFit crates [] = Unit
AllFit crates ((f, _) ∷ items) =
    ((serialized : List ℕ) × (crates.message_pack.to_vec f ≡ some serialized)
      × (length serialized ≤ max_decompressed_size))
    × AllFit crates items

pub bump-IsCipher : (c : Cipher) → IsCipher c → IsCipher (bump c)
unfolding bump
bump-IsCipher c h = record { key_size = h.key_size; prefix_size = h.prefix_size }

module _ (crates : Crates) (laws : AreCrates crates) where
  -- Frames arrive as they were sent, in order and none besides: the write task puts the frames on the
  -- wire up to the writer's first failure, and a loop under the same key reads exactly these, without
  -- their skipped fields, whatever state its decompressor is in. Each frame has a MessagePack form of
  -- at most 64 MiB.
  pub read_all-write_loop :
      (items : List Item) (c d : Cipher)
      → IsCipher c
      → d.key ≡ c.key
      → AllFit crates items
      → (encode_buf decomp_buf : List ℕ) (compress : crates.deflate.State)
        (decompress : crates.inflate.State)
      → (wire : List (List ℕ)) × (write_loop crates items c encode_buf compress ≡ returns wire)
        × (read_all crates wire d decomp_buf decompress ≡ returns (as_read (taken items)))
  unfolding write_loop read_all
  read_all-write_loop [] c d h same fit encode_buf decomp_buf compress decompress = ([], refl, refl)
  read_all-write_loop ((f, true) ∷ items) c d h same ((serialized, made, fits), fit) encode_buf
        decomp_buf compress decompress =
      let (sealed, plain, compress', decompress', encoded, decoded) =
        decode-encode crates laws f c d h same serialized made fits encode_buf decomp_buf compress
          decompress in
      let (wire, wrote, arrived) =
        read_all-write_loop items (bump c) d (bump-IsCipher c h) (unfold bump in same) fit []
          serialized compress' decompress' in
      (sealed ∷ wire, rw (encoded, wrote) refl, rw (decoded, arrived) refl)
  read_all-write_loop ((f, false) ∷ items) c d h same ((serialized, made, fits), fit) encode_buf
        decomp_buf compress decompress =
      let (sealed, plain, compress', decompress', encoded, decoded) =
        decode-encode crates laws f c d h same serialized made fits encode_buf decomp_buf compress
          decompress in
      ([], rw encoded refl, refl)
