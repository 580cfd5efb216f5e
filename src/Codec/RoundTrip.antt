-- ===== src/Codec/RoundTrip.antt =====
-- Encoding and decoding, end to end.
use rfrp.Base.{
  concat, ◌++◌, ◌∷◌, ℕ, ◌+◌, ◌*◌, ◌≤◌, ◌<◌, ◌≡◌, refl, sym, ◌∙◌, List, [], some, arith, length,
  some_inj,
}
use rfrp.Base.Result.{Result, ok, err}
use rfrp.Frame.{RfrpFrame, skip_fields}
use rfrp.Crypto.{
  ProtoError, ciphertext_too_short, Cipher, bump, encrypt_in_place_bytes_mut,
  decrypt_in_place_bytes_mut,
}
use rfrp.Crypto.RoundTrip.{IsCipher, decrypt-encrypt, decrypt-short, decrypt-ends}
use rfrp.Compress.{
  Outcome, returns, max_decompressed_size, compress_into_bytes_mut, decompress_into_vec,
}
use mathlib.Core.Path.{subst}
use rfrp.Compress.Stream.{decompress-compress}
use rfrp.Compress.Bounds.{decompress_into_vec-ends}
use mathlib.Core.List.{append_assoc, append-nil}
use rfrp.Codec.{
  write, write_each, Crates, encode_encrypted, decode_encrypted_bytes_mut, decode_plaintext, decode,
}
use rfrp.Codec.Laws.{AreCrates}

write_each-concat :
    (pieces : List (List ℕ)) (buf : List ℕ) → write_each pieces buf ≡ buf ++ concat pieces
unfolding write_each write
write_each-concat [] buf = sym (append-nil buf)
write_each-concat (bytes ∷ rest) buf =
    write_each-concat rest (buf ++ bytes) ∙ append_assoc buf bytes (concat rest)

module _ (crates : Crates) (f : RfrpFrame) (c : Cipher) (buf : List ℕ)
    (compress : crates.deflate.State) {c' : Cipher} {pieces : List (List ℕ)}
    {serialized out sealed : List ℕ} {compress' : crates.deflate.State} where
  encoded :
      crates.message_pack.write f ≡ some pieces
      → write_each pieces [] ≡ serialized
      → compress_into_bytes_mut crates.deflate serialized [] compress ≡ returns (out, compress')
      → encrypt_in_place_bytes_mut crates.aead c out ≡ some (sealed, c')
      → encode_encrypted crates f c buf compress ≡ returns (sealed, [], c', compress')
  unfolding encode_encrypted
  encoded made joined squeezed encrypted = rw (made, joined, squeezed, encrypted)

module _ (crates : Crates) (d : Cipher) (sealed decomp_buf : List ℕ)
    (decompress : crates.inflate.State) {f : RfrpFrame} {serialized plain : List ℕ}
    {decompress' : crates.inflate.State} where
  decoded :
      decrypt_in_place_bytes_mut crates.aead d sealed ≡ returns (ok plain, plain)
      → decompress_into_vec crates.inflate plain decomp_buf decompress
        ≡ returns (ok tt, serialized, decompress')
      → crates.message_pack.from_slice serialized ≡ some f
      → decode_encrypted_bytes_mut crates sealed d decomp_buf decompress
        ≡ returns (ok f, plain, serialized, decompress')
  unfolding decode_encrypted_bytes_mut decode
  decoded opens grown read = rw (opens, grown, decode, read)

abbrev pub DecodeEnds :
    (crates : Crates)
    → Outcome (Result ProtoError RfrpFrame × List ℕ × List ℕ × crates.inflate.State)
    → Type 0
DecodeEnds crates o =
    (r : Result ProtoError RfrpFrame) × (buf decomp_buf : List ℕ)
    × (decompress : crates.inflate.State) × (o ≡ returns (r, buf, decomp_buf, decompress))

module _ (crates : Crates) (laws : AreCrates crates) where
  reads :
      (f : RfrpFrame) (serialized : List ℕ)
      → crates.message_pack.to_vec f ≡ some serialized
      → crates.message_pack.from_slice serialized ≡ some (skip_fields f)
  reads f serialized made =
      let (bytes, written, read) = laws.message_pack.writes f in
      subst (λ b. crates.message_pack.from_slice b ≡ some (skip_fields f))
        (some_inj (sym written ∙ made)) read

  -- The round trip, with the size of what is encoded.
  pub decode-encode_sized :
      (f : RfrpFrame) (c d : Cipher)
      → IsCipher c
      → d.key ≡ c.key
      → (serialized : List ℕ) → crates.message_pack.to_vec f ≡ some serialized
      → length serialized ≤ max_decompressed_size
      → (buf decomp_buf : List ℕ) (compress : crates.deflate.State)
        (decompress : crates.inflate.State)
      → (sealed plain : List ℕ) × (compress' : crates.deflate.State)
        × (decompress' : crates.inflate.State) × (encode_encrypted crates f c buf compress
            ≡ returns (sealed, [], bump c, compress'))
        × (decode_encrypted_bytes_mut crates sealed d decomp_buf decompress
            ≡ returns (ok (skip_fields f), plain, serialized, decompress'))
        × (length sealed ≤ 2 * length serialized + 92)
  decode-encode_sized f c d h same serialized made fits buf decomp_buf compress decompress =
      let (out, compress', decompress', squeezed, small, grown) =
        decompress-compress crates.deflate crates.inflate laws.deflate laws.inflate laws.lossless
          serialized [] decomp_buf compress decompress fits in
      let (sealed, encrypted, size, opens) =
        decrypt-encrypt crates.aead laws.aead c d out h same (omega arith) in
      let (pieces, written, joined) = laws.message_pack.in_pieces f serialized made in
      (
        sealed,
        out,
        compress',
        decompress',
        encoded crates f c buf compress written (write_each-concat pieces [] ∙ joined) squeezed
            encrypted,
        decoded crates d sealed decomp_buf decompress opens grown (reads f serialized made),
        omega (arith, size, small),
      )

  -- What one side encodes the other decodes: a frame whose MessagePack form is at most 64 MiB is
  -- encoded to some bytes, and a cipher under the same key decodes these to the frame without its
  -- skipped fields, whatever the buffers and the states of compressor and decompressor.
  pub decode-encode :
      (f : RfrpFrame) (c d : Cipher)
      → IsCipher c
      → d.key ≡ c.key
      → (serialized : List ℕ) → crates.message_pack.to_vec f ≡ some serialized
      → length serialized ≤ max_decompressed_size
      → (buf decomp_buf : List ℕ) (compress : crates.deflate.State)
        (decompress : crates.inflate.State)
      → (sealed plain : List ℕ) × (compress' : crates.deflate.State)
        × (decompress' : crates.inflate.State) × (encode_encrypted crates f c buf compress
            ≡ returns (sealed, [], bump c, compress'))
        × (decode_encrypted_bytes_mut crates sealed d decomp_buf decompress
            ≡ returns (ok (skip_fields f), plain, serialized, decompress'))
  decode-encode f c d h same serialized made fits buf decomp_buf compress decompress =
      let (sealed, plain, compress', decompress', encoded, decoded, _) =
        decode-encode_sized f c d h same serialized made fits buf decomp_buf compress decompress in
      (sealed, plain, compress', decompress', encoded, decoded)

  plaintext_ends :
      (p : Result ProtoError (List ℕ)) (buf decomp_buf : List ℕ) (decompress : crates.inflate.State)
      → DecodeEnds crates (decode_plaintext crates p buf decomp_buf decompress)
  unfolding decode_plaintext
  plaintext_ends (err e) buf decomp_buf decompress = (err e, buf, decomp_buf, decompress, refl)
  plaintext_ends (ok plain) buf decomp_buf decompress =
      let (r, dst, s, ends, _, _) =
        decompress_into_vec-ends crates.inflate laws.inflate plain decomp_buf decompress in
      rw ends (by_result r dst s)
    where
      by_result :
          (r : Result ProtoError (Unit {0})) (dst : List ℕ) (s : crates.inflate.State)
          → DecodeEnds crates (elim r [
            | err e ↦ returns (err e, buf, dst, s)
            | ok _ ↦ returns (decode crates.message_pack dst, buf, dst, s)
          ])
      by_result (ok _) dst s = (decode crates.message_pack dst, buf, dst, s, refl)
      by_result (err e) dst s = (err e, buf, dst, s, refl)

  -- Decoding ends on any bytes that the wire may bring, under any key: it returns a frame or an error,
  -- and neither panics nor runs on.
  pub decode-ends :
      (buf : List ℕ) (cipher : Cipher) (decomp_buf : List ℕ) (decompress : crates.inflate.State)
      → DecodeEnds crates (decode_encrypted_bytes_mut crates buf cipher decomp_buf decompress)
  unfolding decode_encrypted_bytes_mut
  decode-ends buf cipher decomp_buf decompress =
      let (r, buf', opened) = decrypt-ends crates.aead cipher buf in
      rw opened (plaintext_ends r buf' decomp_buf decompress)

  -- A payload of fewer than 28 bytes is an error, and neither buffer nor decompressor is touched.
  pub decode-short :
      (buf : List ℕ) (cipher : Cipher) (decomp_buf : List ℕ) (decompress : crates.inflate.State)
      → length buf < 28
      → decode_encrypted_bytes_mut crates buf cipher decomp_buf decompress
        ≡ returns (err ciphertext_too_short, buf, decomp_buf, decompress)
  unfolding decode_encrypted_bytes_mut
  decode-short buf cipher decomp_buf decompress h = rw ((decrypt-short crates.aead cipher buf h).2)
