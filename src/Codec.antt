-- ===== src/Codec.antt =====
-- rfrp_proto/src/frame_encode.rs and frame_decode.rs: a frame to the bytes of the wire and back.
pub mod Laws
pub mod RoundTrip
use rfrp.Base.{length, ◌++◌, ◌∷◌, ℕ, List, [], Option, none, some}
use rfrp.Base.Result.{Result, ok, err}
use rfrp.Base.Outcome.{expect}
pub use rfrp.Base.Outcome.{◌>>=◌}
use rfrp.Frame.{RfrpFrame, skip_fields}
use rfrp.Crypto.{
  ProtoError, decode_failed, Aead, Cipher, encrypt_in_place_bytes_mut, decrypt_in_place_bytes_mut,
}
use rfrp.Compress.{
  Flate, Outcome, returns, panics, out_of_fuel, compress_into_bytes_mut, decompress_into_vec,
}

-- rmp_serde on frames: `none` is an error.
pub record MessagePack : Type 0 where
  pub to_vec : RfrpFrame → Option (List ℕ)
  pub write : RfrpFrame → Option (List (List ℕ))  -- what `encode::write` gives its writer, in order
  pub from_slice : List ℕ → Option RfrpFrame

-- The crates that the protocol stands on.
pub record Crates : Type 1 where
  pub message_pack : MessagePack
  pub deflate : Flate
  pub inflate : Flate
  pub aead : Aead

unfoldable pub encode : MessagePack → RfrpFrame → Outcome (List ℕ)
encode m object = expect (m.to_vec object)

unfoldable pub decode : MessagePack → List ℕ → Result ProtoError RfrpFrame
decode m bytes = elim (m.from_slice bytes) [ none ↦ err decode_failed | some f ↦ ok f ]

-- `BytesMutWriter::write`: how many bytes it took, and the buffer afterwards.
unfoldable pub write : List ℕ → List ℕ → ℕ × List ℕ
write bytes buf = (length bytes, buf ++ bytes)

-- The buffer after several writes, each of which takes all that it is given.
unfoldable pub write_each : List (List ℕ) → List ℕ → List ℕ
unfolding write
write_each [] buf = buf
write_each (bytes ∷ rest) buf = write_each rest (write bytes buf).1

module _ (crates : Crates) where
  open crates use {message_pack, deflate, inflate, aead}

  -- The frame's bytes, then the buffer, the cipher and the compressor afterwards. `split` takes the
  -- content of the buffer and leaves it empty.
  unfoldable pub encode_encrypted :
      RfrpFrame
      → Cipher
      → List ℕ
      → deflate.State
      → Outcome (List ℕ × List ℕ × Cipher × deflate.State)
  unfolding write_each
  encode_encrypted object cipher buf compress = do
    pieces ← expect (message_pack.write object)
    (compressed, compress') ← compress_into_bytes_mut deflate (write_each pieces []) [] compress
    (sealed, cipher') ← expect (encrypt_in_place_bytes_mut aead cipher compressed)
    returns (sealed, [], cipher', compress')

  -- The steps behind the decryption, on a successful one.
  unfoldable pub decode_plaintext :
      Result ProtoError (List ℕ)
      → List ℕ
      → List ℕ
      → inflate.State
      → Outcome (Result ProtoError RfrpFrame × List ℕ × List ℕ × inflate.State)
  unfolding decode
  decode_plaintext (err e) buf decomp_buf decompress = returns (err e, buf, decomp_buf, decompress)
  decode_plaintext (ok plaintext) buf decomp_buf decompress = do
    (r, decomp_buf', decompress') ← decompress_into_vec inflate plaintext decomp_buf decompress
    elim r [
      | err e ↦ returns (err e, buf, decomp_buf', decompress')
      | ok _ ↦ returns (decode message_pack decomp_buf', buf, decomp_buf', decompress')
    ]

  -- The result, then both buffers and the decompressor afterwards.
  unfoldable pub decode_encrypted_bytes_mut :
      List ℕ
      → Cipher
      → List ℕ
      → inflate.State
      → Outcome (Result ProtoError RfrpFrame × List ℕ × List ℕ × inflate.State)
  unfolding decode_plaintext
  decode_encrypted_bytes_mut buf cipher decomp_buf decompress = do
    (r, buf') ← decrypt_in_place_bytes_mut aead cipher buf
    decode_plaintext r buf' decomp_buf decompress
