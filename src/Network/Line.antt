-- ===== src/Network/Line.antt =====
-- One direction of the connection, frame by frame: a round of the write task of
-- rfrp_proto/src/coalesce.rs, and what a round of the reading loop of rfrp_server/src/run_proxy.rs or
-- rfrp_client/src/run_proxy.rs does until it has its frame.
use rfrp.Base.{
  Bool, ◌&&◌, ◌*◌, leb, length, if◌then◌else◌, ℕ, ◌+◌, List, [], ◌∷◌, ◌++◌, Option, none, some,
}
use rfrp.Base.Result.{Result}
use rfrp.Frame.{RfrpFrame}
use rfrp.Crypto.{ProtoError, Cipher}
use rfrp.Compress.{Outcome, returns}
use rfrp.Codec.{Crates, encode_encrypted, decode_encrypted_bytes_mut, ◌>>=◌}

-- The write task's cipher, buffer and compressor, and how many frames of its channel it has written;
-- the payloads that are on the wire; and the reader's cipher, buffer and decompressor.
pub record Line (crates : Crates) : Type 0 where
  pub cipher : Cipher
  pub encode_buf : List ℕ
  pub compress : crates.deflate.State
  pub wrote : ℕ
  pub wire : List (List ℕ)
  pub reader : Cipher
  pub decomp_buf : List ℕ
  pub decompress : crates.inflate.State

-- What `make_length_delimited_codec` lets through.
abbrev pub max_frame_len : ℕ
max_frame_len = 1024 * 1024

module _ (crates : Crates) where
  -- The result is `none` where the loop breaks: the writer refuses a payload that is too long for the
  -- codec, and it may fail.
  unfoldable pub write_round :
      (takes : Bool) → RfrpFrame → Line crates → Outcome (Option (Line crates))
  write_round takes frame l = do
    (bytes, encode_buf', cipher', compress') ←
        encode_encrypted crates frame l.cipher l.encode_buf l.compress
    let l' = record l {
      cipher = cipher';
      encode_buf = encode_buf';
      compress = compress';
      wrote = l.wrote + 1;
      wire = l.wire ++ (bytes ∷ []);
    }
    returns (if takes && leb (length bytes) max_frame_len then some l' else none)

  -- What the decoder gives of the first of these payloads: `none` while there is none.
  unfoldable pub read_wire :
      List (List ℕ) → Line crates → Outcome (Option (Result ProtoError RfrpFrame × Line crates))
  read_wire [] l = returns none
  read_wire (bytes ∷ rest) l = do
    (frame, _, decomp_buf', decompress') ←
        decode_encrypted_bytes_mut crates bytes l.reader l.decomp_buf l.decompress
    returns
        (some (frame, record l { wire = rest; decomp_buf = decomp_buf'; decompress = decompress' }))

  unfoldable pub read_round :
      Line crates → Outcome (Option (Result ProtoError RfrpFrame × Line crates))
  unfolding read_wire
  read_round l = read_wire l.wire l
