-- ===== src/Runs/Codec.antt =====
-- A frame on the wire, and the theorems on it.
use rfrp.Base.{ℕ, ◌≡◌, refl, arith, List, [], ◌∷◌}
use rfrp.Base.Bytes.{codes}
use rfrp.Base.Result.{ok}
use rfrp.Frame.{RfrpFrame, register, skip_fields}
use rfrp.Crypto.{bump}
use rfrp.Compress.{returns}
use rfrp.Codec.{encode_encrypted, decode_encrypted_bytes_mut}
use rfrp.Codec.RoundTrip.{decode-encode}
use rfrp.Runs.StandIns.{crates, crates-AreCrates}
use rfrp.Runs.StandIns.Copy.{Totals}
use rfrp.Runs.Crypto.{client_cipher, server_cipher, client_cipher-IsCipher, used}
use rfrp.Runs.Config.{entry}

abbrev frame : RfrpFrame
frame = register (record (entry (codes "127.0.0.1")) { addr = codes "127.0.0.1:22" })

abbrev frame_bytes : List ℕ
frame_bytes =
    0 ∷ 22001 ∷ 22 ∷ 3 ∷ b's' ∷ b's' ∷ b'h' ∷ 9 ∷ b'1' ∷ b'2' ∷ b'7' ∷ b'.' ∷ b'0' ∷ b'.' ∷ b'0'
    ∷ b'.' ∷ b'1' ∷ 3 ∷ b't' ∷ b'c' ∷ b'p' ∷ []

decode-encode_example :
    (sealed plain : List ℕ) × (compress' decompress' : Totals) × (encode_encrypted crates frame
        client_cipher
        (codes "old")
        used
      ≡ returns (sealed, [], bump client_cipher, compress'))
    × (decode_encrypted_bytes_mut crates sealed server_cipher (codes "older") used
        ≡ returns (ok (skip_fields frame), plain, frame_bytes, decompress'))
decode-encode_example =
    decode-encode crates crates-AreCrates frame client_cipher server_cipher client_cipher-IsCipher
      refl frame_bytes refl (omega arith) (codes "old") (codes "older") used used
