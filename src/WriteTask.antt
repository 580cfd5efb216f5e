-- ===== src/WriteTask.antt =====
-- rfrp_proto/src/coalesce.rs: the task that writes a session's frames to the wire.
pub mod Wire
pub mod Reads
use rfrp.Base.{ℕ, Bool, true, false, List, [], ◌∷◌}
use rfrp.Frame.{RfrpFrame}
use rfrp.Crypto.{Cipher}
use rfrp.Compress.{Outcome, returns}
use rfrp.Codec.{Crates, encode_encrypted, ◌>>=◌}

-- A frame that the channel gives, and whether the framed writer then takes its bytes.
abbrev pub Item : Type 0
Item = RfrpFrame × Bool

module _ (crates : Crates) where
  -- The payloads that the writer took, in order, when the channel gave these frames. The task is the
  -- only one that encrypts, so the cipher's counter is passed on from frame to frame.
  unfoldable pub write_loop :
      List Item → Cipher → List ℕ → crates.deflate.State → Outcome (List (List ℕ))
  write_loop [] cipher encode_buf compress = returns []
  write_loop ((frame, true) ∷ items) cipher encode_buf compress = do
    (bytes, encode_buf', cipher', compress') ←
        encode_encrypted crates frame cipher encode_buf compress
    later ← write_loop items cipher' encode_buf' compress'
    returns (bytes ∷ later)
  write_loop ((frame, false) ∷ items) cipher encode_buf compress = do
    _ ← encode_encrypted crates frame cipher encode_buf compress
    returns []
