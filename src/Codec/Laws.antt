-- ===== src/Codec/Laws.antt =====
-- What the protocol relies on of its crates, each by its own laws.
use rfrp.Base.{concat, ◌≡◌, List, ℕ, some}
use rfrp.Frame.{RfrpFrame, skip_fields}
use rfrp.Crypto.Laws.{IsAead}
use rfrp.Compress.Laws.{IsFlate, IsLossless}
use rfrp.Codec.{MessagePack, Crates}

-- rmp_serde writes every frame, and reads back what serde's attributes leave of it. Its two ways to
-- write put out the same bytes.
pub record IsMessagePack (m : MessagePack) : Type 0 where
  pub writes :
      (f : RfrpFrame)
      → (bytes : List ℕ) × (m.to_vec f ≡ some bytes) × (m.from_slice bytes ≡ some (skip_fields f))
  pub in_pieces :
      (f : RfrpFrame) (bytes : List ℕ)
      → m.to_vec f ≡ some bytes
      → (pieces : List (List ℕ)) × (m.write f ≡ some pieces) × (concat pieces ≡ bytes)

pub record AreCrates (c : Crates) : Type 0 where
  pub message_pack : IsMessagePack c.message_pack
  pub deflate : IsFlate c.deflate
  pub inflate : IsFlate c.inflate
  pub lossless : IsLossless c.deflate c.inflate
  pub aead : IsAead c.aead
