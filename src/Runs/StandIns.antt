-- ===== src/Runs/StandIns.antt =====
-- Concrete crates that meet the laws: they show that the laws can hold, and run in tests.
pub mod Copy
pub mod Buffer
mod Pack
use rfrp.Base.{◌≡◌, refl, arith, List, ℕ, ◌^◌, ◌≤◌, true, some, length, replicate}
use rfrp.Crypto.{Aead}
use rfrp.Crypto.Laws.{IsAead}
use rfrp.Codec.{Crates}
use rfrp.Codec.Laws.{AreCrates}
use Copy.{copier, copier-IsFlate, copier-IsLossless}
use Pack.{pack, pack-IsMessagePack}

-- A cipher that leaves the text as it is, with a constant tag.
abbrev pub plain_aead : Aead
plain_aead = record {
  encrypt_in_place_detached = λ key nonce text. (some (replicate 16 7), text);
  decrypt_in_place_detached = λ key nonce text tag. (true, text);
}

pub plain_aead-IsAead : IsAead plain_aead
plain_aead-IsAead = record {
  encrypts = λ key nonce text k n fits. (replicate 16 7, refl, refl, refl);
  decrypts = λ key nonce text tag made. refl;
}

abbrev pub crates : Crates
crates = record { message_pack = pack; deflate = copier; inflate = copier; aead = plain_aead }

pub crates-AreCrates : AreCrates crates
crates-AreCrates = record {
  message_pack = pack-IsMessagePack;
  deflate = copier-IsFlate;
  inflate = copier-IsFlate;
  lossless = copier-IsLossless;
  aead = plain_aead-IsAead;
}
