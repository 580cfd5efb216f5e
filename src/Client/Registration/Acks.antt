-- ===== src/Client/Registration/Acks.antt =====
-- A registration against a server that acknowledges every proxy.
use rfrp.Base.{ℕ, ◌≡◌, refl, true, List, [], ◌∷◌, ◌++◌, map}
use rfrp.Base.Dict.{insert}
use rfrp.Config.{ClientInfo}
use rfrp.Frame.{register, new_reg_ack_frame, skip_fields}
use rfrp.Crypto.{Cipher, bump}
use rfrp.Crypto.RoundTrip.{IsCipher}
use rfrp.Compress.{returns}
use rfrp.Codec.{Crates}
use rfrp.Codec.Laws.{AreCrates}
use rfrp.Codec.RoundTrip.{decode-encode}
use rfrp.WriteTask.{Item, write_loop}
use rfrp.WriteTask.Wire.{AllFit, bump-IsCipher}
use rfrp.Client.Registration.{
  answered, Registration, registered, send_register, on_reply, register_all,
}

-- A proxy of the configuration with the id that the server gives it.
abbrev pub Grant : Type 0
Grant = ClientInfo × ℕ

-- The server's acknowledgements, all of which its writer takes.
abbrev pub acks : List Grant → List Item
acks [] = []
acks ((info, id) ∷ grants) = (new_reg_ack_frame info true id, true) ∷ acks grants

abbrev pub infos_of : List Grant → List ClientInfo
infos_of [] = []
infos_of ((info, id) ∷ grants) = info ∷ infos_of grants

abbrev pub granted : ClientInfo → ℕ → Registration → Registration
granted info id s = record {
  proxy_configs = insert id info s.proxy_configs;
  sent = s.sent ++ (register info ∷ []);
}

abbrev pub assigned : List Grant → Registration → Registration
assigned [] s = s
assigned ((info, id) ∷ grants) s = assigned grants (granted info id s)

-- What the server acknowledges, the client registers.
abbrev pub Registers :
    (crates : Crates)
    → List Grant
    → Cipher
    → Cipher
    → List ℕ
    → List ℕ
    → crates.deflate.State
    → crates.inflate.State
    → Registration
    → Type 0
Registers crates grants c d encode_buf decomp_buf compress decompress s =
    (wire : List (List ℕ)) × (decomp_buf' : List ℕ) × (decompress' : crates.inflate.State)
    × (write_loop crates (acks grants) c encode_buf compress ≡ returns wire)
    × (register_all crates d (infos_of grants) (map answered wire) decomp_buf decompress s
        ≡ returns (registered (assigned grants s) decomp_buf' decompress'))

module _ (crates : Crates) (laws : AreCrates crates) where
  -- When the server's write task acknowledges the proxies in their order, and nothing else comes in
  -- between, the registration over these payloads succeeds: every proxy has been sent, and is stored
  -- under the id of its acknowledgement, as the client's configuration has it. Both ciphers have the
  -- same key, and each acknowledgement a MessagePack form of at most 64 MiB.
  pub register_all-acks :
      (grants : List Grant) (c d : Cipher)
      → IsCipher c
      → d.key ≡ c.key
      → AllFit crates (acks grants)
      → (encode_buf decomp_buf : List ℕ) (compress : crates.deflate.State)
        (decompress : crates.inflate.State) (s : Registration)
      → Registers crates grants c d encode_buf decomp_buf compress decompress s
  unfolding write_loop register_all on_reply skip_fields new_reg_ack_frame send_register
  register_all-acks [] c d h same fit encode_buf decomp_buf compress decompress s =
      ([], decomp_buf, decompress, refl, refl)
  register_all-acks ((info, id) ∷ grants) c d h same ((serialized, made, fits), fit) encode_buf
        decomp_buf compress decompress s =
      let (sealed, plain, compress', decompress', encoded, decoded) =
        decode-encode crates laws (new_reg_ack_frame info true id) c d h same serialized made fits
          encode_buf decomp_buf compress decompress in
      let (wire, decomp_buf', decompress'', wrote, done) =
        register_all-acks grants (bump c) d (bump-IsCipher c h) (unfold bump in same) fit []
          serialized compress' decompress' (granted info id s) in
      (sealed ∷ wire, decomp_buf', decompress'', rw (encoded, wrote) refl, rw decoded done)
