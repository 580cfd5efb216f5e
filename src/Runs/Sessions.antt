-- ===== src/Runs/Sessions.antt =====
-- Whole sessions of both sides, and the theorems on them.
use rfrp.Base.{ℕ, ◌≡◌, refl, arith, List, [], ◌∷◌, true, replicate}
use rfrp.Base.Result.{ok}
use rfrp.Frame.{RfrpFrame, register, skip_fields, new_reg_ack_frame}
use rfrp.Crypto.{Cipher, bump}
use rfrp.Codec.{encode_encrypted, decode_encrypted_bytes_mut}
use rfrp.Codec.RoundTrip.{decode-encode}
use rfrp.Runs.StandIns.Copy.{Totals}
use rfrp.Base.Bytes.{codes}
use rfrp.Config.{RunningMode, ClientInfo}
use rfrp.Compress.{returns}
use rfrp.Network.Carried.{Fits}
use rfrp.Handshake.{done}
use rfrp.Client.Registration.{answered}
use rfrp.Client.RunProxy as ClientRun
use rfrp.Server.RunProxy as ServerRun
use rfrp.Server.Loop as ServerLoop
use rfrp.Runs.StandIns.{crates, crates-AreCrates}
use rfrp.Runs.Crypto.{used}
use rfrp.Runs.Config.{entry, sample}
use rfrp.Streams.Outbound.{all_open}

abbrev digest : List ℕ → List ℕ
digest x = replicate 32 9

-- The cipher of a session: both sides derive this key.
abbrev session_cipher : Cipher
session_cipher = record {
  key = replicate 32 9;
  nonce_counter = 0;
  random_prefix = 1 ∷ 2 ∷ 3 ∷ 4 ∷ [];
}

abbrev entries : List ClientInfo
entries = entry (codes "127.0.0.1") ∷ []

-- What one side puts on the wire for a frame under this cipher, which the other decodes.
sealing :
    (f : RfrpFrame) (fitting : Fits crates f)
    → (sealed plain : List ℕ) × (compress' decompress' : Totals) × (encode_encrypted crates f
          session_cipher [] used
        ≡ returns (sealed, [], bump session_cipher, compress'))
      × (decode_encrypted_bytes_mut crates sealed session_cipher [] used
          ≡ returns (ok (skip_fields f), plain, fitting.0, decompress'))
sealing f (serialized, made, fits) =
    decode-encode crates crates-AreCrates f session_cipher session_cipher
      (record { key_size = refl; prefix_size = refl }) refl serialized made fits [] [] used used

abbrev asks : RfrpFrame
asks = register (entry (codes "127.0.0.1"))

asks-Fits : Fits crates asks
asks-Fits = (_, refl, omega arith)

abbrev request : List ℕ
request = (sealing asks asks-Fits).0

abbrev grants : RfrpFrame
grants = new_reg_ack_frame (entry (codes "127.0.0.1")) true 0

grants-Fits : Fits crates grants
unfolding new_reg_ack_frame
grants-Fits = (_, refl, omega arith)

abbrev acknowledgement : List ℕ
acknowledgement = (sealing grants grants-Fits).0

abbrev client_run : ClientRun.Run
client_run = record {
  client_nonce = replicate 32 1;
  random_prefix = codes "clnt";
  write = done tt;
  read = done (replicate 32 2);
  exchanges = answered acknowledgement ∷ [];
  events = [];
}

run_proxy-Founded_example :
    ClientRun.Founded entries
      (ClientRun.run_proxy crates digest (sample RunningMode.client entries) client_run used)
run_proxy-Founded_example =
    ClientRun.run_proxy-Founded crates crates-AreCrates digest (sample RunningMode.client entries)
      client_run used

abbrev server_run : ServerRun.Run
server_run = record {
  server_nonce = replicate 32 2;
  random_prefix = codes "srvr";
  read = done (replicate 32 1);
  write = done tt;
  events = ServerLoop.payload all_open request ∷ ServerLoop.closed ∷ [];
}

run_proxy-Answers_example :
    (st : ServerRun.Standing) × (ServerRun.run_proxy crates digest (codes "secret") server_run used
      ≡ returns st)
    × ServerRun.IsSoundStanding st
run_proxy-Answers_example =
    ServerRun.run_proxy-Answers crates crates-AreCrates digest (codes "secret") server_run used
