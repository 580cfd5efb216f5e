-- ===== src/Runs/Handshake.antt =====
-- Two sides that shake hands, and the theorem on them.
use rfrp.Base.{ℕ, ◌≡◌, refl, List, replicate}
use rfrp.Base.Bytes.{codes}
use rfrp.Base.Result.{ok}
use rfrp.Crypto.{Cipher}
use rfrp.Handshake.{done, client_handshake, server_handshake}
use rfrp.Handshake.Agreement.{Arrives, handshake-Arrives}
use rfrp.Runs.StandIns.{crates, crates-AreCrates}
use rfrp.Runs.Crypto.{used}
use rfrp.Runs.WriteTask.{items, items-AllFit}

-- A digest of the right size.
abbrev digest : List ℕ → List ℕ
digest x = replicate 32 9

abbrev client_nonce : List ℕ
client_nonce = replicate 32 1

abbrev server_nonce : List ℕ
server_nonce = replicate 32 2

handshake-Arrives_example :
    (c d : Cipher) × (client_handshake digest
        (codes "secret")
        client_nonce
        (codes "clnt")
        (done tt)
        (done server_nonce)
      ≡ ok (c, client_nonce))
    × (server_handshake digest
          (codes "secret")
          server_nonce
          (codes "srvr")
          (done client_nonce)
          (done tt)
        ≡ ok (d, server_nonce))
    × Arrives crates items c d used used
    × Arrives crates items d c used used
handshake-Arrives_example =
    handshake-Arrives digest (λ x. refl) (codes "secret") client_nonce server_nonce (codes "clnt")
      (codes "srvr") refl refl crates crates-AreCrates items items items-AllFit items-AllFit used
      used
