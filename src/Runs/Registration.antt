-- ===== src/Runs/Registration.antt =====
-- A client that registers two proxies, and the theorems on it.
use rfrp.Base.{◌≡◌, ℕ, map, refl, some, arith, List, [], ◌∷◌}
use rfrp.Base.Bytes.{codes}
use rfrp.Frame.{new_reg_ack_frame}
use rfrp.Config.{ClientInfo}
use rfrp.WriteTask.{write_loop}
use rfrp.Compress.{returns}
use rfrp.Runs.StandIns.Copy.{Totals}
use rfrp.WriteTask.Wire.{AllFit}
use rfrp.Client.Registration.{Registration, registered, answered, unregistered, register_all}
use rfrp.Client.Registration.Acks.{infos_of, Grant, acks}
use rfrp.Client.Registration.Answers.{Answers, register_all-Answers}
use rfrp.Client.Registration.Lookup.{register_all-lookup}
use rfrp.Proxy.{runs}
use rfrp.Runs.StandIns.{crates, crates-AreCrates}
use rfrp.Runs.Crypto.{client_cipher, server_cipher, client_cipher-IsCipher, used}
use rfrp.Runs.Config.{entry}

abbrev two_grants : List Grant
two_grants = (entry (codes "127.0.0.1"), 0) ∷ (entry (codes "::1"), 1) ∷ []

two_grants-AllFit : AllFit crates (acks two_grants)
unfolding new_reg_ack_frame
two_grants-AllFit = ((_, refl, omega arith), ((_, refl, omega arith), tt))

abbrev entries : List ClientInfo
entries = entry (codes "127.0.0.1") ∷ entry (codes "::1") ∷ []

-- The server's acknowledgements on the wire, and what the client makes of them.
acked :
    (wire : List (List ℕ)) × (s : Registration) × (decomp_buf : List ℕ) × (decompress : Totals)
    × (write_loop crates (acks two_grants) client_cipher [] used ≡ returns wire)
    × (register_all crates server_cipher
          (infos_of two_grants)
          (map answered wire)
          []
          used
          unregistered
        ≡ returns (registered s decomp_buf decompress))
    × (s.proxy_configs 0 ≡ some (entry (codes "127.0.0.1")))
unfolding runs
acked =
    register_all-lookup crates crates-AreCrates two_grants client_cipher server_cipher
      client_cipher-IsCipher refl two_grants-AllFit (refl, (refl, tt)) used used 0
      (entry (codes "127.0.0.1")) 0 refl

register_all-Answers_example :
    Answers entries unregistered
      (register_all crates server_cipher entries (map answered acked.0) [] used unregistered)
register_all-Answers_example =
    register_all-Answers crates crates-AreCrates entries (map answered acked.0) server_cipher []
      used unregistered

register_all-lookup_example :
    (wire : List (List ℕ)) × (s : Registration) × (decomp_buf : List ℕ) × (decompress : Totals)
    × (write_loop crates (acks two_grants) client_cipher [] used ≡ returns wire)
    × (register_all crates server_cipher
          (infos_of two_grants)
          (map answered wire)
          []
          used
          unregistered
        ≡ returns (registered s decomp_buf decompress))
    × (s.proxy_configs 1 ≡ some (entry (codes "::1")))
unfolding runs
register_all-lookup_example =
    register_all-lookup crates crates-AreCrates two_grants client_cipher server_cipher
      client_cipher-IsCipher refl two_grants-AllFit (refl, (refl, tt)) used used 1
      (entry (codes "::1")) 1 refl
