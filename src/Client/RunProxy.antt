-- ===== src/Client/RunProxy.antt =====
-- `run_proxy` of rfrp_client/src/run_proxy.rs as a whole: handshake, registration and main loop.
use rfrp.Base.{ℕ, ◌≡◌, refl, List, []}
use mathlib.Core.Path.{subst}
use rfrp.Base.Result.{Result, ok, err}
use rfrp.Config.{ConfigInfo, ClientInfo, get_server, get_client_proxy, get_auth_token}
use rfrp.Crypto.{Cipher}
use rfrp.Compress.{Outcome, returns}
use rfrp.Codec.{Crates, ◌>>=◌}
use rfrp.Codec.Laws.{AreCrates}
use rfrp.Handshake.{Io, HandshakeError, client_handshake}
use rfrp.Client.{start}
use rfrp.Client.Mirrors.{Mirrors}
use rfrp.Client.Tunnel.{Tunnel, start_tunnel}
use rfrp.Client.Links.{start-Mirrors}
use rfrp.Client.Loop.{Event, Progress, main_loop}
use rfrp.Client.Ends.{Relays, session_of, main_loop-Follows}
use rfrp.Client.Registration.{
  Exchange, Phase, Registration, unregistered, registered, gave_up, awaiting, register_all,
}
use rfrp.Client.Registration.Acks.{Grant, infos_of, assigned}
use rfrp.Client.Registration.Answers.{IsPartial, IsComplete, register_all-Answers}

-- What the world does during a session, phase by phase: the random bytes, the handshake's two calls on
-- the socket, the registrations, and the events of the main loop.
pub record Run : Type 0 where
  pub client_nonce : List ℕ
  pub random_prefix : List ℕ
  pub write : Io (Unit {0})
  pub read : Io (List ℕ)
  pub exchanges : List Exchange
  pub events : List Event

-- How far the session has come.
pub data Standing : Type 0 where
  handshake_failed : HandshakeError → Standing
  registration_failed : Registration → Standing
  registering : Registration → Standing
  running : Progress → Standing

module _ (crates : Crates) (sha256 : List ℕ → List ℕ) where
  unfoldable pub run_registered :
      Cipher
      → List ClientInfo
      → List Exchange
      → List Event
      → crates.inflate.State
      → Outcome Standing
  run_registered cipher infos exchanges events decompress = do
    phase ← register_all crates cipher infos exchanges [] decompress unregistered
    elim phase [
      | gave_up s ↦ returns (registration_failed s)
      | awaiting s ↦ returns (registering s)
      | registered s decomp_buf decompress' ↦ do
        p ← main_loop crates cipher events decomp_buf decompress' (start s.proxy_configs)
        returns (running p)
    ]

  -- The last argument is the state of a new `Decompress`.
  unfoldable pub run_proxy : ConfigInfo → Run → crates.inflate.State → Outcome Standing
  unfolding run_registered
  run_proxy config w decompress =
      elim (client_handshake sha256 (get_auth_token (get_server config)) w.client_nonce
        w.random_prefix w.write w.read) [
          | err e ↦ returns (handshake_failed e)
          | ok (cipher, _) ↦
              run_registered cipher (get_client_proxy config) w.exchanges w.events decompress
        ]

-- A session that has come to its main loop has registered every proxy of the configuration under some
-- id, and stands for a tunnel over these; one that is still registering or gave up has stored the first
-- ones.
abbrev pub IsFounded : List ClientInfo → Standing → Type 0
IsFounded infos (handshake_failed e) = Unit
IsFounded infos (registration_failed s) = IsPartial infos unregistered s
IsFounded infos (registering s) = IsPartial infos unregistered s
IsFounded infos (running p) =
    (grants : List Grant) × (t : Tunnel) × (infos_of grants ≡ infos)
    × Relays (start_tunnel (assigned grants unregistered).proxy_configs) t
    × Mirrors (session_of p) t

abbrev pub Founded : List ClientInfo → Outcome Standing → Type 0
Founded infos o = (st : Standing) × (o ≡ returns st) × IsFounded infos st

module _ (crates : Crates) (laws : AreCrates crates) (sha256 : List ℕ → List ℕ) where
  run_registered-Founded :
      (cipher : Cipher) (infos : List ClientInfo) (exchanges : List Exchange) (events : List Event)
      (decompress : crates.inflate.State)
      → Founded infos (run_registered crates sha256 cipher infos exchanges events decompress)
  unfolding run_registered
  run_registered-Founded cipher infos exchanges events decompress =
      let (phase, returned, whole) =
        register_all-Answers crates laws infos exchanges cipher [] decompress unregistered in
      rw (returned, run_registered) (by_phase phase whole)
    where
      by_phase :
          (phase : Phase crates.inflate.State)
          → IsComplete infos unregistered phase
          → Founded infos (elim phase [
            | gave_up s ↦ returns (registration_failed s)
            | awaiting s ↦ returns (registering s)
            | registered s decomp_buf decompress' ↦
                main_loop crates cipher events decomp_buf decompress' (start s.proxy_configs)
                >>= λ p. returns (running p)
          ])
      by_phase (gave_up s) whole = (registration_failed s, refl, whole)
      by_phase (awaiting s) whole = (registering s, refl, whole)
      by_phase (registered s decomp_buf decompress') (grants, same, all) =
          let (p, t, ran, path, m) =
            main_loop-Follows crates laws cipher events decomp_buf decompress'
              (start s.proxy_configs) (start_tunnel s.proxy_configs)
              (start-Mirrors s.proxy_configs) in
          rw ran (
            running p,
            refl,
            (
              grants,
              t,
              same,
              subst (λ (r : Registration). Relays (start_tunnel r.proxy_configs) t) all path,
              m,
            ),
          )

  -- Whatever the server and the network do, and whatever bytes come in, a session of the client
  -- answers: no slice or subtraction of decryption and decompression panics, and no loop runs on, where
  -- every send ends. When it comes to its main loop, every proxy of the configuration has been
  -- registered, and the session stands for a tunnel over these proxies; before that, the first ones
  -- have been stored, in order.
  pub run_proxy-Founded :
      (config : ConfigInfo) (w : Run) (decompress : crates.inflate.State)
      → Founded config.client_proxy (run_proxy crates sha256 config w decompress)
  unfolding run_proxy
  run_proxy-Founded config w decompress = by_cipher (
      client_handshake sha256 config.server_info.auth_token w.client_nonce w.random_prefix w.write
        w.read)
    where
      by_cipher :
          (r : Result HandshakeError (Cipher × List ℕ))
          → Founded config.client_proxy (elim r [
            | err e ↦ returns (handshake_failed e)
            | ok (cipher, _) ↦
                run_registered crates sha256 cipher config.client_proxy w.exchanges w.events
                  decompress
          ])
      by_cipher (err e) = (handshake_failed e, refl, tt)
      by_cipher (ok (cipher, sent)) =
          run_registered-Founded cipher config.client_proxy w.exchanges w.events decompress
