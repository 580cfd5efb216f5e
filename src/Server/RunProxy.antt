-- ===== src/Server/RunProxy.antt =====
-- `run_proxy` of rfrp_server/src/run_proxy.rs as a whole: handshake and main loop.
use rfrp.Base.{ℕ, ◌≡◌, refl, List, []}
use rfrp.Base.Result.{Result, ok, err}
use rfrp.Crypto.{Cipher}
use rfrp.Compress.{Outcome, returns}
use rfrp.Codec.{Crates, ◌>>=◌}
use rfrp.Codec.Laws.{AreCrates}
use rfrp.Handshake.{Io, HandshakeError, server_handshake}
use rfrp.Server.{start}
use rfrp.Server.Invariant.{start-IsCoherent}
use rfrp.Server.Loop.{Event, Progress, main_loop}
use rfrp.Server.Ends.{IsSound, main_loop-Answers}

-- What the world does during a session: the random bytes, the handshake's two calls on the socket, and
-- the events of the main loop.
pub record Run : Type 0 where
  pub server_nonce : List ℕ
  pub random_prefix : List ℕ
  pub read : Io (List ℕ)
  pub write : Io (Unit {0})
  pub events : List Event

pub data Standing : Type 0 where
  handshake_failed : HandshakeError → Standing
  running : Progress → Standing

module _ (crates : Crates) (sha256 : List ℕ → List ℕ) where
  -- The last argument is the state of a new `Decompress`.
  unfoldable pub run_proxy : List ℕ → Run → crates.inflate.State → Outcome Standing
  run_proxy auth_token w decompress =
      elim (server_handshake sha256 auth_token w.server_nonce w.random_prefix w.read w.write) [
        | err e ↦ returns (handshake_failed e)
        | ok (cipher, _) ↦ do
          p ← main_loop crates cipher w.events [] decompress start
          returns (running p)
      ]

abbrev pub IsSoundStanding : Standing → Type 0
IsSoundStanding (handshake_failed e) = Unit
IsSoundStanding (running p) = IsSound p

module _ (crates : Crates) (laws : AreCrates crates) (sha256 : List ℕ → List ℕ) where
  -- Whatever a client does, whoever it is, and whatever bytes it sends, its session on the server
  -- answers: no slice or subtraction of decryption and decompression panics, and no loop runs on, where
  -- every send ends. A failed handshake ends it; else it waits in a coherent session, or has ended with
  -- the task of every registered proxy aborted, at most 16, and no route left.
  pub run_proxy-Answers :
      (auth_token : List ℕ) (w : Run) (decompress : crates.inflate.State)
      → (st : Standing) × (run_proxy crates sha256 auth_token w decompress ≡ returns st)
        × IsSoundStanding st
  unfolding run_proxy
  run_proxy-Answers auth_token w decompress =
      by_cipher (server_handshake sha256 auth_token w.server_nonce w.random_prefix w.read w.write)
    where
      by_cipher :
          (r : Result HandshakeError (Cipher × List ℕ))
          → let o : Outcome Standing = elim r [
            | err e ↦ returns (handshake_failed e)
            | ok (cipher, _) ↦
                main_loop crates cipher w.events [] decompress start >>= λ p. returns (running p)
          ] in
            (st : Standing) × (o ≡ returns st) × IsSoundStanding st
      by_cipher (err e) = (handshake_failed e, refl, tt)
      by_cipher (ok (cipher, sent)) =
          let (p, ran, sound) =
            main_loop-Answers crates laws cipher w.events [] decompress start start-IsCoherent in
          rw ran (running p, refl, sound)
