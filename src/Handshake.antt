-- ===== src/Handshake.antt =====
-- rfrp_proto/src/handshake.rs: the exchange of nonces by which both sides derive a session key.
-- The socket, the clock and the random generator are not the repository's: what they gave is an
-- argument.
pub mod Agreement
use rfrp.Base.{ℕ, List, []}
use rfrp.Base.Result.{Result, ok, err}
use rfrp.Crypto.{Cipher, derive_session_key, new}

-- How a call on the socket goes, under its timeout of ten seconds.
pub data Io {ℓ} (A : Type ℓ) : Type ℓ where
  done : A → Io A
  timed_out : Io A
  failed : Io A

-- The messages, one constructor for each; the two sides word them alike but for the nonce that is read
-- or sent.
pub data HandshakeError : Type 0 where
  waiting_timed_out : HandshakeError
  reading_failed : HandshakeError
  sending_timed_out : HandshakeError
  sending_failed : HandshakeError

-- `read_exact` of a nonce.
unfoldable pub read_nonce : Io (List ℕ) → Result HandshakeError (List ℕ)
read_nonce (done nonce) = ok nonce
read_nonce timed_out = err waiting_timed_out
read_nonce failed = err reading_failed

-- `write_all` of a nonce.
unfoldable pub write_nonce : Io (Unit {0}) → List ℕ → Result HandshakeError (List ℕ)
write_nonce (done _) nonce = ok nonce
write_nonce timed_out nonce = err sending_timed_out
write_nonce failed nonce = err sending_failed

module _ (sha256 : List ℕ → List ℕ) (auth_token : List ℕ) where
  -- The first argument is the server's random nonce, the second the random prefix of its cipher. The
  -- result is the cipher, with the nonce that the server has sent.
  unfoldable pub server_handshake :
      (server_nonce random_prefix : List ℕ)
      → (read : Io (List ℕ)) (write : Io (Unit {0})) → Result HandshakeError (Cipher × List ℕ)
  unfolding read_nonce write_nonce
  server_handshake server_nonce random_prefix read write = elim (read_nonce read) [
    | err e ↦ err e
    | ok client_nonce ↦ elim (write_nonce write server_nonce) [
      | err e ↦ err e
      | ok sent ↦
          ok (
            new (derive_session_key sha256 auth_token client_nonce server_nonce) random_prefix,
            sent,
          )
    ]
  ]

  unfoldable pub client_handshake :
      (client_nonce random_prefix : List ℕ)
      → (write : Io (Unit {0})) (read : Io (List ℕ)) → Result HandshakeError (Cipher × List ℕ)
  unfolding read_nonce write_nonce
  client_handshake client_nonce random_prefix write read = elim (write_nonce write client_nonce) [
    | err e ↦ err e
    | ok sent ↦ elim (read_nonce read) [
      | err e ↦ err e
      | ok server_nonce ↦
          ok (
            new (derive_session_key sha256 auth_token client_nonce server_nonce) random_prefix,
            sent,
          )
    ]
  ]
