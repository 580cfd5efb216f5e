-- ===== src/Client/Registration.antt =====
-- rfrp_client/src/run_proxy.rs: the first phase of a session, in which each proxy of the configuration
-- is registered with the server.
pub mod Acks
pub mod Answers
pub mod Lookup
use rfrp.Base.{ℕ, Bool, true, false, List, [], ◌∷◌, ◌++◌, Option, none, some, if◌then◌else◌}
use rfrp.Base.Dict.{Dict, empty, insert}
use rfrp.Base.Result.{ok, err}
use rfrp.Config.{ClientInfo}
use rfrp.Frame.{RfrpFrame, register, register_ack, control, data_frame}
use rfrp.Crypto.{Cipher}
use rfrp.Compress.{Outcome, returns}
use rfrp.Codec.{Crates, decode_encrypted_bytes_mut, ◌>>=◌}

-- How one registration goes: the write task is gone, or it takes the frame and then the reader gives
-- something, or the timeout does.
pub data Exchange : Type 0 where
  send_failed : Exchange
  read_error : Exchange
  closed : Exchange
  keepalive_timeout : Exchange
  answered : List ℕ → Exchange  -- a payload of the length-delimited codec

pub record Registration : Type 0 where
  pub proxy_configs : Dict ClientInfo
  pub sent : List RfrpFrame  -- what `tx_to_server` took, in order

abbrev pub unregistered : Registration
unregistered = record { proxy_configs = empty; sent = [] }

-- The phase is over, with the buffer and the decompressor that the main loop goes on with; or the
-- session is; or an exchange is still to come.
pub data Phase (State : Type 0) : Type 0 where
  registered : Registration → List ℕ → State → Phase State
  gave_up : Registration → Phase State
  awaiting : Registration → Phase State

unfoldable pub send_register : ClientInfo → Registration → Registration
send_register client_info s = record s { sent = s.sent ++ (register client_info ∷ []) }

-- The arms on a frame that was decoded: `none` gives up. The client's own entry is stored, with the
-- address that the server does not know.
unfoldable pub on_reply : ClientInfo → RfrpFrame → Registration → Option Registration
on_reply client_info (register_ack r) s =
    if r.success
    then some (record s { proxy_configs = insert r.proxy_id client_info s.proxy_configs })
    else none
on_reply client_info (register c) s = none
on_reply client_info (control c) s = none
on_reply client_info (data_frame d) s = none

module _ (crates : Crates) (cipher : Cipher) where
  unfoldable pub register_all :
      List ClientInfo
      → List Exchange
      → List ℕ
      → crates.inflate.State
      → Registration
      → Outcome (Phase crates.inflate.State)
  unfolding send_register
  register_all [] xs decomp_buf decompress s = returns (registered s decomp_buf decompress)
  register_all (info ∷ infos) [] decomp_buf decompress s = returns (awaiting s)
  register_all (info ∷ infos) (send_failed ∷ xs) decomp_buf decompress s = returns (gave_up s)
  register_all (info ∷ infos) (read_error ∷ xs) decomp_buf decompress s =
      returns (gave_up (send_register info s))
  register_all (info ∷ infos) (closed ∷ xs) decomp_buf decompress s =
      returns (gave_up (send_register info s))
  register_all (info ∷ infos) (keepalive_timeout ∷ xs) decomp_buf decompress s =
      returns (gave_up (send_register info s))
  register_all (info ∷ infos) (answered bytes ∷ xs) decomp_buf decompress s = do
    (frame, _, decomp_buf', decompress') ←
        decode_encrypted_bytes_mut crates bytes cipher decomp_buf decompress
    elim frame [
      | err e ↦ returns (gave_up (send_register info s))
      | ok f ↦ elim (on_reply info f (send_register info s)) [
        | none ↦ returns (gave_up (send_register info s))
        | some s' ↦ register_all infos xs decomp_buf' decompress' s'
      ]
    ]
