-- ===== src/Server/Loop.antt =====
-- The main loop of rfrp_server/src/run_proxy.rs over the events that it meets, in their order.
use rfrp.Base.{ℕ, List, [], ◌∷◌, Option}
use rfrp.Base.Result.{ok, err}
use rfrp.Crypto.{Cipher}
use rfrp.Compress.{Outcome, returns}
use rfrp.Codec.{Crates, decode_encrypted_bytes_mut, ◌>>=◌}
use rfrp.Server.{Session, ConnSender, Receivers, goes_on, breaks, on_frame, on_task, shut_down}

-- What `reader.next()` and the deadline give, and what other tasks do in between.
pub data Event : Type 0 where
  payload : Receivers → List ℕ → Event  -- a frame of the length-delimited codec
  read_error : Event
  closed : Event
  keepalive_timeout : Event
  task_write : ℕ → ℕ → Option ConnSender → Event

-- The loop waits for its next event, or it has broken off and the session is shut down.
pub data Progress : Type 0 where
  waiting : Session → Progress
  ended : Session → Progress

unfoldable pub finish : Session → Progress
finish s = ended (shut_down s)

module _ (crates : Crates) (cipher : Cipher) where
  unfoldable pub main_loop : List Event → List ℕ → crates.inflate.State → Session → Outcome Progress
  unfolding finish
  main_loop [] decomp_buf decompress s = returns (waiting s)
  main_loop (read_error ∷ es) decomp_buf decompress s = returns (finish s)
  main_loop (closed ∷ es) decomp_buf decompress s = returns (finish s)
  main_loop (keepalive_timeout ∷ es) decomp_buf decompress s = returns (finish s)
  main_loop (task_write i conn_id entry ∷ es) decomp_buf decompress s =
      main_loop es decomp_buf decompress (on_task i conn_id entry s)
  main_loop (payload r bytes ∷ es) decomp_buf decompress s = do
    (frame, _, decomp_buf', decompress') ←
        decode_encrypted_bytes_mut crates bytes cipher decomp_buf decompress
    elim frame [
      | err e ↦ returns (finish s)
      | ok f ↦ elim (on_frame r f s) [
        | breaks s' ↦ returns (finish s')
        | goes_on s' ↦ main_loop es decomp_buf' decompress' s'
      ]
    ]
