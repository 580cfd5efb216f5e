-- ===== src/Client/Loop.antt =====
-- The main loop of rfrp_client/src/run_proxy.rs over the events that it meets, in their order.
use rfrp.Base.{ℕ, List, [], ◌∷◌}
use rfrp.Base.Result.{ok, err}
use rfrp.Crypto.{Cipher}
use rfrp.Compress.{Outcome, returns}
use rfrp.Codec.{Crates, decode_encrypted_bytes_mut, ◌>>=◌}
use rfrp.Client.{Session, World, on_frame, on_read_end}

-- What `reader.next()` and the deadline give, and the end of a read task in between.
pub data Event : Type 0 where
  payload : World → List ℕ → Event  -- a frame of the length-delimited codec
  read_error : Event
  closed : Event
  keepalive_timeout : Event
  service_ended : ℕ → ℕ → Event

-- The loop waits for its next event, or it has broken off, which aborts the write and the ping task.
pub data Progress : Type 0 where
  waiting : Session → Progress
  ended : Session → Progress

module _ (crates : Crates) (cipher : Cipher) where
  unfoldable pub main_loop : List Event → List ℕ → crates.inflate.State → Session → Outcome Progress
  main_loop [] decomp_buf decompress s = returns (waiting s)
  main_loop (read_error ∷ es) decomp_buf decompress s = returns (ended s)
  main_loop (closed ∷ es) decomp_buf decompress s = returns (ended s)
  main_loop (keepalive_timeout ∷ es) decomp_buf decompress s = returns (ended s)
  main_loop (service_ended p c ∷ es) decomp_buf decompress s =
      main_loop es decomp_buf decompress (on_read_end p c s)
  main_loop (payload w bytes ∷ es) decomp_buf decompress s = do
    (frame, _, decomp_buf', decompress') ←
        decode_encrypted_bytes_mut crates bytes cipher decomp_buf decompress
    elim frame [
      | err e ↦ returns (ended s)
      | ok f ↦ main_loop es decomp_buf' decompress' (on_frame w f s)
    ]
