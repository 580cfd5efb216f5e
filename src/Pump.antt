-- ===== src/Pump.antt =====
-- The two tasks of a connection, which move bytes between its socket and the session. The server has
-- them for an external connection (rfrp_proto/src/frame_handle.rs), the client for an internal one
-- (rfrp_client/src/run_proxy.rs), line for line alike but for the log.
pub mod Flush
pub mod Reading
pub mod Payloads
use rfrp.Base.{ℕ, Bool, true, false, List, [], ◌∷◌, ◌++◌, if◌then◌else◌}
use rfrp.Frame.{RfrpFrame, new_data_frame}

-- tokio's `BufWriter` over a write half: its calls, which tell whether they succeeded, and what can be
-- seen of it, the bytes that the socket has taken and those that still wait in the buffer.
pub record BufWriter : Type 1 where
  pub State : Type 0
  pub write_all : State → List ℕ → Bool × State
  pub flush : State → Bool × State
  pub socket : State → List ℕ
  pub buffered : State → List ℕ

-- A payload that the channel gives, and whether the channel is empty once it has been written.
abbrev pub Item : Type 0
Item = List ℕ × Bool

module _ (b : BufWriter) where
  -- One round of the loop: whether it goes on, and the writer afterwards. The result of `flush` is
  -- ignored.
  unfoldable pub write_round : Item → b.State → Bool × b.State
  write_round (bytes, drained) s =
      let (good, s') = b.write_all s bytes in
      if good then (true, if drained then (b.flush s').1 else s') else (false, s')

  -- The loop, when the channel has given these payloads: whether it goes on to wait for more, and the
  -- writer then.
  unfoldable pub write_rounds : List Item → b.State → Bool × b.State
  write_rounds [] s = (true, s)
  write_rounds (item ∷ items) s =
      let (good, s') = write_round item s in
      elim good [ true ↦ write_rounds items s' | false ↦ (false, s') ]

  -- The writer behind the loop and its last flush, when the channel gave these payloads and was closed.
  unfoldable pub write_task : List Item → b.State → b.State
  unfolding write_rounds
  write_task items s = (b.flush (write_rounds items s).1).1

-- What a read of the socket gives, and whether the channel to the session then takes the frame.
pub data Read : Type 0 where
  eof : Read
  read_error : Read
  chunk : List ℕ → Bool → Read

-- How the loop of the read task stands after these reads.
pub data ReadState : Type 0 where
  reading : ReadState
  finished : ReadState

-- The frames that the channel takes from the read task of a connection, in order, and whether the task
-- goes on.
unfoldable pub read_task : ℕ → ℕ → List Read → List RfrpFrame × ReadState
read_task proxy_id conn_id [] = ([], reading)
read_task proxy_id conn_id (eof ∷ reads) = ([], finished)
read_task proxy_id conn_id (read_error ∷ reads) = ([], finished)
read_task proxy_id conn_id (chunk bytes true ∷ reads) =
    let (frames, state) = read_task proxy_id conn_id reads in
    (new_data_frame bytes proxy_id conn_id ∷ frames, state)
read_task proxy_id conn_id (chunk bytes false ∷ reads) = ([], finished)
