-- ===== src/Proxy.antt =====
-- rfrp_proto/src/frame_handle.rs: the listener of a proxy on the server, which accepts external
-- connections and runs a read task for each.
-- The routing table is the one that the session shares; here only the listener's own writes to it are
-- seen, and no other part writes to it. The end of a read task, which removes its entry and then gives
-- its permit back, is one step: no code reads both.
pub mod Tasks
pub mod Live
pub mod Reads
pub mod Progress
use rfrp.Base.{
  ℕ, ◌+◌, ◌%◌, ◌^◌, ◌≤◌, ◌≡◌, Bool, true, false, List, [], ◌∷◌, ◌++◌, Option, none, some, ltb, ◌==◌,
  if◌then◌else◌,
}
use rfrp.Base.Dict.{Dict, empty, insert, remove}
use rfrp.Config.{ClientInfo, get_bind_port}
use rfrp.Frame.{RfrpFrame, new_data_frame, new_reg_ack_frame}
use rfrp.Server.{ConnSender}

abbrev pub max_concurrent_external_conns : ℕ
max_concurrent_external_conns = 1024

-- The accept loop and the tasks that it has spawned.
pub record Listener : Type 0 where
  pub proxy_id : ℕ
  pub next_conn_id : ℕ  -- u64
  pub routing : Dict ConnSender
  pub channels : ℕ  -- channels made so far, so also the next sender
  pub permits : ℕ
  pub waiting : Option ℕ  -- the connection for which the loop awaits a permit
  pub readers : List ℕ  -- the connections whose read tasks run
  pub sent : List RfrpFrame  -- what `tx_channel` took from the read tasks, in order

-- The state at the top of the loop.
abbrev pub listen : ℕ → Listener
listen proxy_id = record {
  proxy_id = proxy_id;
  next_conn_id = 0;
  routing = empty;
  channels = 0;
  permits = max_concurrent_external_conns;
  waiting = none;
  readers = [];
  sent = [];
}

-- `tx_channel.send(frame).await`, by whether the channel is open.
unfoldable pub send : Bool → RfrpFrame → List RfrpFrame
send true frame = frame ∷ []
send false frame = []

-- The frames that `handle_reg_frame` sends before its loop, and the loop if it comes to that. The first
-- argument tells whether a port of 0.0.0.0 can be bound.
unfoldable pub handle_reg_frame :
    (ℕ → Bool) → Bool → ClientInfo → ℕ → List RfrpFrame × Option Listener
unfolding send
handle_reg_frame binds tx_open client_info proxy_id =
    if ltb (get_bind_port client_info) 1024
    then (send tx_open (new_reg_ack_frame client_info false 0), none)
    else if binds (get_bind_port client_info)
    then (send tx_open (new_reg_ack_frame client_info true proxy_id), some (listen proxy_id))
    else (send tx_open (new_reg_ack_frame client_info false 0), none)

-- The body of the loop up to its wait for a permit. The permits' semaphore is never closed.
unfoldable pub on_accept : Listener → Listener
on_accept l = record l {
  next_conn_id = (l.next_conn_id + 1) % 2 ^ 64;
  routing = insert l.next_conn_id l.channels l.routing;
  channels = l.channels + 1;
  waiting = some l.next_conn_id;
}

-- The rest of the body: the permit goes to a new read task.
unfoldable pub on_permit : ℕ → ℕ → Listener → Listener
on_permit conn_id permits l = record l {
  permits = permits;
  waiting = none;
  readers = conn_id ∷ l.readers;
}

-- Whether the read task of a connection runs.
unfoldable pub runs : ℕ → List ℕ → Bool
runs c [] = false
runs c (d ∷ ds) = if c == d then true else runs c ds

unfoldable pub leave : ℕ → List ℕ → List ℕ
leave c [] = []
leave c (d ∷ ds) = let rest = leave c ds in if c == d then rest else d ∷ rest

-- A read task behind its loop.
unfoldable pub on_reader_end : ℕ → Listener → Listener
on_reader_end conn_id l = record l {
  routing = remove conn_id l.routing;
  readers = leave conn_id l.readers;
  permits = l.permits + 1;
}

-- A read that gave data, by whether the channel to the client is open.
unfoldable pub on_read : Bool → ℕ → List ℕ → Listener → Listener
unfolding on_reader_end
on_read tx_open conn_id bytes l =
    if tx_open
    then record l { sent = l.sent ++ (new_data_frame bytes l.proxy_id conn_id ∷ []) }
    else on_reader_end conn_id l

-- One step of the loop or of a read task, in any interleaving. A failed `accept` changes nothing, and
-- neither do the write tasks.
pub data Step : Listener → Listener → Type 0 where
  accepted : (l : Listener) → l.waiting ≡ none → Step l (on_accept l)
  granted :
      (l : Listener) (c n : ℕ) → l.waiting ≡ some c → l.permits ≡ n + 1 → Step l (on_permit c n l)
  read :
      (l : Listener) (tx_open : Bool) (c : ℕ) (bytes : List ℕ)
      → runs c l.readers ≡ true
      → Step l (on_read tx_open c bytes l)
  closed : (l : Listener) (c : ℕ) → runs c l.readers ≡ true → Step l (on_reader_end c l)

-- What a listener can come to in a number of steps.
pub data Reach (start : Listener) : ℕ → Listener → Type 0 where
  here : Reach start 0 start
  next : {n : ℕ} {l m : Listener} → Reach start n l → Step l m → Reach start (n + 1) m
