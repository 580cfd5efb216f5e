-- ===== src/Site.antt =====
-- A server session together with the tasks of its proxies: rfrp_server/src/run_proxy.rs and
-- rfrp_proto/src/frame_handle.rs, which share the routing tables and `tx_channel`. The main loop and the
-- tasks step in any order.
pub mod Shares
pub mod Invariant
pub mod Senders
pub mod Asked
pub mod Deliveries
pub mod Reads
pub mod Received
use rfrp.Base.{
  ℕ, ◌+◌, ◌*◌, ◌≡◌, Bool, true, false, List, [], ◌∷◌, ◌++◌, Option, none, some, get_elem?,
}
use rfrp.Base.Dict.{write_at}
use rfrp.Frame.{RfrpFrame, new_data_frame}
use rfrp.Server
use rfrp.Server.{Session, ConnSender, ProxyTask, Receivers, goes_on, on_frame, on_task}
use rfrp.Proxy
use rfrp.Proxy.{Listener, handle_reg_frame, accepted, granted, read, closed}

-- How far the task of a proxy is.
pub data TaskState : Type 0 where
  spawned : TaskState
  refused : TaskState
  listening : Listener → TaskState

pub record Site : Type 0 where
  pub session : Session
  pub tasks : ℕ → TaskState

abbrev pub start : Site
start = record { session = Server.start; tasks = λ p. spawned }

-- The senders of all proxies under one numbering: channel `k` of proxy `p`, of which there are 16.
abbrev pub sender_of : ℕ → ℕ → ConnSender
sender_of p k = 16 * k + p

-- A task puts frames into the channel that it shares with the main loop.
abbrev pub sends : List RfrpFrame → Session → Session
sends frames s = record s { sent = s.sent ++ frames }

abbrev pub begun : Option Listener → TaskState
begun none = refused
begun (some l) = listening l

-- A spawned task up to its accept loop, or to its end.
abbrev pub on_spawned : (ℕ → Bool) → Bool → ProxyTask → ℕ → Site → Site
on_spawned binds tx_open t p x =
    let (frames, listener) = handle_reg_frame binds tx_open t.client_info t.proxy_id in
    record { session = sends frames x.session; tasks = write_at p (begun listener) x.tasks }

-- What a step of the listener of a proxy does to what it shares with the session.
abbrev pub share : ℕ → {l m : Listener} → Proxy.Step l m → Session → Session
share p (accepted l e) s = on_task p l.next_conn_id (some (sender_of p l.channels)) s
share p (granted l c n w e) s = s
share p (read l true c bytes h) s = sends (new_data_frame bytes l.proxy_id c ∷ []) s
share p (read l false c bytes h) s = on_task p c none s
share p (closed l c h) s = on_task p c none s

-- One step of the main loop or of a task.
pub data Step : Site → Site → Type 0 where
  framed :
      (r : Receivers) (f : RfrpFrame) (x : Site) (s : Session)
      → on_frame r f x.session ≡ goes_on s
      → Step x (record x { session = s })
  began :
      (binds : ℕ → Bool) (tx_open : Bool) (p : ℕ) (t : ProxyTask) (x : Site)
      → get_elem? x.session.proxy_tasks p ≡ some t
      → x.tasks p ≡ spawned
      → Step x (on_spawned binds tx_open t p x)
  served :
      (p : ℕ) {l m : Listener} (st : Proxy.Step l m) (x : Site)
      → x.tasks p ≡ listening l
      → Step x (record { session = share p st x.session; tasks = write_at p (listening m) x.tasks })

-- What the server can come to in a number of steps.
pub data Reach : ℕ → Site → Type 0 where
  here : Reach 0 start
  next : {n : ℕ} {x y : Site} → Reach n x → Step x y → Reach (n + 1) y
