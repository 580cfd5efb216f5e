-- ===== src/Client/Site.antt =====
-- A session of the client behind its registration, together with the read tasks of its connections and
-- its heartbeat (rfrp_client/src/run_proxy.rs), which share the maps of connections and `tx_to_server`.
-- The main loop and the tasks step in any order.
-- A frame is one step; `Client.Site.Atomic` is about what the tasks do while it is handled.
pub mod Readers
pub mod Atomic
pub mod Owned
pub mod Streamed
pub mod Invariant
pub mod Given
pub mod Reads
pub mod Prompted
pub mod Stale
use rfrp.Base.{
  ℕ, ◌+◌, ◌≡◌, Bool, true, false, ◌&&◌, List, [], ◌∷◌, ◌++◌, ◌==◌, if◌then◌else◌, length, drop,
}
use rfrp.Base.Dict.{Dict}
use rfrp.Config.{Text, ClientInfo}
use rfrp.Frame.{RfrpFrame, new_data_frame, new_ping_frame}
use rfrp.Client
use rfrp.Client.{Session, World, InternalConn, ConnSender, on_frame, on_read_end}

pub record Site : Type 0 where
  pub session : Session
  pub readers : List InternalConn  -- the connections whose read tasks run
  pub sent : List RfrpFrame  -- what `tx_to_server` took behind the registration, in order

abbrev pub start : Dict ClientInfo → Site
start configs = record { session = Client.start configs; readers = []; sent = [] }

-- Whether the read task runs that was spawned with this sender, for this connection of this proxy.
unfoldable pub reads_for : ConnSender → ℕ → ℕ → List InternalConn → Bool
reads_for k p c [] = false
reads_for k p c (r ∷ rs) =
    if (r.sender == k) && ((r.proxy_id == p) && (r.conn_id == c)) then true else reads_for k p c rs

-- The read tasks but that of this sender.
unfoldable pub leave : ConnSender → List InternalConn → List InternalConn
leave k [] = []
leave k (r ∷ rs) = let rest = leave k rs in if r.sender == k then rest else r ∷ rest

-- The world during a frame, in which no read task ends.
abbrev pub meanwhile : (Text → Bool) → (ConnSender → Bool) → World
meanwhile accepts conn_open = record { accepts = accepts; ended = []; conn_open = conn_open }

-- A frame spawns a read task for the connection that it opens, if it does.
unfoldable pub on_frame_spawned : (Text → Bool) → (ConnSender → Bool) → RfrpFrame → Site → Site
on_frame_spawned accepts conn_open f x =
    let s = on_frame (meanwhile accepts conn_open) f x.session in
    record x { session = s; readers = x.readers ++ drop (length x.session.opened) s.opened }

-- A read task behind its loop.
unfoldable pub on_end : ConnSender → ℕ → ℕ → Site → Site
on_end k p c x = record x { session = on_read_end p c x.session; readers = leave k x.readers }

abbrev pub sends : RfrpFrame → Site → Site
sends f x = record x { sent = x.sent ++ (f ∷ []) }

-- A read that gave data, by whether the channel to the server is open.
unfoldable pub on_read : Bool → ConnSender → ℕ → ℕ → List ℕ → Site → Site
unfolding on_end
on_read true k p c bytes x = sends (new_data_frame bytes p c) x
on_read false k p c bytes x = on_end k p c x

-- One step of the main loop, a read task or the heartbeat.
pub data Step : Site → Site → Type 0 where
  framed :
      (accepts : Text → Bool) (conn_open : ConnSender → Bool) (f : RfrpFrame) (x : Site)
      → Step x (on_frame_spawned accepts conn_open f x)
  read :
      (tx_open : Bool) (k p c : ℕ) (bytes : List ℕ) (x : Site)
      → reads_for k p c x.readers ≡ true
      → Step x (on_read tx_open k p c bytes x)
  closed : (k p c : ℕ) (x : Site) → reads_for k p c x.readers ≡ true → Step x (on_end k p c x)
  pinged : (x : Site) → Step x (sends new_ping_frame x)

-- What the client can come to.
pub data Reach (configs : Dict ClientInfo) : Site → Type 0 where
  here : Reach configs (start configs)
  next : {x y : Site} → Reach configs x → Step x y → Reach configs y
