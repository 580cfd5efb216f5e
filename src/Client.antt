-- ===== src/Client.antt =====
-- rfrp_client/src/run_proxy.rs, behind registration: the data that the server sends goes to connections
-- to internal services, which are opened on demand.
-- A sender of a channel is a number. A map of connections is an object in a store, named by its address.
pub mod Tunnel
pub mod Mirrors
pub mod Links
pub mod Loop
pub mod Ends
pub mod Registration
pub mod Site
pub mod RunProxy
pub mod Reconnect
use rfrp.Base.{
  ℕ, ◌+◌, Bool, true, false, List, [], ◌∷◌, ◌++◌, Option, none, some, ◌==◌, bytes_eq, if◌then◌else◌,
}
use rfrp.Base.Dict.{Dict, empty, insert, remove, write_at}
use rfrp.Config.{Text, ClientInfo, ControlInfo, DataInfo, client_getter, get_addr}
use rfrp.Frame.{RfrpFrame, register, register_ack, control, data_frame}

-- `InternalConnSender`
abbrev pub ConnSender : Type 0
ConnSender = ℕ

-- The address of a map from connection ids to senders.
abbrev pub ConnsAddr : Type 0
ConnsAddr = ℕ

-- A connection to an internal service, with its read and its write task.
pub record InternalConn : Type 0 where
  pub sender : ConnSender
  pub addr : Text
  pub conn_id : ℕ
  pub proxy_id : ℕ

pub record Session : Type 0 where
  pub proxy_configs : Dict ClientInfo
  pub conn_maps : ConnsAddr → Dict ConnSender
  pub allocated : ℕ  -- maps made so far
  pub proxy_conns : Dict ConnsAddr
  pub cached_conns : Option (ℕ × ConnsAddr)
  pub channels : ℕ  -- channels made so far
  pub opened : List InternalConn
  pub forwarded : List (ConnSender × List ℕ)  -- what the senders took, in order

-- The session behind the registration.
abbrev pub start : Dict ClientInfo → Session
start proxy_configs = record {
  proxy_configs = proxy_configs;
  conn_maps = λ a. empty;
  allocated = 0;
  proxy_conns = empty;
  cached_conns = none;
  channels = 0;
  opened = [];
  forwarded = [];
}

-- What the world does while one data frame is handled: whether the internal service accepts a
-- connection, which connections' read tasks end while the client waits for that, and whether the write
-- task behind a sender is still there.
pub record World : Type 0 where
  pub accepts : Text → Bool
  pub ended : List (ℕ × ℕ)
  pub conn_open : ConnSender → Bool

-- `conns_cleanup.remove(&cid)` at the end of a read task: the task's map is that of its proxy.
unfoldable pub on_read_end : ℕ → ℕ → Session → Session
on_read_end proxy_id conn_id s = elim (s.proxy_conns proxy_id) [
  | none ↦ s
  | some a ↦ record s { conn_maps = write_at a (remove conn_id (s.conn_maps a)) s.conn_maps }
]

unfoldable pub on_read_ends : List (ℕ × ℕ) → Session → Session
on_read_ends [] s = s
on_read_ends ((p, c) ∷ ends) s = on_read_ends ends (on_read_end p c s)

-- The map of a proxy: from the cache, or from the map of maps, where it may have to be made.
unfoldable pub find_conns : ℕ → Session → ConnsAddr × Session
find_conns proxy_id s =
    let looked_up : ConnsAddr × Session = elim (s.proxy_conns proxy_id) [
      | some a ↦ (a, record s { cached_conns = some (proxy_id, a) })
      | none ↦ (
        s.allocated,
        record s {
          conn_maps = write_at s.allocated empty s.conn_maps;
          allocated = s.allocated + 1;
          proxy_conns = insert proxy_id s.allocated s.proxy_conns;
          cached_conns = some (proxy_id, s.allocated);
        },
      )
    ] in
    elim s.cached_conns [
      | none ↦ looked_up
      | some (id, a) ↦ if id == proxy_id then (a, s) else looked_up
    ]

-- The slow path behind a successful connect: a channel is made, and its sender entered if there is
-- none by then.
unfoldable pub enter_conn : ConnsAddr → ℕ → ClientInfo → ℕ → Session → Option ConnSender × Session
enter_conn conns conn_id client_info proxy_id s = elim (s.conn_maps conns conn_id) [
  | some existing ↦ (some existing, record s { channels = s.channels + 1 })
  | none ↦ (
    some s.channels,
    record s {
      channels = s.channels + 1;
      conn_maps = write_at conns (insert conn_id s.channels (s.conn_maps conns)) s.conn_maps;
      opened =
          s.opened
          ++ (record {
            sender = s.channels;
            addr = get_addr client_info;
            conn_id = conn_id;
            proxy_id = proxy_id;
          }
              ∷ []);
    },
  )
]

unfoldable pub get_or_create_internal_conn :
    World → ConnsAddr → ℕ → ClientInfo → ℕ → Session → Option ConnSender × Session
unfolding enter_conn on_read_ends
get_or_create_internal_conn w conns conn_id client_info proxy_id s =
    elim (s.conn_maps conns conn_id) [
      | some sender ↦ (some sender, s)
      | none ↦
          let s' = on_read_ends w.ended s in
          if w.accepts (get_addr client_info)
          then enter_conn conns conn_id client_info proxy_id s'
          else (none, s')
    ]

-- `sender.send(data).await`, and the removal of a connection that is gone. The send waits while the
-- channel is full: this is the state once it ends. What other tasks do meanwhile comes behind it.
unfoldable pub forward : World → ConnsAddr → ℕ → Option ConnSender → List ℕ → Session → Session
forward w conns conn_id none payload s = s
forward w conns conn_id (some sender) payload s =
    if w.conn_open sender
    then record s { forwarded = s.forwarded ++ ((sender, payload) ∷ []) }
    else record s { conn_maps = write_at conns (remove conn_id (s.conn_maps conns)) s.conn_maps }

-- The arm of `RfrpFrame::Data`.
unfoldable pub on_data : World → DataInfo → Session → Session
unfolding find_conns get_or_create_internal_conn forward
on_data w d s = elim (s.proxy_configs d.proxy_id) [
  | none ↦ s
  | some client_info ↦
      let (conns, s') = find_conns d.proxy_id s in
      let (sender, s'') = get_or_create_internal_conn w conns d.conn_id client_info d.proxy_id s' in
      forward w conns d.conn_id sender d.payload s''
]

-- The `match` of the main loop: no frame ends it.
unfoldable pub on_frame : World → RfrpFrame → Session → Session
on_frame w (data_frame d) s = on_data w d s
on_frame w (control c) s = s
on_frame w (register c) s = s
on_frame w (register_ack r) s = s
