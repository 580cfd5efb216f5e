-- ===== src/Server.antt =====
-- rfrp_server/src/run_proxy.rs: a session with one client, behind the handshake.
-- A sender of a channel is a number. A routing table is an object in a store, named by its address:
-- the map of proxies, the cache and the spawned tasks hold addresses, as the source holds `Arc`s.
pub mod Loop
pub mod Invariant
pub mod Service
pub mod Lookup
pub mod Routes
pub mod Tasks
pub mod Ends
pub mod RunProxy
use rfrp.Base.{
  ℕ, ◌+◌, ◌%◌, ◌^◌, Bool, true, false, List, [], ◌∷◌, ◌++◌, Option, none, some, leb, ◌==◌, bytes_eq,
  if◌then◌else◌, length, get_elem?,
}
use rfrp.Base.Dict.{Dict, empty, insert, write_at}
use rfrp.Config.{ClientInfo, ControlInfo, DataInfo}
use rfrp.Frame.{
  RfrpFrame, register, register_ack, control, data_frame, new_reg_ack_frame, new_pong_frame,
  ping_command, pong_command,
}

-- `mpsc::Sender<Bytes>`
abbrev pub ConnSender : Type 0
ConnSender = ℕ

-- The address of a `RoutingTable`.
abbrev pub TableAddr : Type 0
TableAddr = ℕ

-- A spawned `handle_reg_frame`, by its arguments.
pub record ProxyTask : Type 0 where
  pub client_info : ClientInfo
  pub routing : TableAddr
  pub proxy_id : ℕ

pub record Session : Type 0 where
  pub tables : TableAddr → Dict ConnSender  -- conn_id to sender
  pub allocated : ℕ  -- tables made so far
  pub proxy_routing : Dict TableAddr
  pub proxy_tasks : List ProxyTask
  pub cached_routing : Option (ℕ × TableAddr)
  pub next_proxy_id : ℕ  -- u32
  pub sent : List RfrpFrame  -- what `tx_channel` took, in order
  pub delivered : List (ConnSender × List ℕ)  -- what the senders of connections took, in order
  pub aborted : List ProxyTask

abbrev pub max_proxies_per_client : ℕ
max_proxies_per_client = 16

abbrev pub start : Session
start = record {
  tables = λ a. empty;
  allocated = 0;
  proxy_routing = empty;
  proxy_tasks = [];
  cached_routing = none;
  next_proxy_id = 0;
  sent = [];
  delivered = [];
  aborted = [];
}

-- Whether the receivers are still there when this frame is handled: that of `tx_channel`, and those of
-- the senders to external connections.
pub record Receivers : Type 0 where
  pub tx_open : Bool
  pub conn_open : ConnSender → Bool

-- `continue` or the end of the body, and `break`.
pub data Next : Type 0 where
  goes_on : Session → Next
  breaks : Session → Next

-- `tx_channel.send(frame).await`, once it ends: it waits while the channel is full.
unfoldable pub send : Receivers → RfrpFrame → Session → Session
send r frame s = if r.tx_open then record s { sent = s.sent ++ (frame ∷ []) } else s

-- The arm of `RfrpFrame::Register`.
unfoldable pub on_register : Receivers → ClientInfo → Session → Next
unfolding send
on_register r client_info s =
    if leb max_proxies_per_client (length s.proxy_tasks)
    then goes_on (send r (new_reg_ack_frame client_info false 0) s)
    else goes_on (record s {
      next_proxy_id = (s.next_proxy_id + 1) % 2 ^ 32;
      tables = write_at s.allocated empty s.tables;
      allocated = s.allocated + 1;
      proxy_routing = insert s.next_proxy_id s.allocated s.proxy_routing;
      proxy_tasks =
          s.proxy_tasks
          ++ (record {
            client_info = client_info;
            routing = s.allocated;
            proxy_id = s.next_proxy_id;
          }
              ∷ []);
    })

-- The arm of `RfrpFrame::Control`.
unfoldable pub on_control : Receivers → ControlInfo → Session → Next
unfolding send
on_control r c s =
    if bytes_eq c.command ping_command
    then (if r.tx_open then goes_on (send r new_pong_frame s) else breaks s)
    else if bytes_eq c.command pong_command
    then goes_on s
    else goes_on s

-- The routing table of a proxy: from the cache, or looked up and then cached.
unfoldable pub find_routing : ℕ → Session → Option TableAddr × Session
find_routing proxy_id s =
    let looked_up : Option TableAddr × Session = elim (s.proxy_routing proxy_id) [
      | none ↦ (none, s)
      | some rt ↦ (some rt, record s { cached_routing = some (proxy_id, rt) })
    ] in
    elim s.cached_routing [
      | none ↦ looked_up
      | some (id, rt) ↦ if id == proxy_id then (some rt, s) else looked_up
    ]

-- `sender.send(data_info.data).await`, if there is a sender. The send waits while the channel is full:
-- this is the state once it ends. What other tasks do meanwhile comes behind it.
unfoldable pub deliver : Receivers → Option ConnSender → List ℕ → Session → Session
deliver r none payload s = s
deliver r (some sender) payload s =
    if r.conn_open sender
    then record s { delivered = s.delivered ++ ((sender, payload) ∷ []) }
    else s

-- The sender that a table has for a connection, if there is a table.
unfoldable pub find_sender :
    Option TableAddr → ℕ → (TableAddr → Dict ConnSender) → Option ConnSender
find_sender none conn_id tables = none
find_sender (some rt) conn_id tables = tables rt conn_id

-- The arm of `RfrpFrame::Data`.
unfoldable pub on_data : Receivers → DataInfo → Session → Next
unfolding find_routing find_sender deliver
on_data r d s =
    let (routing, s') = find_routing d.proxy_id s in
    goes_on (deliver r (find_sender routing d.conn_id s'.tables) d.payload s')

-- The `match` of the main loop.
unfoldable pub on_frame : Receivers → RfrpFrame → Session → Next
on_frame r (register client_info) s = on_register r client_info s
on_frame r (control c) s = on_control r c s
on_frame r (register_ack _) s = goes_on s
on_frame r (data_frame d) s = on_data r d s

-- What the tasks of a proxy do to their table while the loop waits: the accept loop inserts a sender,
-- a read task removes one.
unfoldable pub on_task : ℕ → ℕ → Option ConnSender → Session → Session
on_task i conn_id entry s = elim (get_elem? s.proxy_tasks i) [
  | none ↦ s
  | some t ↦ record s {
    tables =
        write_at t.routing (λ j. if j == conn_id then entry else s.tables t.routing j) s.tables;
  }
]

-- The end of the session: every task is aborted and the map of proxies cleared.
unfoldable pub shut_down : Session → Session
shut_down s = record s { aborted = s.proxy_tasks; proxy_tasks = []; proxy_routing = empty }
