-- ===== src/Client/Tunnel.antt =====
-- A specification of the client's session that knows of no cache and no shared maps.
use rfrp.Base.{ℕ, ◌+◌, ◌&&◌, List, [], ◌∷◌, ◌++◌, Option, none, some, ◌==◌, if◌then◌else◌}
use rfrp.Base.Dict.{Dict}
use rfrp.Config.{ClientInfo, DataInfo, client_getter, get_addr}
use rfrp.Frame.{RfrpFrame, register, register_ack, control, data_frame}
use rfrp.Client.{World, InternalConn, ConnSender}

-- What a session promises: a sender for some pairs of a proxy and a connection, the connections opened
-- so far, and what has been forwarded to them.
pub record Tunnel : Type 0 where
  pub configs : ℕ → Option ClientInfo
  pub link : ℕ → ℕ → Option ConnSender
  pub made : ℕ
  pub connections : List InternalConn
  pub passed : List (ConnSender × List ℕ)

-- No links yet.
abbrev pub start_tunnel : Dict ClientInfo → Tunnel
start_tunnel configs = record {
  configs = configs;
  link = λ p c. none;
  made = 0;
  connections = [];
  passed = [];
}

abbrev pub set_link : ℕ → ℕ → Option ConnSender → Tunnel → Tunnel
set_link p c o t = record t { link = λ q j. if (q == p) && (j == c) then o else t.link q j }

abbrev pub unlink_all : List (ℕ × ℕ) → Tunnel → Tunnel
unlink_all [] t = t
unlink_all ((p, c) ∷ ends) t = unlink_all ends (set_link p c none t)

-- A payload for a sender that the proxy's connection has: it is passed on, or the link is dropped.
abbrev pub pass : World → ℕ → ℕ → ConnSender → List ℕ → Tunnel → Tunnel
pass w p c sender payload t =
    if w.conn_open sender
    then record t { passed = t.passed ++ ((sender, payload) ∷ []) }
    else set_link p c none t

-- A connection that has been accepted: another one's sender is used if there is one by now.
abbrev pub enter : World → DataInfo → ClientInfo → Option ConnSender → Tunnel → Tunnel
enter w d info (some existing) t =
    pass w d.proxy_id d.conn_id existing d.payload (record t { made = t.made + 1 })
enter w d info none t = pass w d.proxy_id d.conn_id t.made d.payload (
    set_link d.proxy_id d.conn_id (some t.made) (record t {
      made = t.made + 1;
      connections =
          t.connections
          ++ (record {
            sender = t.made;
            addr = get_addr info;
            conn_id = d.conn_id;
            proxy_id = d.proxy_id;
          }
              ∷ []);
    }))

abbrev pub reach : World → DataInfo → ClientInfo → Option ConnSender → Tunnel → Tunnel
reach w d info (some sender) t = pass w d.proxy_id d.conn_id sender d.payload t
reach w d info none t =
    let t' = unlink_all w.ended t in
    if w.accepts (get_addr info) then enter w d info (t'.link d.proxy_id d.conn_id) t' else t'

abbrev pub relay_to : World → DataInfo → Option ClientInfo → Tunnel → Tunnel
relay_to w d none t = t
relay_to w d (some info) t = reach w d info (t.link d.proxy_id d.conn_id) t

-- What a frame of the server asks of the tunnel: only data does anything, and only for a proxy that is
-- registered.
unfoldable pub relay : World → RfrpFrame → Tunnel → Tunnel
relay w (data_frame d) t = relay_to w d (t.configs d.proxy_id) t
relay w (register c) t = t
relay w (register_ack r) t = t
relay w (control c) t = t
