-- ===== src/Network.antt =====
-- A server's session and its client's, with all their tasks, over a connection that carries the frames of
-- either side to the other in order: rfrp_server/src/run_proxy.rs, rfrp_client/src/run_proxy.rs and
-- rfrp_proto/src/frame_handle.rs together.
-- `Network.Wired` puts the wire in the connection's place.
pub mod Growth
pub mod Transfer
pub mod Inbound
pub mod Outbound
pub mod Line
pub mod Carried
pub mod Rounds
pub mod Wired
pub mod Refined
pub mod Drained
pub mod Upward
use rfrp.Base.{Bool, ℕ, ◌+◌, ◌≡◌, List, [], some, length, get_elem?}
use rfrp.Base.Dict.{Dict}
use rfrp.Config.{Text, ClientInfo}
use rfrp.Frame.{RfrpFrame, skip_fields}
use rfrp.Pump.Reading.{payloads}
use rfrp.Server.{Receivers, Session, goes_on, on_frame}
use rfrp.Site
use rfrp.Site.{Site}
use rfrp.Site.Received.{received}
use rfrp.Client.{ConnSender}
use rfrp.Client.Site as ClientSite

-- Steps that take no frame.
abbrev pub IsTask : {x y : Site} → Site.Step x y → Type 0
IsTask (Site.framed r f x s e) = ⊥
IsTask (Site.began binds tx_open p t x e at) = Unit
IsTask (Site.served p st x at) = Unit

abbrev pub IsClientTask : {x y : ClientSite.Site} → ClientSite.Step x y → Type 0
IsClientTask (ClientSite.framed accepts conn_open f x) = ⊥
IsClientTask (ClientSite.read tx_open k p c bytes x h) = Unit
IsClientTask (ClientSite.closed k p c x h) = Unit
IsClientTask (ClientSite.pinged x) = Unit

-- A run of both sides, with the number of frames that the client has taken of the server's, and the
-- server of the client's. It begins when the client has registered its proxies: the client has taken
-- what the server has sent, and neither has sent any payload. A frame comes without the fields that
-- serde skips.
pub data Run (configs : Dict ClientInfo)
    : (n : ℕ) (x : Site) (r : Site.Reach n x) (y : ClientSite.Site) (s : ClientSite.Reach configs y)
        (i j : ℕ)
      → Type 0 where
  registered :
      {n : ℕ} {x : Site} (r : Site.Reach n x)
      → ((p c : ℕ) → payloads p c x.session.sent ≡ [])
      → ((p c : ℕ) → received p c r ≡ [])
      → Run configs n x r (ClientSite.start configs) ClientSite.here (length x.session.sent) 0
  server_task :
      {n : ℕ} {x z : Site} {r : Site.Reach n x} {y : ClientSite.Site}
      {s : ClientSite.Reach configs y} {i j : ℕ} (st : Site.Step x z)
      → IsTask st
      → Run configs n x r y s i j
      → Run configs (n + 1) z (Site.next r st) y s i j
  server_frame :
      {n : ℕ} {x : Site} {r : Site.Reach n x} {y : ClientSite.Site} {s : ClientSite.Reach configs y}
      {i j : ℕ} (rc : Receivers) (f : RfrpFrame) (z : Session)
      (e : on_frame rc (skip_fields f) x.session ≡ goes_on z)
      → get_elem? y.sent j ≡ some f
      → Run configs n x r y s i j
      → Run configs
          (n + 1)
          (record x { session = z })
          (Site.next r (Site.framed rc (skip_fields f) x z e))
          y
          s
          i
          (j + 1)
  client_task :
      {n : ℕ} {x : Site} {r : Site.Reach n x} {y z : ClientSite.Site}
      {s : ClientSite.Reach configs y} {i j : ℕ} (st : ClientSite.Step y z)
      → IsClientTask st
      → Run configs n x r y s i j
      → Run configs n x r z (ClientSite.next s st) i j
  client_frame :
      {n : ℕ} {x : Site} {r : Site.Reach n x} {y : ClientSite.Site} {s : ClientSite.Reach configs y}
      {i j : ℕ} (accepts : Text → Bool) (conn_open : ConnSender → Bool) (f : RfrpFrame)
      → get_elem? x.session.sent i ≡ some f
      → Run configs n x r y s i j
      → Run configs n x r
          (ClientSite.on_frame_spawned accepts conn_open (skip_fields f) y)
          (ClientSite.next s (ClientSite.framed accepts conn_open (skip_fields f) y))
          (i + 1)
          j
