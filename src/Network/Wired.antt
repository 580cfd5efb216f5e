-- ===== src/Network/Wired.antt =====
-- Both sides over a connection that carries bytes: what either's write task puts on the wire the other's
-- main loop reads and decodes.
use rfrp.Base.{Bool, true, ℕ, ◌+◌, ◌≡◌, [], some, length, get_elem?}
use rfrp.Base.Result.{ok}
use rfrp.Base.Dict.{Dict}
use rfrp.Config.{Text, ClientInfo}
use rfrp.Frame.{RfrpFrame}
use rfrp.Crypto.RoundTrip.{IsCipher}
use rfrp.Compress.{returns}
use rfrp.Codec.{Crates}
use rfrp.Pump.Reading.{payloads}
use rfrp.Server.{Receivers, Session, goes_on, on_frame}
use rfrp.Site
use rfrp.Site.{Site}
use rfrp.Site.Received.{received}
use rfrp.Client.{ConnSender}
use rfrp.Client.Site as ClientSite
use rfrp.Network.{IsTask, IsClientTask}
use rfrp.Network.Line.{Line, write_round, read_round}

-- Nothing is on the wire, `n` frames have been written, and both ends have the same key.
abbrev pub IsIdle : (crates : Crates) → Line crates → ℕ → Type 0
IsIdle crates l n =
    (l.wire ≡ []) × (l.wrote ≡ n) × IsCipher l.cipher × (l.reader.key ≡ l.cipher.key)

-- A run of both sides with the two directions of their connection, from the moment when the client has
-- registered its proxies. A round of a write task that breaks ends the task: there is no further one.
pub data Wired (crates : Crates) (configs : Dict ClientInfo)
    : (n : ℕ) (x : Site) (r : Site.Reach n x) (y : ClientSite.Site) (s : ClientSite.Reach configs y)
        (down up : Line crates)
      → Type 0 where
  connected :
      {n : ℕ} {x : Site} (r : Site.Reach n x) (down up : Line crates)
      → ((p c : ℕ) → payloads p c x.session.sent ≡ [])
      → ((p c : ℕ) → received p c r ≡ [])
      → IsIdle crates down (length x.session.sent)
      → IsIdle crates up 0
      → Wired crates configs n x r (ClientSite.start configs) ClientSite.here down up
  server_worked :
      {n : ℕ} {x z : Site} {r : Site.Reach n x} {y : ClientSite.Site}
      {s : ClientSite.Reach configs y} {down up : Line crates} (st : Site.Step x z)
      → IsTask st
      → Wired crates configs n x r y s down up
      → Wired crates configs (n + 1) z (Site.next r st) y s down up
  client_worked :
      {n : ℕ} {x : Site} {r : Site.Reach n x} {y z : ClientSite.Site}
      {s : ClientSite.Reach configs y} {down up : Line crates} (st : ClientSite.Step y z)
      → IsClientTask st
      → Wired crates configs n x r y s down up
      → Wired crates configs n x r z (ClientSite.next s st) down up
  server_wrote :
      {n : ℕ} {x : Site} {r : Site.Reach n x} {y : ClientSite.Site} {s : ClientSite.Reach configs y}
      {down up : Line crates} (f : RfrpFrame) (later : Line crates)
      → get_elem? x.session.sent down.wrote ≡ some f
      → write_round crates true f down ≡ returns (some later)
      → Wired crates configs n x r y s down up
      → Wired crates configs n x r y s later up
  client_wrote :
      {n : ℕ} {x : Site} {r : Site.Reach n x} {y : ClientSite.Site} {s : ClientSite.Reach configs y}
      {down up : Line crates} (f : RfrpFrame) (later : Line crates)
      → get_elem? y.sent up.wrote ≡ some f
      → write_round crates true f up ≡ returns (some later)
      → Wired crates configs n x r y s down up
      → Wired crates configs n x r y s down later
  server_read :
      {n : ℕ} {x : Site} {r : Site.Reach n x} {y : ClientSite.Site} {s : ClientSite.Reach configs y}
      {down up : Line crates} (rc : Receivers) (f : RfrpFrame) (z : Session)
      (e : on_frame rc f x.session ≡ goes_on z) (later : Line crates)
      → read_round crates up ≡ returns (some (ok f, later))
      → Wired crates configs n x r y s down up
      → Wired crates configs
          (n + 1)
          (record x { session = z })
          (Site.next r (Site.framed rc f x z e))
          y
          s
          down
          later
  client_read :
      {n : ℕ} {x : Site} {r : Site.Reach n x} {y : ClientSite.Site} {s : ClientSite.Reach configs y}
      {down up : Line crates} (accepts : Text → Bool) (conn_open : ConnSender → Bool)
      (f : RfrpFrame) (later : Line crates)
      → read_round crates down ≡ returns (some (ok f, later))
      → Wired crates configs n x r y s down up
      → Wired crates configs n x r
          (ClientSite.on_frame_spawned accepts conn_open f y)
          (ClientSite.next s (ClientSite.framed accepts conn_open f y))
          later
          up
