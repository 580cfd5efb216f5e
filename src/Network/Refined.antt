-- ===== src/Network/Refined.antt =====
-- From runs over bytes to runs over frames.
use rfrp.Base.{
  Bool, true, ℕ, ◌+◌, ◌^◌, ◌<◌, ◌≡◌, sym, ap, List, some, arith, length, get_elem?,
  get_elem?-append_left,
}
use mathlib.Core.Path.{subst}
use rfrp.Base.Result.{Result, ok}
use rfrp.Base.Dict.{Dict}
use rfrp.Config.{Text, ClientInfo}
use rfrp.Frame.{RfrpFrame, skip_fields}
use rfrp.Crypto.{ProtoError}
use rfrp.Codec.{Crates}
use rfrp.Codec.Laws.{AreCrates}
use rfrp.Server.{Receivers, Session, goes_on, on_frame}
use rfrp.Site
use rfrp.Site.{Site}
use rfrp.Client.{ConnSender}
use rfrp.Client.Site as ClientSite
use rfrp.Network.{Run, registered, server_task, server_frame, client_task, client_frame}
use rfrp.Network.Growth.{Grows, Step-Grows, client-Grows}
use rfrp.Network.Line.{Line}
use rfrp.Network.Carried.{Fits, IsSlim, IsSlim-Fits, IsCarrying, grown-IsCarrying}
use rfrp.Network.Rounds.{write_round-IsCarrying, read_round-IsCarrying}
use rfrp.Network.Wired.{
  IsIdle, Wired, connected, server_worked, client_worked, server_wrote, client_wrote, server_read,
  client_read,
}

-- Every frame of the list has a MessagePack form of at most 64 MiB.
abbrev pub Fit : Crates → List RfrpFrame → Type 0
Fit crates fs = (i : ℕ) (f : RfrpFrame) → get_elem? fs i ≡ some f → Fits crates f

-- Every frame of the list is within the limit of the codec.
abbrev pub Slim : Crates → List RfrpFrame → Type 0
Slim crates fs = (i : ℕ) (f : RfrpFrame) → get_elem? fs i ≡ some f → IsSlim crates f

pub Slim-Fit : (crates : Crates) (fs : List RfrpFrame) → Slim crates fs → Fit crates fs
Slim-Fit crates fs slim i f at = IsSlim-Fits crates f (slim i f at)

before-Fit :
    (crates : Crates) (before after : List RfrpFrame)
    → Grows before after
    → Fit crates after
    → Fit crates before
before-Fit crates before after (more, e) fit i f at =
    fit i f (subst (λ fs. get_elem? fs i ≡ some f) (sym e) (get_elem?-append_left before more i at))

idle-IsCarrying :
    (crates : Crates) (l : Line crates) (sent : List RfrpFrame) (n : ℕ)
    → IsIdle crates l n
    → IsCarrying crates l sent n
idle-IsCarrying crates l sent n (quiet, count, cipher, same) = record {
  ciphers = cipher;
  same_key = same;
  carries = rw quiet tt;
  counts = omega (arith, ap length quiet, count);
}

ok_inj : {f g : RfrpFrame} → (◌≡◌ {A = Result ProtoError RfrpFrame} (ok f) (ok g)) → f ≡ g
ok_inj h = cc

-- A frame as the reader has it is the one of the channel without its skipped fields.
server_read-Run :
    (configs : Dict ClientInfo) {n : ℕ} {x : Site} {r : Site.Reach n x} {y : ClientSite.Site}
    {s : ClientSite.Reach configs y} {i j : ℕ} (rc : Receivers) (f g : RfrpFrame) (z : Session)
    → f ≡ skip_fields g
    → get_elem? y.sent j ≡ some g
    → Run configs n x r y s i j
    → (e : on_frame rc f x.session ≡ goes_on z)
    → Run configs
        (n + 1)
        (record x { session = z })
        (Site.next r (Site.framed rc f x z e))
        y
        s
        i
        (j + 1)
server_read-Run configs {n} {x} {r} {y} {s} {i} {j} rc f g z same at run =
    subst
      (λ t.
        (e : on_frame rc t x.session ≡ goes_on z)
        → Run configs (n + 1) (record x { session = z }) (Site.next r (Site.framed rc t x z e)) y s
            i (j + 1))
      (sym same) (λ e. server_frame rc g z e at run)

client_read-Run :
    (configs : Dict ClientInfo) {n : ℕ} {x : Site} {r : Site.Reach n x} {y : ClientSite.Site}
    {s : ClientSite.Reach configs y} {i j : ℕ} (accepts : Text → Bool)
    (conn_open : ConnSender → Bool) (f g : RfrpFrame)
    → f ≡ skip_fields g
    → get_elem? x.session.sent i ≡ some g
    → Run configs n x r y s i j
    → Run configs n x r
        (ClientSite.on_frame_spawned accepts conn_open f y)
        (ClientSite.next s (ClientSite.framed accepts conn_open f y))
        (i + 1)
        j
client_read-Run configs {n} {x} {r} {y} {s} {i} {j} accepts conn_open f g same at run =
    subst
      (λ t.
        Run configs n x r (ClientSite.on_frame_spawned accepts conn_open t y)
          (ClientSite.next s (ClientSite.framed accepts conn_open t y)) (i + 1) j)
      (sym same) (client_frame accepts conn_open g at run)

-- The run over frames, with how many the client and the server have taken.
abbrev pub Refines :
    (crates : Crates) (configs : Dict ClientInfo) (n : ℕ) (x : Site) (r : Site.Reach n x)
    (y : ClientSite.Site) (s : ClientSite.Reach configs y) (down up : Line crates)
    → Type 0
Refines crates configs n x r y s down up =
    (i j : ℕ) × Run configs n x r y s i j
    × IsCarrying crates down x.session.sent i
    × IsCarrying crates up y.sent j

module _ (crates : Crates) (laws : AreCrates crates) (configs : Dict ClientInfo) where
  -- A run over bytes is one over frames: each side takes the frames that the other has sent, in order
  -- and without their skipped fields, and what is on the wire are the payloads of the next ones, up to
  -- those that the write task has still to write. The server makes fewer than 2^64 steps, and each frame
  -- fits.
  pub Wired-Refines :
      (n : ℕ) (x : Site) (r : Site.Reach n x) (y : ClientSite.Site) (s : ClientSite.Reach configs y)
      (down up : Line crates)
      → n < 2 ^ 64
      → Fit crates x.session.sent
      → Fit crates y.sent
      → Wired crates configs n x r y s down up
      → Refines crates configs n x r y s down up
  Wired-Refines n x r y s down up small fit_down fit_up (connected q a b quiet unsent idle fresh) =
      (
        length x.session.sent,
        0,
        registered r quiet unsent,
        idle-IsCarrying crates down x.session.sent (length x.session.sent) idle,
        idle-IsCarrying crates up y.sent 0 fresh,
      )
  Wired-Refines n x r y s down up small fit_down fit_up
        (server_worked {n = m} {x = u} {r = q} st task w) =
      let g = Step-Grows (omega arith) q st in
      let (i, j, run, v, t) =
        Wired-Refines m u q y s down up (omega arith) (before-Fit crates _ _ g fit_down) fit_up w in
      (i, j, server_task st task run, grown-IsCarrying crates down _ _ i g v, t)
  Wired-Refines n x r y s down up small fit_down fit_up (client_worked {y = u} {s = q} st task w) =
      let g = client-Grows st in
      let (i, j, run, v, t) =
        Wired-Refines n x r u q down up small fit_down (before-Fit crates _ _ g fit_up) w in
      (i, j, client_task st task run, v, grown-IsCarrying crates up _ _ j g t)
  Wired-Refines n x r y s down up small fit_down fit_up (server_wrote {down = l} f m at e w) =
      let (i, j, run, v, t) = Wired-Refines n x r y s l up small fit_down fit_up w in
      (
        i,
        j,
        run,
        write_round-IsCarrying crates laws true f l down x.session.sent i v at
            (fit_down l.wrote f at) e,
        t,
      )
  Wired-Refines n x r y s down up small fit_down fit_up (client_wrote {up = l} f m at e w) =
      let (i, j, run, v, t) = Wired-Refines n x r y s down l small fit_down fit_up w in
      (
        i,
        j,
        run,
        v,
        write_round-IsCarrying crates laws true f l up y.sent j t at (fit_up l.wrote f at) e,
      )
  Wired-Refines n x r y s down up small fit_down fit_up
        (server_read {n = m} {x = u} {r = q} {up = l} rc f z e k h w) =
      let g = Step-Grows (omega arith) q (Site.framed rc f u z e) in
      let (i, j, run, v, t) =
        Wired-Refines m u q y s down l (omega arith) (before-Fit crates _ _ g fit_down) fit_up w in
      let (original, at, same, t') = read_round-IsCarrying crates laws l y.sent j (ok f) up t h in
      (
        i,
        j + 1,
        server_read-Run configs rc f original z (ok_inj same) at run e,
        grown-IsCarrying crates down _ _ i g v,
        t',
      )
  Wired-Refines n x r y s down up small fit_down fit_up
        (client_read {y = u} {s = q} {down = l} accepts conn_open f k h w) =
      let g = client-Grows (ClientSite.framed accepts conn_open f u) in
      let (i, j, run, v, t) =
        Wired-Refines n x r u q l up small fit_down (before-Fit crates _ _ g fit_up) w in
      let (original, at, same, v') =
        read_round-IsCarrying crates laws l x.session.sent i (ok f) down v h in
      (
        i + 1,
        j,
        client_read-Run configs accepts conn_open f original (ok_inj same) at run,
        v',
        grown-IsCarrying crates up _ _ j g t,
      )
