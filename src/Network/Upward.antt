-- ===== src/Network/Upward.antt =====
-- What happens to frames that are under way to the server.
use rfrp.Base.{
  Bool, true, false, ℕ, suc, zero, ◌+◌, ◌-◌, ◌^◌, ◌≤◌, ◌<◌, ◌≡◌, refl, ap, ◌∙◌, List, [], ◌∷◌, some,
  arith, length, get_elem?, get_elem?-some, drop_all, if◌then◌else◌, bytes_eq, ◌++◌,
}
use mathlib.Core.List.{append-nil}
use rfrp.Base.Dict.{Dict}
use rfrp.Config.{ClientInfo}
use rfrp.Frame.{
  RfrpFrame, register, register_ack, control, data_frame, skip_fields, ping_command, pong_command,
  new_pong_frame,
}
use rfrp.Base.Result.{ok}
use rfrp.Compress.{returns}
use rfrp.Codec.{Crates}
use rfrp.Codec.Laws.{AreCrates}
use rfrp.Pump.Reading.{payloads}
use rfrp.Server.{Session, Next, goes_on, on_frame, on_register, on_control, on_data, send}
use rfrp.Proxy.{Listener}
use rfrp.Site
use rfrp.Site.{Site, listening, sender_of}
use rfrp.Site.Received.{IsOpen}
use rfrp.Client.Site as ClientSite
use rfrp.Client.Site.Reads as ClientReads
use rfrp.Streams.{stream}
use rfrp.Streams.Outbound.{all_open}
use rfrp.Network.{Run, server_frame}
use rfrp.Network.Line.{Line, write_round, read_round}
use rfrp.Network.Carried.{IsCarrying, Carries-length}
use rfrp.Network.Rounds.{write_round-goes_on, read_round-next}
use rfrp.Network.Wired.{Wired, client_wrote, server_read}
use rfrp.Network.Refined.{Slim, Slim-Fit, Wired-Refines}
use rfrp.Network.Transfer.{Run-IsTransferred}
use rfrp.Network.Outbound.{Run-outbound}

abbrev GoesOn : Next → Type 0
GoesOn n = (z : Session) × (n ≡ goes_on z)

if-GoesOn : (b : Bool) (x y : Next) → GoesOn x → GoesOn y → GoesOn (if b then x else y)
if-GoesOn true x y h k = h
if-GoesOn false x y h k = k

-- While the write task of the server is there, no frame ends the loop.
on_frame-GoesOn : (f : RfrpFrame) (s : Session) → GoesOn (on_frame all_open f s)
unfolding on_frame on_register on_control on_data
on_frame-GoesOn (register c) s = if-GoesOn _ _ _ (_, refl) (_, refl)
on_frame-GoesOn (control c) s =
    if-GoesOn (bytes_eq c.command ping_command) (goes_on (send all_open new_pong_frame s))
      (if bytes_eq c.command pong_command then goes_on s else goes_on s) (_, refl)
      (if-GoesOn (bytes_eq c.command pong_command) (goes_on s) (goes_on s) (_, refl) (_, refl))
on_frame-GoesOn (register_ack a) s = (s, refl)
on_frame-GoesOn (data_frame d) s = (_, refl)

-- How a line and a server go on by two kinds of steps alone: the client's write task writes the next
-- frame of its channel, and the server's main loop reads a frame and handles it, while no receiver is
-- gone. Both tasks wait where a channel or the socket has no room; such a step is taken once there is.
pub data GoesUp (crates : Crates) (sent : List RfrpFrame)
    : (n : ℕ) (x : Site) (r : Site.Reach n x) (up : Line crates) (m : ℕ) (z : Site)
        (t : Site.Reach m z) (later : Line crates)
      → Type 0 where
  stays :
      {n : ℕ} {x : Site} {r : Site.Reach n x} {up : Line crates}
      → GoesUp crates sent n x r up n x r up
  writes :
      {n m : ℕ} {x z : Site} {r : Site.Reach n x} {t : Site.Reach m z} {up later : Line crates}
      (f : RfrpFrame) (l : Line crates)
      → get_elem? sent up.wrote ≡ some f
      → write_round crates true f up ≡ returns (some l)
      → GoesUp crates sent n x r l m z t later
      → GoesUp crates sent n x r up m z t later
  reads :
      {n m : ℕ} {x z : Site} {r : Site.Reach n x} {t : Site.Reach m z} {up later : Line crates}
      (f : RfrpFrame) (s : Session) (e : on_frame all_open f x.session ≡ goes_on s)
      (l : Line crates)
      → read_round crates up ≡ returns (some (ok f, l))
      → GoesUp crates sent
          (n + 1)
          (record x { session = s })
          (Site.next r (Site.framed all_open f x s e))
          l
          m
          z
          t
          later
      → GoesUp crates sent n x r up m z t later

-- Where the server has come to when it has read all that was written to it.
record IsRead (crates : Crates) (configs : Dict ClientInfo) (n : ℕ) (x : Site) (r : Site.Reach n x)
    (y : ClientSite.Site) (s : ClientSite.Reach configs y) (down before up : Line crates)
    : Type 0 where
  steps : ℕ
  site : Site
  reach : Site.Reach steps site
  line : Line crates
  by_client : ℕ
  by_server : ℕ
  path : GoesUp crates y.sent n x r before steps site reach line
  wired : Wired crates configs steps site reach y s down line
  run : Run configs steps site reach y s by_client by_server
  few : steps ≤ n + length up.wire
  whole : by_server ≡ up.wrote
  same_tasks : site.tasks ≡ x.tasks
  still_open : IsOpen r → IsOpen reach

module _ (crates : Crates) (laws : AreCrates crates) (configs : Dict ClientInfo)
    (y : ClientSite.Site) (s : ClientSite.Reach configs y) (down : Line crates) where
  empties :
      (wire : List (List ℕ)) (n : ℕ) (x : Site) (r : Site.Reach n x) (up : Line crates) (i j : ℕ)
      → Run configs n x r y s i j
      → IsCarrying crates up y.sent j
      → up.wire ≡ wire
      → Wired crates configs n x r y s down up
      → IsRead crates configs n x r y s down up up
  empties [] n x r up i j run v e w = record {
    steps = n;
    site = x;
    reach = r;
    line = up;
    path = stays;
    by_client = i;
    by_server = j;
    wired = w;
    run = run;
    few = omega arith;
    whole = omega (arith, v.counts, ap length e);
    same_tasks = refl;
    still_open = λ h. h;
  }
  empties (bytes ∷ rest) n x r up i j run v e w =
      let (f, m, at, read, v', kept, same) =
        read_round-next crates laws up y.sent j bytes rest v e in
      let (z, goes) = on_frame-GoesOn (skip_fields f) x.session in
      let later =
        empties rest (n + 1) (record x { session = z })
          (Site.next r (Site.framed all_open (skip_fields f) x z goes)) m i (j + 1)
          (server_frame all_open f z goes at run) v' kept
          (server_read all_open (skip_fields f) z goes m read w) in
      record {
        steps = later.steps;
        site = later.site;
        reach = later.reach;
        line = later.line;
        path = reads (skip_fields f) z goes m read later.path;
        by_client = later.by_client;
        by_server = later.by_server;
        wired = later.wired;
        run = later.run;
        few = omega (arith, later.few, ap length kept, ap length e);
        whole = later.whole ∙ same;
        same_tasks = later.same_tasks;
        still_open = λ h. later.still_open (h, λ k. refl);
      }

  -- The client's write task writes what is left, and the server reads it all.
  writes_and_empties :
      (k n : ℕ) (x : Site) (r : Site.Reach n x) (up : Line crates) (i j : ℕ)
      → Slim crates y.sent
      → Run configs n x r y s i j
      → IsCarrying crates up y.sent j
      → k + up.wrote ≡ length y.sent
      → Wired crates configs n x r y s down up
      → (later : Line crates) × (later.wrote ≡ length y.sent)
        × (length later.wire ≤ length y.sent)
        × IsRead crates configs n x r y s down up later
  writes_and_empties zero n x r up i j fit run v e w =
      (up, omega (arith, e), omega (arith, e, v.counts), empties up.wire n x r up i j run v refl w)
  writes_and_empties (suc k) n x r up i j fit run v e w =
      let (f, at) = get_elem?-some y.sent up.wrote (omega arith) in
      let (m, wrote, v', count) =
        write_round-goes_on crates laws f up y.sent j v at (fit up.wrote f at) in
      let (later, all, most, z) =
        writes_and_empties k n x r m i j fit run v' (omega arith) (client_wrote f m at wrote w) in
      (
        later,
        all,
        most,
        record {
          steps = z.steps;
          site = z.site;
          reach = z.reach;
          line = z.line;
          path = writes f m at wrote z.path;
          by_client = z.by_client;
          by_server = z.by_server;
          wired = z.wired;
          run = z.run;
          few = z.few;
          whole = z.whole;
          same_tasks = z.same_tasks;
          still_open = z.still_open;
        },
      )

-- What is under way comes to external connections: every run can go on, by the rounds of the client's
-- write task and the frames of the server's main loop alone, to where the sender of a connection has
-- taken all that had been read for it from the internal services, and the channel had taken, since the
-- run began, in order: no frame is refused by the codec, lost or not decoded on the way. The connection
-- is in its listener's table, no sender's receiver was gone when a frame came or goes, the socket does
-- not fail, the sends to channels end, each frame has a MessagePack form of at most 524,242 bytes, and
-- the server's steps, with one for each frame of the client, are fewer than 2^64.
pub Wired-returns :
    (crates : Crates) (laws : AreCrates crates) (configs : Dict ClientInfo) (p c k n : ℕ) (x : Site)
    (l : Listener) (r : Site.Reach n x) (y : ClientSite.Site) (s : ClientSite.Reach configs y)
    (down up : Line crates)
    → n + length y.sent < 2 ^ 64
    → Slim crates x.session.sent
    → Slim crates y.sent
    → IsOpen r
    → x.tasks p ≡ listening l
    → l.routing c ≡ some k
    → Wired crates configs n x r y s down up
    → (m : ℕ) × (z : Site) × (t : Site.Reach m z) × (later : Line crates) × Wired crates configs m z
        t y s down later
      × GoesUp crates y.sent n x r up m z t later
      × (ClientReads.chunks_read p c s ≡ stream (sender_of p k) z.session.delivered)
Wired-returns crates laws configs p c k n x l r y s down up small fit_down fit_up open_ at entry w =
    let (i, j, run, _, v) =
      Wired-Refines crates laws configs n x r y s down up (omega arith) (Slim-Fit crates _ fit_down)
        (Slim-Fit crates _ fit_up) w in
    let fewer =
      Carries-length crates up.cipher.key y.sent j up.wire
        ((Run-IsTransferred configs 0 0 n x r y s i j (omega arith) run).sent_by_client)
        v.carries in
    let (written, all, most, z) =
      writes_and_empties crates laws configs y s down (length y.sent - up.wrote) n x r up i j fit_up
        run v (omega (arith, fewer, v.counts)) w in
    (
      z.steps,
      z.site,
      z.reach,
      z.line,
      z.wired,
      z.path,
      Run-outbound configs p c k z.steps z.site l z.reach y s z.by_client z.by_server
            (omega (arith, z.few, most)) z.run (z.still_open open_)
            (ap (λ tasks. tasks p) z.same_tasks ∙ at) entry
          ∙ ap (λ fs. stream (sender_of p k) z.site.session.delivered ++ payloads p c fs)
              (drop_all z.by_server y.sent (omega (arith, z.whole, all)))
          ∙ append-nil (stream (sender_of p k) z.site.session.delivered),
    )
