-- ===== src/Network/Drained.antt =====
-- What happens to frames that are under way.
use rfrp.Base.{
  Bool, true, ℕ, suc, zero, ◌+◌, ◌^◌, ◌<◌, ◌≡◌, refl, sym, ap, ◌∙◌, List, [], ◌∷◌, some, arith,
  length, get_elem?, get_elem?-some, take_all, ◌-◌,
}
use mathlib.Core.Path.{subst}
use rfrp.Base.Result.{ok}
use rfrp.Base.Dict.{Dict}
use rfrp.Config.{Text, ClientInfo}
use rfrp.Frame.{RfrpFrame, skip_fields}
use rfrp.Compress.{returns}
use rfrp.Codec.{Crates}
use rfrp.Codec.Laws.{AreCrates}
use rfrp.Site
use rfrp.Site.{Site}
use rfrp.Client.{ConnSender}
use rfrp.Client.Site as ClientSite
use rfrp.Client.Site.Given as ClientGiven
use rfrp.Pump.Reading.{payloads}
use rfrp.Site.Reads.{chunks_read, Reach-chunks_read}
use rfrp.Network.Line.{Line, write_round, read_round}
use rfrp.Network.Carried.{IsCarrying, Carries-length}
use rfrp.Network.Rounds.{write_round-goes_on, read_round-next}
use rfrp.Network.Wired.{Wired, server_wrote, client_read}
use rfrp.Network.Refined.{Slim, Slim-Fit, Wired-Refines}
use rfrp.Network.Transfer.{Run-IsTransferred}

-- While the writer does not fail, the write task can write its next frame, and the reader can read the
-- next payload.
abbrev pub Flows : (crates : Crates) → Line crates → List RfrpFrame → Type 0
Flows crates l sent =
    ((f : RfrpFrame)
      → get_elem? sent l.wrote ≡ some f
      → (m : Line crates) × (write_round crates true f l ≡ returns (some m)))
    × ((bytes : List ℕ) (rest : List (List ℕ))
        → l.wire ≡ bytes ∷ rest
        → (f : RfrpFrame) × (m : Line crates) × (read_round crates l ≡ returns (some (ok f, m))))

-- All frames have been written and read.
abbrev pub IsDrained : (crates : Crates) → Line crates → List RfrpFrame → Type 0
IsDrained crates l sent = (l.wire ≡ []) × (l.wrote ≡ length sent)

-- How a line and a client go on by two kinds of steps alone: the server's write task writes the next
-- frame of its channel, and the client's main loop reads a frame and handles it. Both tasks wait where
-- a channel or the socket has no room; such a step is taken once there is.
pub data Delivers (crates : Crates) (configs : Dict ClientInfo) (sent : List RfrpFrame)
    (accepts : Text → Bool) (conn_open : ConnSender → Bool)
    : (y : ClientSite.Site) (s : ClientSite.Reach configs y) (down : Line crates)
        (z : ClientSite.Site) (t : ClientSite.Reach configs z) (later : Line crates)
      → Type 0 where
  stays :
      {y : ClientSite.Site} {s : ClientSite.Reach configs y} {down : Line crates}
      → Delivers crates configs sent accepts conn_open y s down y s down
  writes :
      {y z : ClientSite.Site} {s : ClientSite.Reach configs y} {t : ClientSite.Reach configs z}
      {down later : Line crates} (f : RfrpFrame) (m : Line crates)
      → get_elem? sent down.wrote ≡ some f
      → write_round crates true f down ≡ returns (some m)
      → Delivers crates configs sent accepts conn_open y s m z t later
      → Delivers crates configs sent accepts conn_open y s down z t later
  reads :
      {y z : ClientSite.Site} {s : ClientSite.Reach configs y} {t : ClientSite.Reach configs z}
      {down later : Line crates} (f : RfrpFrame) (m : Line crates)
      → read_round crates down ≡ returns (some (ok f, m))
      → Delivers crates configs sent accepts conn_open
          (ClientSite.on_frame_spawned accepts conn_open f y)
          (ClientSite.next s (ClientSite.framed accepts conn_open f y))
          m
          z
          t
          later
      → Delivers crates configs sent accepts conn_open y s down z t later

module _ (crates : Crates) (laws : AreCrates crates) where
  carrying-Flows :
      (l : Line crates) (sent : List RfrpFrame) (i : ℕ)
      → Slim crates sent
      → IsCarrying crates l sent i
      → Flows crates l sent
  carrying-Flows l sent i fit v = (
    (λ f at.
        let (m, e, _, _) = write_round-goes_on crates laws f l sent i v at (fit l.wrote f at) in
        (m, e)),
    (λ bytes rest e.
        let (f, m, _, h, _, _, _) = read_round-next crates laws l sent i bytes rest v e in
        (skip_fields f, m, h)),
  )

  module _ (configs : Dict ClientInfo) where
    -- At every moment of every run, on either side: the loop of the write task does not break on the next
    -- frame of its channel unless the socket fails, since what the frame is encoded to is within the
    -- codec's limit of 1 MiB; and the reader decodes the next payload of the wire to a frame. The server
    -- makes fewer than 2^64 steps, and each frame has a MessagePack form of at most 524,242 bytes.
    pub Wired-Flows :
        (n : ℕ) (x : Site) (r : Site.Reach n x) (y : ClientSite.Site)
        (s : ClientSite.Reach configs y) (down up : Line crates)
        → n < 2 ^ 64
        → Slim crates x.session.sent
        → Slim crates y.sent
        → Wired crates configs n x r y s down up
        → Flows crates down x.session.sent × Flows crates up y.sent
    Wired-Flows n x r y s down up small fit_down fit_up w =
        let (i, j, _, v, t) =
          Wired-Refines crates laws configs n x r y s down up small (Slim-Fit crates _ fit_down)
            (Slim-Fit crates _ fit_up) w in
        (carrying-Flows down x.session.sent i fit_down v, carrying-Flows up y.sent j fit_up t)

    -- A client whose line is drained has received all that was read.
    drained-received :
        (n : ℕ) (x : Site) (r : Site.Reach n x) (y : ClientSite.Site)
        (s : ClientSite.Reach configs y) (down up : Line crates)
        → n < 2 ^ 64
        → Slim crates x.session.sent
        → Slim crates y.sent
        → Wired crates configs n x r y s down up
        → IsDrained crates down x.session.sent
        → (p c : ℕ) → ClientGiven.received p c s ≡ chunks_read p c r
    drained-received n x r y s down up small fit_down fit_up w (empty, all) p c =
        let (i, j, run, v, _) =
          Wired-Refines crates laws configs n x r y s down up small (Slim-Fit crates _ fit_down)
            (Slim-Fit crates _ fit_up) w in
        (Run-IsTransferred configs p c n x r y s i j small run).by_client
        ∙ ap (payloads p c)
            (take_all i x.session.sent (omega (arith, v.counts, all, ap length empty)))
        ∙ Reach-chunks_read n p c x r small

    drain_wire :
        (accepts : Text → Bool) (conn_open : ConnSender → Bool) (wire : List (List ℕ)) (n : ℕ)
        (x : Site) (r : Site.Reach n x) (y : ClientSite.Site) (s : ClientSite.Reach configs y)
        (down up : Line crates) (i : ℕ)
        → IsCarrying crates down x.session.sent i
        → down.wire ≡ wire
        → Wired crates configs n x r y s down up
        → (z : ClientSite.Site) × (t : ClientSite.Reach configs z) × (later : Line crates) × Wired
            crates configs n x r z t later up
          × Delivers crates configs x.session.sent accepts conn_open y s down z t later
          × (later.wire ≡ [])
          × (later.wrote ≡ down.wrote)
          × (z.sent ≡ y.sent)
    unfolding ClientSite.on_frame_spawned
    drain_wire accepts conn_open [] n x r y s down up i v e w =
        (y, s, down, w, stays, e, refl, refl)
    drain_wire accepts conn_open (bytes ∷ rest) n x r y s down up i v e w =
        let (f, m, at, read, v', kept, same) =
          read_round-next crates laws down x.session.sent i bytes rest v e in
        let (z, t, later, w', path, empty, count, sent) =
          drain_wire accepts conn_open rest n x r _ _ m up (i + 1) v' kept
            (client_read accepts conn_open (skip_fields f) m read w) in
        (z, t, later, w', reads (skip_fields f) m read path, empty, count ∙ same, sent)

    drain :
        (accepts : Text → Bool) (conn_open : ConnSender → Bool) (k n : ℕ) (x : Site)
        (r : Site.Reach n x) (y : ClientSite.Site) (s : ClientSite.Reach configs y)
        (down up : Line crates) (i : ℕ)
        → Slim crates x.session.sent
        → IsCarrying crates down x.session.sent i
        → k + down.wrote ≡ length x.session.sent
        → Wired crates configs n x r y s down up
        → (z : ClientSite.Site) × (t : ClientSite.Reach configs z) × (later : Line crates) × Wired
            crates configs n x r z t later up
          × Delivers crates configs x.session.sent accepts conn_open y s down z t later
          × IsDrained crates later x.session.sent
          × (z.sent ≡ y.sent)
    drain accepts conn_open zero n x r y s down up i fit v e w =
        let (z, t, later, w', path, empty, count, sent) =
          drain_wire accepts conn_open down.wire n x r y s down up i v refl w in
        (z, t, later, w', path, (empty, omega (arith, count, e)), sent)
    drain accepts conn_open (suc k) n x r y s down up i fit v e w =
        let (f, at) = get_elem?-some x.session.sent down.wrote (omega arith) in
        let (m, wrote, v', count) =
          write_round-goes_on crates laws f down x.session.sent i v at (fit down.wrote f at) in
        let (z, t, later, w', path, done, same) =
          drain accepts conn_open k n x r y s m up i fit v' (omega arith)
            (server_wrote f m at wrote w) in
        (z, t, later, w', writes f m at wrote path, done, same)

    -- What is under way comes to the client: every run can go on, by the rounds of the server's write
    -- task and the frames of the client's main loop alone, to where the client has received all that
    -- had been read from external connections and the channel had taken, of each connection in order:
    -- no frame is refused by the codec, lost or not decoded on the way. So it is whichever addresses
    -- services accept at and whichever write tasks of connections are gone, provided that the socket
    -- does not fail and that the sends to connections' channels end. The server makes fewer than 2^64
    -- steps, and each frame has a MessagePack form of at most 524,242 bytes.
    pub Wired-delivers :
        (accepts : Text → Bool) (conn_open : ConnSender → Bool) (n : ℕ) (x : Site)
        (r : Site.Reach n x) (y : ClientSite.Site) (s : ClientSite.Reach configs y)
        (down up : Line crates)
        → n < 2 ^ 64
        → Slim crates x.session.sent
        → Slim crates y.sent
        → Wired crates configs n x r y s down up
        → (z : ClientSite.Site) × (t : ClientSite.Reach configs z) × (later : Line crates) × Wired
            crates configs n x r z t later up
          × Delivers crates configs x.session.sent accepts conn_open y s down z t later
          × ((p c : ℕ) → ClientGiven.received p c t ≡ chunks_read p c r)
    Wired-delivers accepts conn_open n x r y s down up small fit_down fit_up w =
        let (i, j, run, v, _) =
          Wired-Refines crates laws configs n x r y s down up small (Slim-Fit crates _ fit_down)
            (Slim-Fit crates _ fit_up) w in
        let fewer =
          Carries-length crates down.cipher.key x.session.sent i down.wire
            ((Run-IsTransferred configs 0 0 n x r y s i j small run).sent_by_server) v.carries in
        let (z, t, later, w', path, done, same) =
          drain accepts conn_open (length x.session.sent - down.wrote) n x r y s down up i fit_down
            v (omega (arith, fewer, v.counts)) w in
        (
          z,
          t,
          later,
          w',
          path,
          λ p c.
              drained-received n x r z t later up small fit_down
                (subst (Slim crates) (sym same) fit_up) w' done p c,
        )
