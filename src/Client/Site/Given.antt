-- ===== src/Client/Site/Given.antt =====
-- What the sender of a connection has taken, in every interleaving of the main loop and the tasks.
use rfrp.Base.{
  ℕ, ◌≡◌, refl, sym, ap, ◌∙◌, inl, inr, Bool, true, false, List, [], ◌++◌, Option, none, some,
  arith, Option-cases,
}
use mathlib.Core.List.{append_assoc}
use rfrp.Base.Dict.{Dict}
use rfrp.Config.{Text, ClientInfo}
use rfrp.Frame.{RfrpFrame, register, register_ack, control, data_frame}
use rfrp.Pump.Reading.{payload_of}
use rfrp.Client.{Session, ConnSender}
use rfrp.Client.Tunnel.{Tunnel, set_link, relay}
use rfrp.Client.Mirrors.{link_in}
use rfrp.Client.Site.{
  Site, reads_for, meanwhile, Step, framed, read, closed, pinged, Reach, here, next,
}
use rfrp.Client.Site.Streamed.{continued, relay-stream, relay-link}
use rfrp.Client.Site.Invariant.{moved, tunnel_of, Reach-IsTied}
use rfrp.Streams.{stream}

-- The sender that a session has for a connection of a proxy.
abbrev pub link_of : Session → ℕ → ℕ → Option ConnSender
link_of s p c = link_in (s.proxy_conns p) c s.conn_maps

-- The payloads that frames brought for a connection.
abbrev pub received :
    ℕ → ℕ → {configs : Dict ClientInfo} {x : Site} → Reach configs x → List (List ℕ)
received p c here = []
received p c (next r (framed accepts conn_open f x)) = received p c r ++ payload_of p c f
received p c (next r (read tx_open k q j bytes x h)) = received p c r
received p c (next r (closed k q j x h)) = received p c r
received p c (next r (pinged x)) = received p c r

-- Those that came since a frame last found no sender for it.
abbrev pub given : ℕ → ℕ → {configs : Dict ClientInfo} {x : Site} → Reach configs x → List (List ℕ)
given p c here = []
given p c (next r (framed accepts conn_open f x)) =
    continued (link_of x.session p c) (given p c r) (payload_of p c f)
given p c (next r (read tx_open k q j bytes x h)) = given p c r
given p c (next r (closed k q j x h)) = given p c r
given p c (next r (pinged x)) = given p c r

-- Those that had come when a frame last found no sender for it.
abbrev before : Option ConnSender → List (List ℕ) → List (List ℕ) → List (List ℕ)
before none all old = all
before (some k) all old = old

abbrev pub earlier :
    ℕ → ℕ → {configs : Dict ClientInfo} {x : Site} → Reach configs x → List (List ℕ)
earlier p c here = []
earlier p c (next r (framed accepts conn_open f x)) =
    before (link_of x.session p c) (received p c r) (earlier p c r)
earlier p c (next r (read tx_open k q j bytes x h)) = earlier p c r
earlier p c (next r (closed k q j x h)) = earlier p c r
earlier p c (next r (pinged x)) = earlier p c r

before-continued :
    (o : Option ConnSender) (all old older new : List (List ℕ))
    → all ≡ older ++ old
    → all ++ new ≡ before o all older ++ continued o old new
before-continued none all old older new e = refl
before-continued (some k) all old older new e = ap (λ l. l ++ new) e ∙ append_assoc older old new

-- Together they are all that came, with no gap.
pub given-received :
    (p c : ℕ) {configs : Dict ClientInfo} {x : Site} (r : Reach configs x)
    → received p c r ≡ earlier p c r ++ given p c r
given-received p c here = refl
given-received p c (next r (framed accepts conn_open f x)) =
    before-continued (link_of x.session p c) (received p c r) (given p c r) (earlier p c r)
      (payload_of p c f) (given-received p c r)
given-received p c (next r (read tx_open k q j bytes x h)) = given-received p c r
given-received p c (next r (closed k q j x h)) = given-received p c r
given-received p c (next r (pinged x)) = given-received p c r

relay-configs :
    (accepts : Text → Bool) (conn_open : ConnSender → Bool) (f : RfrpFrame) (t : Tunnel)
    → (relay (meanwhile accepts conn_open) f t).configs ≡ t.configs
unfolding relay
relay-configs accepts conn_open (register i) t = refl
relay-configs accepts conn_open (register_ack r) t = refl
relay-configs accepts conn_open (control i) t = refl
relay-configs accepts conn_open (data_frame d) t = elim (Option-cases (t.configs d.proxy_id)) [
  | inl e ↦ rw (e, relay) refl
  | inr (info, e) ↦ elim (Option-cases (t.link d.proxy_id d.conn_id)) [
    | inl k ↦ ground arith
    | inr (s, k) ↦ ground arith
  ]
]

moved-configs : {x y : Site} (st : Step x y) (t : Tunnel) → (moved st t).configs ≡ t.configs
moved-configs (framed accepts conn_open f x) t = relay-configs accepts conn_open f t
moved-configs (read true k p c bytes x h) t = refl
moved-configs (read false k p c bytes x h) t = refl
moved-configs (closed k p c x h) t = refl
moved-configs (pinged x) t = refl

tunnel_of-configs :
    {configs : Dict ClientInfo} {x : Site} (r : Reach configs x) → (tunnel_of r).configs ≡ configs
tunnel_of-configs here = refl
tunnel_of-configs (next r st) = moved-configs st (tunnel_of r) ∙ tunnel_of-configs r

-- A link that a read task's end leaves was there before.
kept_link :
    (q i p c k : ℕ) (t : Tunnel) → (set_link q i none t).link p c ≡ some k → t.link p c ≡ some k
kept_link q i p c k t h = ground arith

continued-same :
    (o o' : Option ConnSender) (old old' new : List (List ℕ))
    → o' ≡ o
    → ((k : ConnSender) → o ≡ some k → old ≡ old')
    → continued o old new ≡ continued o' old' new
continued-same none none old old' new e h = refl
continued-same none (some j) old old' new e h = cc
continued-same (some k) none old old' new e h = cc
continued-same (some k) (some j) old old' new e h = ap (λ l. l ++ new) (h k refl)

module _ (p c : ℕ) {configs : Dict ClientInfo} {info : ClientInfo}
    (known : configs p ≡ some info) where
  tunnel-given :
      {x : Site} (r : Reach configs x) (k : ℕ)
      → (tunnel_of r).link p c ≡ some k
      → stream k (tunnel_of r).passed ≡ given p c r
  tunnel-given here k h = cc
  tunnel-given (next r (framed accepts conn_open f x)) k h =
      let v = Reach-IsTied r in
      relay-stream accepts conn_open f (tunnel_of r) x.readers v.owned v.unused p c k
        (ap (λ g. g p) (tunnel_of-configs r) ∙ known) h
      ∙ continued-same ((tunnel_of r).link p c) (link_of x.session p c) _ _ (payload_of p c f)
          (v.mirrors.links p c)
          (λ j e.
            ap (λ i. stream i (tunnel_of r).passed)
              (sym (relay-link accepts conn_open f (tunnel_of r) p c j k e h))
            ∙ tunnel-given r j e)
  tunnel-given (next r (read true j q i bytes x g)) k h = tunnel-given r k h
  tunnel-given (next r (read false j q i bytes x g)) k h =
      tunnel-given r k (kept_link q i p c k (tunnel_of r) h)
  tunnel-given (next r (closed j q i x g)) k h =
      tunnel-given r k (kept_link q i p c k (tunnel_of r) h)
  tunnel-given (next r (pinged x)) k h = tunnel-given r k h

-- However the main loop, the read tasks and the heartbeat of the client interleave, whatever services do
-- and whichever connections fail: the sender that the client has for a connection of a registered proxy
-- has taken the payloads that came for it since there was last no sender, all of them, in order, and no
-- others.
pub Reach-given :
    (configs : Dict ClientInfo) (p c k : ℕ) (info : ClientInfo) (x : Site) (r : Reach configs x)
    → configs p ≡ some info
    → link_of x.session p c ≡ some k
    → stream k x.session.forwarded ≡ given p c r
Reach-given configs p c k info x r known h =
    let v = Reach-IsTied r in
    ap (stream k) v.mirrors.passed ∙ tunnel-given p c known r k (sym (v.mirrors.links p c) ∙ h)

-- However they interleave, and whatever fails: a connection that the client has a sender for has its own
-- read task running, spawned with that sender, and no other connection has that sender.
pub Reach-link :
    (configs : Dict ClientInfo) (p c k : ℕ) (x : Site)
    → Reach configs x
    → link_of x.session p c ≡ some k
    → (reads_for k p c x.readers ≡ true)
      × ((q j : ℕ) → link_of x.session q j ≡ some k → (p ≡ q) × (c ≡ j))
Reach-link configs p c k x r h =
    let v = Reach-IsTied r in
    let own = v.owned.linked p c k (sym (v.mirrors.links p c) ∙ h) in
    (
      own,
      λ q j g. v.owned.single p c q j k own (v.owned.linked q j k (sym (v.mirrors.links q j) ∙ g)),
    )
