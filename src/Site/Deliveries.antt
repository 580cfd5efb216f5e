-- ===== src/Site/Deliveries.antt =====
-- What the sender of a connection has taken, in every interleaving of the main loop and the listeners.
use rfrp.Base.{
  ℕ, ◌^◌, ◌≤◌, ◌<◌, ◌≡◌, ◌≢◌, refl, sym, ap, ◌∙◌, inl, inr, Bool, true, false, [], Option, none,
  some, arith, ◌==◌, if◌then◌else◌, Option-cases, get_elem?,
}
use mathlib.Core.List.{append-nil}
use rfrp.Frame.{RfrpFrame, register, register_ack, control, data_frame}
use rfrp.Server
use rfrp.Server.{ConnSender, ProxyTask, Receivers, Session, on_frame, on_task}
use rfrp.Server.Invariant.{session_of}
use rfrp.Server.Service.{Service, serve, service_of, service_of-Provides}
use rfrp.Server.Routes.{on_frame-Provides}
use rfrp.Proxy
use rfrp.Proxy.{
  Listener, listen, handle_reg_frame, on_accept, on_permit, on_read, on_reader_end, accepted,
  granted, read, closed,
}
use rfrp.Streams.{stream, stream-snoc}
use rfrp.Streams.Outbound.{handed-serve}
use rfrp.Site.{
  Site, TaskState, spawned, listening, sender_of, begun, framed, began, served, Reach, here, next,
}
use rfrp.Site.Shares.{share-delivered}
use rfrp.Site.Asked.{accepts, asked, channels_of, Step-channels, Step-routing, accepts-other}
use rfrp.Site.Invariant.{IsJoined, handle_reg_frame-listens, Reach-IsJoined}
use rfrp.Site.Senders.{limited, entry_of_route, sender_of_injective, joined-IsSoleSender}

-- Senders still to be made have taken nothing, and the others what their connections were sent.
record IsHanded {n : ℕ} {x : Site} (r : Reach n x) : Type 0 where
  unused :
      (p k : ℕ)
      → p < 16
      → channels_of (x.tasks p) ≤ k
      → stream (sender_of p k) x.session.delivered ≡ []
  matched :
      (p c k : ℕ) (l : Listener)
      → x.tasks p ≡ listening l
      → l.routing c ≡ some k
      → stream (sender_of p k) x.session.delivered ≡ asked p c r

-- A sender that is on no route is handed nothing.
unrouted-serve :
    (r : Receivers) (k : ℕ) (f : RfrpFrame) (a : Service)
    → ((q j : ℕ) → a.route q j ≡ some k → ⊥)
    → stream k (serve r f a).handed ≡ stream k a.handed
unfolding serve
unrouted-serve r k (register i) a h = ground arith
unrouted-serve r k (register_ack x) a h = refl
unrouted-serve r k (control i) a h = ground arith
unrouted-serve r k (data_frame d) a h = elim (Option-cases (a.route d.proxy_id d.conn_id)) [
  | inl e ↦ rw (e, serve) refl
  | inr (s, e) ↦
      rw (e, serve)
        (ground (
          arith,
          append-nil (stream k a.handed),
          stream-snoc k s d.payload a.handed,
          h d.proxy_id d.conn_id,
        ))
]

framed-IsHanded :
    {n : ℕ} {x : Site} (v : IsJoined n x) (before : Reach n x) (r : Receivers) (f : RfrpFrame)
    (s : Session) (e : on_frame r f x.session ≡ Server.goes_on s)
    → IsHanded before
    → IsHanded (next before (framed r f x s e))
framed-IsHanded {n} {x} v before r f s e w = record {
  unused = λ p k below old.
      ap (stream (sender_of p k)) now
      ∙ unrouted-serve r (sender_of p k) f (service_of x.session) (λ q j h.
        let (l, i, at, entry, same) =
          entry_of_route v q j (sender_of p k) (x.tasks q) refl (sym (v.routes q j) ∙ h) in
        let (pq, ki) = sender_of_injective below (limited v q l at) same in
        omega (
          arith,
          old,
          ap (λ z. channels_of (x.tasks z)) pq,
          ap channels_of at,
          (v.live q l at).senders j i entry,
        ))
      ∙ w.unused p k below old;
  matched = λ p c k l at entry.
      let (routed, sole) = joined-IsSoleSender v p c k l at entry in
      ap (stream (sender_of p k)) now
      ∙ handed-serve r p c (sender_of p k) f (service_of x.session) (routed, sole)
      ∙ rw (w.matched p c k l at entry, routed) refl;
}
  where
    now : s.delivered ≡ (serve r f (service_of x.session)).handed
    now =
        ap (λ t. (session_of t).delivered) (sym e)
        ∙ (on_frame-Provides r f x.session (service_of x.session) v.coherent
            (service_of-Provides x.session)).handed

-- A task that begins has made no sender.
pub began-routing :
    (binds : ℕ → Bool) (tx_open : Bool) (t : ProxyTask) (o : Option Listener)
    → (handle_reg_frame binds tx_open t.client_info t.proxy_id).1 ≡ o
    → {l : Listener} {c k : ℕ} → begun o ≡ listening l
    → l.routing c ≡ some k
    → ⊥
began-routing binds tx_open t none e h entry = cc
began-routing binds tx_open t (some m) e {l} {c} h entry =
    let fresh : m.routing c ≡ none =
      ap (λ z. z.routing c) (handle_reg_frame-listens binds tx_open t e) in
    cc

-- A write to the tasks that another task shows through.
pub write_behind :
    {l : Listener} {a b : TaskState} (here : Bool)
    → (a ≡ listening l → ⊥)
    → (if here then a else b) ≡ listening l
    → b ≡ listening l
write_behind true f h = absurd (f h)
write_behind false f h = h

channels_of-write :
    (o : Option Listener) (b : TaskState) (here : Bool)
    → (here ≡ true → b ≡ spawned)
    → channels_of b ≤ channels_of (if here then begun o else b)
channels_of-write o b true h = omega (arith, ap channels_of (h refl))
channels_of-write o b false h = omega arith

began-IsHanded :
    {n : ℕ} {x : Site} (before : Reach n x) (binds : ℕ → Bool) (tx_open : Bool) (q : ℕ)
    (t : ProxyTask) (e : get_elem? x.session.proxy_tasks q ≡ some t) (at : x.tasks q ≡ spawned)
    → IsHanded before
    → IsHanded (next before (began binds tx_open q t x e at))
began-IsHanded {n} {x} before binds tx_open q t e at w = record {
  unused = λ p k below old. w.unused p k below (
      omega (
        arith,
        old,
        channels_of-write (handle_reg_frame binds tx_open t.client_info t.proxy_id).1 (x.tasks p)
            (p == q) (λ h. ground arith),
      ));
  matched = λ p c k l now entry.
      w.matched p c k l
        (write_behind (p == q) (λ h. began-routing binds tx_open t _ refl h entry) now) entry;
}

module _ {n : ℕ} {x : Site} (v : IsJoined n x) (before : Reach n x) (q : ℕ) {l m : Listener}
    (st : Proxy.Step l m) (at : x.tasks q ≡ listening l) (w : IsHanded before) where
  served_own :
      (c k : ℕ)
      → m.routing c ≡ some k
      → stream (sender_of q k) x.session.delivered
        ≡ (if accepts q c q st then [] else asked q c before)
  served_own c k entry = elim (Step-routing q st c k entry) [
    | inl (new, last) ↦ rw new (w.unused q k (limited v q l at) (omega (arith, ap channels_of at)))
    | inr (old, kept) ↦ rw old (w.matched q c k l at kept)
  ]

  served-channels :
      (b : TaskState) (here : Bool)
      → (here ≡ true → b ≡ listening l)
      → channels_of b ≤ channels_of (if here then listening m else b)
  served-channels b true h = omega (arith, ap channels_of (h refl), Step-channels st)
  served-channels b false h = omega arith

  served_each :
      (p c k : ℕ) (l' : Listener) (here : Bool)
      → (here ≡ true → p ≡ q)
      → (here ≡ false → p ≢ q)
      → (if here then listening m else x.tasks p) ≡ listening l'
      → l'.routing c ≡ some k
      → stream (sender_of p k) x.session.delivered
        ≡ (if accepts p c q st then [] else asked p c before)
  served_each p c k l' true same other now entry =
      let own : m ≡ l' = cc in rw (same refl) (served_own c k (ap (λ z. z.routing c) own ∙ entry))
  served_each p c k l' false same other now entry =
      rw (accepts-other p c q st (other refl)) (w.matched p c k l' now entry)

  served-IsHanded : IsHanded (next before (served q st x at))
  served-IsHanded = record {
    unused = λ p k below old.
        ap (stream (sender_of p k)) (share-delivered q st x.session)
        ∙ w.unused p k below
            (omega (arith, old, served-channels (x.tasks p) (p == q) (λ h. ground arith)));
    matched = λ p c k l' now entry.
        ap (stream (sender_of p k)) (share-delivered q st x.session)
        ∙ served_each p c k l' (p == q) (λ h. ground arith) (λ h. ground arith) now entry;
  }

Reach-IsHanded : {n : ℕ} {x : Site} → n < 2 ^ 64 → (r : Reach n x) → IsHanded r
Reach-IsHanded small here = record { unused = λ p k below old. refl; matched = λ p c k l at e. cc }
Reach-IsHanded small (next {n = n} before (framed r f x s e)) =
    framed-IsHanded (Reach-IsJoined n (omega arith) before) before r f s e
      (Reach-IsHanded (omega arith) before)
Reach-IsHanded small (next before (began binds tx_open q t x e at)) =
    began-IsHanded before binds tx_open q t e at (Reach-IsHanded (omega arith) before)
Reach-IsHanded small (next {n = n} before (served q st x at)) =
    served-IsHanded (Reach-IsJoined n (omega arith) before) before q st at
      (Reach-IsHanded (omega arith) before)

-- However the main loop, the listeners and the read tasks of a session interleave, over fewer than 2^64
-- steps: the sender that a listening proxy has for a connection has taken the payloads that the client
-- has sent to that connection of that proxy since it was accepted, all of them but those that came when
-- its receiver was gone, in their order, and no others.
pub Reach-asked :
    (n p c k : ℕ) (x : Site) (l : Listener) (r : Reach n x)
    → n < 2 ^ 64
    → x.tasks p ≡ listening l
    → l.routing c ≡ some k
    → stream (sender_of p k) x.session.delivered ≡ asked p c r
Reach-asked n p c k x l r small at entry = (Reach-IsHanded small r).matched p c k l at entry
