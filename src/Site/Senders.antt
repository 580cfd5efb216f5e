-- ===== src/Site/Senders.antt =====
-- Which sender the main loop finds for a connection, in every interleaving with the listeners.
use rfrp.Base.{
  ℕ, ◌^◌, ◌<◌, ◌≡◌, refl, sym, ap, ◌∙◌, inl, inr, ◌||◌, Option, none, some, arith, Option-cases,
}
use rfrp.Server.{Session, ConnSender, find_routing, find_sender}
use rfrp.Server.Invariant.{IsCoherent}
use rfrp.Server.Lookup.{find_routing_lem, find_routing_keeps}
use rfrp.Server.Service.{route, service_of}
use rfrp.Proxy.{Listener, runs}
use rfrp.Proxy.Live.{is_some, awaits}
use rfrp.Streams.Outbound.{IsSoleSender}
use rfrp.Site.{Site, TaskState, spawned, refused, listening, sender_of, Reach}
use rfrp.Site.Shares.{renamed}
use rfrp.Site.Invariant.{IsJoined, routed_by, Reach-IsJoined}

-- The numbers of two proxies' senders differ.
pub sender_of_injective :
    {p q j k : ℕ} → p < 16 → q < 16 → sender_of p k ≡ sender_of q j → (p ≡ q) × (k ≡ j)
sender_of_injective a b e = (omega arith, omega arith)

is_some-renamed : (p : ℕ) (o : Option ℕ) → is_some (renamed p o) ≡ is_some o
is_some-renamed p none = refl
is_some-renamed p (some k) = refl

-- What the main loop finds, through the cache, is the route.
find_sender-route :
    (p c : ℕ) (s : Session)
    → IsCoherent s
    → find_sender (find_routing p s).0 c (find_routing p s).1.tables ≡ route s p c
unfolding route
find_sender-route p c s v =
    let (cache, kept) = find_routing_keeps p s in rw (find_routing_lem p v, kept) refl

module _ {n : ℕ} {x : Site} (v : IsJoined n x) where
  pub limited : (p : ℕ) (l : Listener) → x.tasks p ≡ listening l → p < 16
  limited p l h = omega (arith, v.counted p l h, v.coherent.counted, v.coherent.limited)

  -- A route to a sender is an entry of the listener of the proxy.
  pub entry_of_route :
      (q j : ℕ) (s : ConnSender) (t : TaskState)
      → x.tasks q ≡ t
      → routed_by q t j ≡ some s
      → (l : Listener) × (k : ℕ) × (x.tasks q ≡ listening l)
        × (l.routing j ≡ some k)
        × (s ≡ sender_of q k)
  entry_of_route q j s spawned at h = cc
  entry_of_route q j s refused at h = cc
  entry_of_route q j s (listening l) at h = elim (Option-cases (l.routing j)) [
    | inl e ↦ cc (ap (renamed q) e)
    | inr (k, e) ↦ (l, k, at, e, cc (ap (renamed q) e))
  ]

  pub joined-IsSoleSender :
      (p c k : ℕ) (l : Listener)
      → x.tasks p ≡ listening l
      → l.routing c ≡ some k
      → IsSoleSender p c (sender_of p k) (service_of x.session)
  joined-IsSoleSender p c k l at e = (
    v.routes p c ∙ ap (λ t. routed_by p t c) at ∙ ap (renamed p) e,
    λ q j h.
        let (l', k', at', e', same) =
          entry_of_route q j (sender_of p k) (x.tasks q) refl (sym (v.routes q j) ∙ h) in
        let (pq, kk) = sender_of_injective (limited p l at) (limited q l' at') same in
        (pq, ground (arith, (v.live p l at).separate c j k)),
  )

-- However the main loop, the listeners and the read tasks of a session interleave, over fewer than 2^64
-- steps: where the main loop looks for the sender of a connection, through its cache, it finds the one
-- that the listener of the proxy has entered for it, and it finds one exactly when the connection has a
-- read task or waits for one.
pub Reach-find_sender :
    (n p c : ℕ) (x : Site) (l : Listener)
    → n < 2 ^ 64
    → Reach n x
    → x.tasks p ≡ listening l
    → let (routing, s) = find_routing p x.session in
      let found = find_sender routing c s.tables in
      (found ≡ renamed p (l.routing c)) × (is_some found ≡ runs c l.readers || awaits l.waiting c)
Reach-find_sender n p c x l small r at =
    let v = Reach-IsJoined n small r in
    let found =
      find_sender-route p c x.session v.coherent ∙ v.routes p c ∙ ap (λ t. routed_by p t c) at in
    (found, ap is_some found ∙ is_some-renamed p (l.routing c) ∙ (v.live p l at).routed c)
