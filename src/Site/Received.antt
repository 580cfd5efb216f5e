-- ===== src/Site/Received.antt =====
-- Which connections a server has accepted, and what frames brought for them.
use rfrp.Base.{
  ℕ, ◌+◌, ◌^◌, ◌≤◌, ◌<◌, ◌≡◌, refl, ap, Bool, true, false, List, [], ◌++◌, Option, none, some,
  arith, ◌==◌, if◌then◌else◌,
}
use rfrp.Pump.Reading.{payload_of}
use rfrp.Proxy
use rfrp.Proxy.{
  Listener, listen, on_accept, on_permit, on_read, on_reader_end, runs, accepted, granted, read,
  closed,
}
use rfrp.Proxy.Live.{IsLive}
use rfrp.Proxy.Reads.{chunk_of}
use rfrp.Server.{ConnSender}
use rfrp.Server.Service.{route}
use rfrp.Site.Asked.{taken_by, asked}
use rfrp.Pump.Payloads.{append-eq-nil}
use rfrp.Site.{
  Site, TaskState, spawned, refused, listening, framed, began, served, Reach, here, next,
}
use rfrp.Site.Invariant.{Reach-IsJoined}
use rfrp.Site.Reads.{chunks_read}

-- The payloads that frames brought for a connection.
abbrev pub received : ℕ → ℕ → {n : ℕ} {x : Site} → Reach n x → List (List ℕ)
received p c here = []
received p c (next before (framed r f x s e)) = received p c before ++ payload_of p c f
received p c (next before (began binds tx_open q t x e at)) = received p c before
received p c (next before (served q st x at)) = received p c before

-- The first connection id that a task has not given out.
abbrev pub next_of : TaskState → ℕ
next_of spawned = 0
next_of refused = 0
next_of (listening l) = l.next_conn_id

Step-next_conn_id :
    {n : ℕ} {l m : Listener}
    → n + 1 < 2 ^ 64
    → IsLive n l
    → Proxy.Step l m
    → l.next_conn_id ≤ m.next_conn_id
unfolding on_accept on_permit on_read on_reader_end
Step-next_conn_id small v (accepted l e) = omega (arith, v.counted)
Step-next_conn_id small v (granted l c m w e) = omega arith
Step-next_conn_id small v (read l true c bytes h) = omega arith
Step-next_conn_id small v (read l false c bytes h) = omega arith
Step-next_conn_id small v (closed l c h) = omega arith

-- Nothing is read from a connection that is yet to be accepted.
Step-chunk_of :
    {n : ℕ} {l m : Listener} (c : ℕ)
    → IsLive n l
    → (st : Proxy.Step l m) → l.next_conn_id ≤ c
    → chunk_of c st ≡ []
Step-chunk_of c v (accepted l e) h = refl
Step-chunk_of c v (granted l d m w e) h = refl
Step-chunk_of c v (read l true d bytes g) h = ground (arith, v.running d)
Step-chunk_of c v (read l false d bytes g) h = refl
Step-chunk_of c v (closed l d g) h = refl

next_of-write :
    (l m : Listener) (here : Bool) (b : TaskState)
    → l.next_conn_id ≤ m.next_conn_id
    → (here ≡ true → b ≡ listening l)
    → next_of b ≤ next_of (if here then listening m else b)
next_of-write l m true b le h = omega (arith, ap next_of (h refl))
next_of-write l m false b le h = omega arith

next_of-begun :
    (here : Bool) (a b : TaskState)
    → (here ≡ true → b ≡ spawned)
    → next_of b ≤ next_of (if here then a else b)
next_of-begun true a b h = omega (arith, ap next_of (h refl))
next_of-begun false a b h = omega arith

pub chunks_read-unaccepted :
    (n p c : ℕ) (x : Site) (r : Reach n x)
    → n < 2 ^ 64
    → next_of (x.tasks p) ≤ c
    → chunks_read p c r ≡ []
chunks_read-unaccepted n p c x here small h = refl
chunks_read-unaccepted n p c x (next {n = m} before (framed r f y s e)) small h =
    chunks_read-unaccepted m p c y before (omega arith) h
chunks_read-unaccepted n p c x (next {n = m} before (began binds tx_open q t y e at)) small h =
    chunks_read-unaccepted m p c y before (omega arith)
      (omega (arith, next_of-begun (p == q) _ (y.tasks p) (λ g. ground arith)))
chunks_read-unaccepted n p c x (next {n = m} before (served q {l} {m = l'} st y at)) small h =
    let live = (Reach-IsJoined m (omega arith) before).live q l at in
    let le = Step-next_conn_id small live st in
    let below : next_of (y.tasks p) ≤ c =
      omega (arith, next_of-write l l' (p == q) (y.tasks p) le (λ g. ground arith)) in
    ground (
      arith,
      chunks_read-unaccepted m p c y before (omega arith) below,
      Step-chunk_of c live st,
      ap next_of at,
    )

-- The receiver behind each sender was there whenever a frame was handled.
abbrev pub IsOpen : {n : ℕ} {x : Site} → Reach n x → Type 0
IsOpen here = Unit
IsOpen (next r (framed rc f x s e)) = IsOpen r × ((k : ConnSender) → rc.conn_open k ≡ true)
IsOpen (next r (began binds tx_open p t x e at)) = IsOpen r
IsOpen (next r (served p st x at)) = IsOpen r

pub asked-unreceived :
    (p c : ℕ) {n : ℕ} {x : Site} (r : Reach n x) → received p c r ≡ [] → asked p c r ≡ []
asked-unreceived p c here h = refl
asked-unreceived p c (next r (framed rc f x s e)) h =
    let (old, new) = append-eq-nil (received p c r) (payload_of p c f) h in
    rw (asked-unreceived p c r old, new) (by_route (route x.session p c))
  where
    by_route : (o : Option ConnSender) → taken_by rc o [] ≡ []
    by_route none = refl
    by_route (some k) = ground arith
asked-unreceived p c (next r (began binds tx_open q t x e at)) h = asked-unreceived p c r h
asked-unreceived p c (next r (served q st x at)) h = ground (arith, asked-unreceived p c r h)
