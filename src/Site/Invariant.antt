-- ===== src/Site/Invariant.antt =====
-- The session and the listeners agree on the routes, in every interleaving.
use rfrp.Base.{
  ℕ, ◌+◌, ◌^◌, ◌≤◌, ◌<◌, ◌≡◌, refl, sym, ap, ◌∙◌, inl, inr, Bool, true, false, List, Option, none,
  some, arith, ◌==◌, if◌then◌else◌, length, get_elem?-lt, Option-cases,
}
use rfrp.Base.Dict.{write_at}
use rfrp.Frame.{RfrpFrame, register, register_ack, control, data_frame}
use rfrp.Server
use rfrp.Server.{
  Session, ConnSender, ProxyTask, Receivers, Next, goes_on, on_frame, on_task,
  max_proxies_per_client,
}
use rfrp.Server.Invariant.{IsCoherent, session_of, start-IsCoherent, on_frame-IsCoherent}
use rfrp.Server.Service.{Service, route, serve, serve-route, service_of, service_of-Provides}
use rfrp.Server.Routes.{on_frame-Provides}
use rfrp.Proxy
use rfrp.Proxy.{
  Listener, listen, handle_reg_frame, on_accept, on_permit, on_read, on_reader_end, accepted,
  granted, read, closed,
}
use rfrp.Proxy.Live.{IsLive, Step-IsLive, listen-IsLive}
use rfrp.Site.Shares.{
  renamed, sends-IsCoherent, sends-route, share-IsCoherent, share-proxy_tasks, share-route,
}
use rfrp.Site.{
  Site, TaskState, spawned, refused, listening, start, sends, begun, share, Step, framed, began,
  served, Reach, here, next,
}

abbrev pub routed_by : ℕ → TaskState → ℕ → Option ConnSender
routed_by p spawned c = none
routed_by p refused c = none
routed_by p (listening l) c = renamed p (l.routing c)

-- The session is coherent, each listener is live and one of the session's tasks, and the session routes
-- a connection to the sender that the listener of the proxy has for it, and nowhere else.
pub record IsJoined (n : ℕ) (x : Site) : Type 0 where
  pub coherent : IsCoherent x.session
  pub live : (p : ℕ) (l : Listener) → x.tasks p ≡ listening l → IsLive n l
  pub counted : (p : ℕ) (l : Listener) → x.tasks p ≡ listening l → p < length x.session.proxy_tasks
  pub routes : (p c : ℕ) → route x.session p c ≡ routed_by p (x.tasks p) c

IsLive-later : {n : ℕ} {l : Listener} → IsLive n l → IsLive (n + 1) l
IsLive-later v = record {
  counted = omega (arith, v.counted);
  permitted = v.permitted;
  distinct = v.distinct;
  running = v.running;
  awaited = v.awaited;
  apart = v.apart;
  routed = v.routed;
  senders = v.senders;
  separate = v.separate;
}

pub start-IsJoined : IsJoined 0 start
unfolding route Server.find_sender
start-IsJoined = record {
  coherent = start-IsCoherent;
  live = λ p l h. cc;
  counted = λ p l h. cc;
  routes = λ p c. refl;
}

-- Frames.
serve-proxies : (r : Receivers) (f : RfrpFrame) (a : Service) → a.proxies ≤ (serve r f a).proxies
unfolding serve
serve-proxies r (register i) a = ground arith
serve-proxies r (register_ack x) a = omega arith
serve-proxies r (control i) a = ground arith
serve-proxies r (data_frame d) a = elim (Option-cases (a.route d.proxy_id d.conn_id)) [
  | inl e ↦ rw (e, serve) (omega arith)
  | inr (s, e) ↦ rw (e, serve) (ground arith)
]

on_frame-route :
    (r : Receivers) (f : RfrpFrame) (s : Session)
    → IsCoherent s
    → (p c : ℕ) → route (session_of (on_frame r f s)) p c ≡ route s p c
on_frame-route r f s v p c =
    (on_frame-Provides r f s (service_of s) v (service_of-Provides s)).routes p c
    ∙ ap (λ g. g p c) (serve-route r f (service_of s))

on_frame-proxy_tasks :
    (r : Receivers) (f : RfrpFrame) (s : Session)
    → IsCoherent s
    → length s.proxy_tasks ≤ length (session_of (on_frame r f s)).proxy_tasks
on_frame-proxy_tasks r f s v = omega (
  arith,
  (on_frame-Provides r f s (service_of s) v (service_of-Provides s)).proxies,
  serve-proxies r f (service_of s),
)

framed-IsJoined :
    (n : ℕ) (r : Receivers) (f : RfrpFrame) (x : Site)
    → IsJoined n x
    → IsJoined (n + 1) (record x { session = session_of (on_frame r f x.session) })
framed-IsJoined n r f x v = record {
  coherent = on_frame-IsCoherent r f x.session v.coherent;
  live = λ p l h. IsLive-later (v.live p l h);
  counted = λ p l h. omega (arith, v.counted p l h, on_frame-proxy_tasks r f x.session v.coherent);
  routes = λ p c. on_frame-route r f x.session v.coherent p c ∙ v.routes p c;
}

-- A task that begins.
pub handle_reg_frame-listens :
    (binds : ℕ → Bool) (tx_open : Bool) (t : ProxyTask) {l : Listener}
    → (handle_reg_frame binds tx_open t.client_info t.proxy_id).1 ≡ some l
    → l ≡ listen t.proxy_id
unfolding handle_reg_frame
handle_reg_frame-listens binds tx_open t h = ground arith

-- A write to the tasks that keeps them live.
write-IsLive :
    {n : ℕ} {l : Listener} {a b : TaskState} (here : Bool)
    → (a ≡ listening l → IsLive n l)
    → (b ≡ listening l → IsLive n l)
    → (if here then a else b) ≡ listening l
    → IsLive n l
write-IsLive true f g = f
write-IsLive false f g = g

began-IsJoined :
    (n : ℕ) (frames : List RfrpFrame) (p i : ℕ) (x : Site)
    → IsJoined n x
    → p < length x.session.proxy_tasks
    → x.tasks p ≡ spawned
    → (o : Option Listener) → ((l : Listener) → o ≡ some l → l ≡ listen i)
    → IsJoined
        (n + 1)
        (record { session = sends frames x.session; tasks = write_at p (begun o) x.tasks })
began-IsJoined n frames p i x v below e none h = record {
  coherent = sends-IsCoherent frames v.coherent;
  live = λ q m. write-IsLive (q == p) (λ k. cc) (λ k. IsLive-later (v.live q m k));
  counted = λ q l k. ground (arith, v.counted q l);
  routes = λ q c. sends-route frames x.session q c ∙ ground (arith, v.routes q c);
}
began-IsJoined n frames p i x v below e (some l) h = record {
  coherent = sends-IsCoherent frames v.coherent;
  live = λ q m.
      write-IsLive (q == p)
        (λ k. let at : m ≡ listen i = cc (h l refl) in rw at (listen-IsLive _ i))
        (λ k. IsLive-later (v.live q m k));
  counted = λ q m k. ground (arith, v.counted q m);
  routes = λ q c.
      sends-route frames x.session q c
      ∙ ground (arith, v.routes q c, ap (λ m. m.routing c) (h l refl));
}

served-IsJoined :
    (n p : ℕ) {l m : Listener} (st : Proxy.Step l m) (x : Site)
    → n + 1 < 2 ^ 64
    → IsJoined n x
    → x.tasks p ≡ listening l
    → IsJoined
        (n + 1)
        (record { session = share p st x.session; tasks = write_at p (listening m) x.tasks })
served-IsJoined n p {l} {m} st x small v at =
    let below = v.counted p l at in
    record {
      coherent = share-IsCoherent p st x.session v.coherent;
      live = λ q k.
          write-IsLive (q == p)
            (λ e. let same : k ≡ m = cc in rw same (Step-IsLive n small (v.live p l at) st))
            (λ e. IsLive-later (v.live q k e));
      counted = λ q k e. ground (arith, v.counted q k, below, share-proxy_tasks p st x.session);
      routes = λ q c.
          share-route p st x.session v.coherent below
            (λ d. v.routes p d ∙ ap (λ t. routed_by p t d) at) q c
          ∙ ground (arith, v.routes q c);
    }

Step-IsJoined : (n : ℕ) {x y : Site} → n + 1 < 2 ^ 64 → IsJoined n x → Step x y → IsJoined (n + 1) y
Step-IsJoined n small v (framed r f x s e) = rw (sym (ap session_of e)) (framed-IsJoined n r f x v)
Step-IsJoined n small v (began binds tx_open p t x e at) =
    began-IsJoined n _ p t.proxy_id x v (get_elem?-lt x.session.proxy_tasks p e) at _
      (λ l. handle_reg_frame-listens binds tx_open t)
Step-IsJoined n small v (served p st x at) = served-IsJoined n p st x small v at

-- However the main loop, the listeners and the read tasks of a session interleave, over fewer than 2^64
-- steps: the session is coherent, its listeners are live, and it routes a connection to the sender that
-- the listener of the proxy has for it, and to none where there is no such listener or entry.
pub Reach-IsJoined : (n : ℕ) {x : Site} → n < 2 ^ 64 → Reach n x → IsJoined n x
Reach-IsJoined n small here = start-IsJoined
Reach-IsJoined n small (next {n = k} r st) =
    Step-IsJoined k small (Reach-IsJoined k (omega arith) r) st
