-- ===== src/Site/Shares.antt =====
-- What the steps of a task change in the session that shares its table and its channel.
use rfrp.Base.{
  ℕ, ◌<◌, ◌≡◌, refl, ◌∙◌, inl, inr, true, false, ◌&&◌, List, Option, none, some, arith, lt→ltb,
  ◌==◌, if◌then◌else◌, length, get_elem?, Option-cases,
}
use rfrp.Frame.{RfrpFrame}
use rfrp.Base.Dict.{Dict}
use rfrp.Server.{TableAddr, Session, ConnSender, on_task}
use rfrp.Server.Invariant.{IsCoherent, on_task-IsCoherent}
use rfrp.Server.Service.{route, reroute, service_of, service_of-Provides}
use rfrp.Server.Tasks.{on_task-Provides}
use rfrp.Proxy
use rfrp.Proxy.{
  Listener, listen, handle_reg_frame, on_accept, on_permit, on_read, on_reader_end, accepted,
  granted, read, closed,
}
use rfrp.Site.{sender_of, sends, share}

-- The sender that a task's own table has for a connection, under the numbering of all proxies.
abbrev pub renamed : ℕ → Option ℕ → Option ConnSender
renamed p none = none
renamed p (some k) = some (sender_of p k)

pub sends-IsCoherent :
    (frames : List RfrpFrame) {s : Session} → IsCoherent s → IsCoherent (sends frames s)
sends-IsCoherent frames v = record {
  counted = v.counted;
  limited = v.limited;
  fresh = v.fresh;
  routed = v.routed;
  assigned = v.assigned;
  cached = v.cached;
  tasks = v.tasks;
}

pub sends-route :
    (frames : List RfrpFrame) (s : Session) (p c : ℕ) → route (sends frames s) p c ≡ route s p c
unfolding route
sends-route frames s p c = refl

on_task-route :
    (p conn : ℕ) (entry : Option ConnSender) (s : Session)
    → IsCoherent s
    → p < length s.proxy_tasks
    → (q c : ℕ)
    → route (on_task p conn entry s) q c ≡ (if (q == p) && (c == conn) then entry else route s q c)
unfolding reroute
on_task-route p conn entry s v below q c =
    (on_task-Provides p conn entry s (service_of s) v (service_of-Provides s)).routes q c
    ∙ rw (lt→ltb p (length s.proxy_tasks) below) refl

-- What does not read the tables is kept.
pub on_task-keeps :
    {A : Type 0} (g : Session → A)
    → ((t : TableAddr → Dict ConnSender) (s : Session) → g (record s { tables = t }) ≡ g s)
    → (p conn : ℕ) (entry : Option ConnSender) (s : Session) → g (on_task p conn entry s) ≡ g s
unfolding on_task
on_task-keeps g keeps p conn entry s = elim (Option-cases (get_elem? s.proxy_tasks p)) [
  | inl e ↦ rw (e, on_task) refl
  | inr (t, e) ↦ rw (e, on_task) (keeps _ s)
]

pub share-IsCoherent :
    (p : ℕ) {l m : Listener} (st : Proxy.Step l m) (s : Session)
    → IsCoherent s
    → IsCoherent (share p st s)
share-IsCoherent p (accepted l e) s v = on_task-IsCoherent p _ _ s v
share-IsCoherent p (granted l c n w e) s v = v
share-IsCoherent p (read l true c bytes h) s v = sends-IsCoherent _ v
share-IsCoherent p (read l false c bytes h) s v = on_task-IsCoherent p _ _ s v
share-IsCoherent p (closed l c h) s v = on_task-IsCoherent p _ _ s v

pub share-proxy_tasks :
    (p : ℕ) {l m : Listener} (st : Proxy.Step l m) (s : Session)
    → (share p st s).proxy_tasks ≡ s.proxy_tasks
share-proxy_tasks p (accepted l e) s = on_task-keeps (λ z. z.proxy_tasks) (λ t z. refl) p _ _ s
share-proxy_tasks p (granted l c n w e) s = refl
share-proxy_tasks p (read l true c bytes h) s = refl
share-proxy_tasks p (read l false c bytes h) s =
    on_task-keeps (λ z. z.proxy_tasks) (λ t z. refl) p _ _ s
share-proxy_tasks p (closed l c h) s = on_task-keeps (λ z. z.proxy_tasks) (λ t z. refl) p _ _ s

-- Where the session routes to, once a listener that it agrees with has stepped.
pub share-route :
    (p : ℕ) {l m : Listener} (st : Proxy.Step l m) (s : Session)
    → IsCoherent s
    → p < length s.proxy_tasks
    → ((c : ℕ) → route s p c ≡ renamed p (l.routing c))
    → (q c : ℕ)
    → route (share p st s) q c ≡ (if q == p then renamed p (m.routing c) else route s q c)
unfolding on_accept on_permit on_read on_reader_end
share-route p (accepted l e) s v below agree q c =
    on_task-route p l.next_conn_id (some (sender_of p l.channels)) s v below q c
    ∙ ground (arith, agree c)
share-route p (granted l d n w e) s v below agree q c = ground (arith, agree c)
share-route p (read l true d bytes h) s v below agree q c =
    sends-route _ s q c ∙ ground (arith, agree c)
share-route p (read l false d bytes h) s v below agree q c =
    on_task-route p d none s v below q c ∙ ground (arith, agree c)
share-route p (closed l d h) s v below agree q c =
    on_task-route p d none s v below q c ∙ ground (arith, agree c)

pub share-delivered :
    (q : ℕ) {l m : Listener} (st : Proxy.Step l m) (s : Session)
    → (share q st s).delivered ≡ s.delivered
share-delivered q (accepted l e) s = on_task-keeps (λ z. z.delivered) (λ t z. refl) q _ _ s
share-delivered q (granted l c n w e) s = refl
share-delivered q (read l true c bytes h) s = refl
share-delivered q (read l false c bytes h) s =
    on_task-keeps (λ z. z.delivered) (λ t z. refl) q _ _ s
share-delivered q (closed l c h) s = on_task-keeps (λ z. z.delivered) (λ t z. refl) q _ _ s
