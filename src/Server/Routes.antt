-- ===== src/Server/Routes.antt =====
-- The arms of the main loop against the specification.
use rfrp.Base.{
  ℕ, ◌+◌, ◌≡◌, inl, inr, refl, ◌∙◌, ap, Bool, true, false, List, [], ◌∷◌, ◌++◌, Option, none, some,
  arith, leb, bytes_eq, if◌then◌else◌, length-append, Option-cases, Bool-cases,
}
use rfrp.Base.Dict.{empty, insert, write_at}
use rfrp.Config.{ClientInfo, ControlInfo, DataInfo}
use rfrp.Frame.{
  RfrpFrame, register, register_ack, control, data_frame, new_pong_frame, is_ping, ping_command,
  pong_command,
}
use rfrp.Server.{
  Session, TableAddr, ConnSender, Receivers, goes_on, breaks, max_proxies_per_client, send,
  on_register, on_control, find_sender, deliver, on_data, on_frame,
}
use rfrp.Server.Invariant.{IsCoherent, session_of}
use rfrp.Server.Service.{Service, Provides, route, reply, hand_over, serve}
use rfrp.Server.Lookup.{find_routing_lem, find_routing_keeps}

send-Provides :
    (r : Receivers) (f : RfrpFrame) {s : Session} {a : Service}
    → Provides s a
    → Provides (send r f s) (reply r f a)
unfolding send route
send-Provides r f {s} {a} p = by_open r.tx_open
  where
    by_open :
        (b : Bool)
        → Provides
            (if b then record s { sent = s.sent ++ (f ∷ []) } else s)
            (if b then record a { replies = a.replies ++ (f ∷ []) } else a)
    by_open true = record {
      proxies = p.proxies;
      routes = p.routes;
      replies = ap (λ l. l ++ (f ∷ [])) p.replies;
      handed = p.handed;
    }
    by_open false = p

deliver-Provides :
    (r : Receivers) (o : Option ConnSender) (payload : List ℕ) {s : Session} {a : Service}
    → Provides s a
    → Provides (deliver r o payload s) (hand_over r o payload a)
unfolding deliver route
deliver-Provides r none payload p = p
deliver-Provides r (some c) payload {s} {a} p = by_open (r.conn_open c)
  where
    by_open :
        (b : Bool)
        → Provides
            (if b then record s { delivered = s.delivered ++ ((c, payload) ∷ []) } else s)
            (if b then record a { handed = a.handed ++ ((c, payload) ∷ []) } else a)
    by_open true = record {
      proxies = p.proxies;
      routes = p.routes;
      replies = p.replies;
      handed = ap (λ l. l ++ ((c, payload) ∷ [])) p.handed;
    }
    by_open false = p

cached-Provides :
    (c : Option (ℕ × TableAddr)) {s : Session} {a : Service}
    → Provides s a
    → Provides (record s { cached_routing = c }) a
unfolding route
cached-Provides c p = record {
  proxies = p.proxies;
  routes = p.routes;
  replies = p.replies;
  handed = p.handed;
}

on_data-Provides :
    (r : Receivers) (d : DataInfo) {s : Session} {a : Service}
    → IsCoherent s
    → Provides s a
    → Provides (session_of (on_data r d s)) (hand_over r (a.route d.proxy_id d.conn_id) d.payload a)
unfolding on_data route
on_data-Provides r d {s} {a} v p =
    let (c, kept) = find_routing_keeps d.proxy_id s in
    rw (find_routing_lem d.proxy_id v, kept, ← p.routes d.proxy_id d.conn_id)
      (deliver-Provides r (route s d.proxy_id d.conn_id) d.payload (cached-Provides c p))

-- The new proxy has no connection yet, and the others keep theirs.
new_routes :
    {s : Session}
    → IsCoherent s
    → (id j : ℕ)
    → find_sender
        (insert s.next_proxy_id s.allocated s.proxy_routing id)
        j
        (write_at s.allocated empty s.tables)
      ≡ route s id j
unfolding route find_sender
new_routes {s} v id j = elim (Option-cases (s.proxy_routing id)) [
  | inl e ↦ ground arith
  | inr (a, e) ↦ ground (arith, v.routed id a e, v.fresh)
]

on_register-Provides :
    (r : Receivers) (c : ClientInfo) {s : Session} {a : Service}
    → IsCoherent s
    → Provides s a
    → Provides (session_of (on_register r c s)) (serve r (register c) a)
unfolding on_register serve
on_register-Provides r c {s} {a} v p = elim (Bool-cases (leb max_proxies_per_client a.proxies)) [
  | inl full ↦ rw (p.proxies, full) (send-Provides r _ p)
  | inr room ↦
      rw (p.proxies, room)
        (record {
          proxies = length-append s.proxy_tasks _ ∙ ap (λ n. n + 1) p.proxies;
          routes = λ id j. unfold route in new_routes v id j ∙ p.routes id j;
          replies = p.replies;
          handed = p.handed;
        })
]

on_control-Provides :
    (r : Receivers) (c : ControlInfo) {s : Session} {a : Service}
    → Provides s a
    → Provides (session_of (on_control r c s)) (serve r (control c) a)
unfolding on_control serve is_ping
on_control-Provides r c {s} {a} p =
    by_tests (bytes_eq c.command ping_command) (bytes_eq c.command pong_command) r.tx_open refl
  where
    by_tests :
        (ping pong up : Bool)
        → r.tx_open ≡ up
        → Provides
            (session_of (
              if ping
              then (if up then goes_on (send r new_pong_frame s) else breaks s)
              else if pong
              then goes_on s
              else goes_on s))
            (if ping then reply r new_pong_frame a else a)
    by_tests true pong true e = send-Provides r new_pong_frame p
    by_tests true pong false e = rw e p
    by_tests false true up e = p
    by_tests false false up e = p

-- A coherent session that provides a service goes on to provide it: each frame of the client changes
-- the session as it changes the service, where data goes to the sender of its proxy and connection,
-- whatever the cache holds.
pub on_frame-Provides :
    (r : Receivers) (f : RfrpFrame) (s : Session) (a : Service)
    → IsCoherent s
    → Provides s a
    → Provides (session_of (on_frame r f s)) (serve r f a)
unfolding on_frame
on_frame-Provides r (register c) s a v p = on_register-Provides r c v p
on_frame-Provides r (register_ack _) s a v p = unfold serve in p
on_frame-Provides r (control c) s a v p = on_control-Provides r c p
on_frame-Provides r (data_frame d) s a v p = unfold serve in on_data-Provides r d v p
