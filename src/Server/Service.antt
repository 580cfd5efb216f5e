-- ===== src/Server/Service.antt =====
-- A specification of the session that knows of no cache, no addresses and no shared tables.
use rfrp.Base.{
  arith, inl, inr, Option-cases, ℕ, ◌+◌, ◌≡◌, refl, false, ◌&&◌, List, [], ◌∷◌, ◌++◌, Option, none,
  some, leb, ltb, ◌==◌, if◌then◌else◌, length,
}
use rfrp.Frame.{
  RfrpFrame, register, register_ack, control, data_frame, new_reg_ack_frame, new_pong_frame,
  is_ping,
}
use rfrp.Server.{Session, ConnSender, Receivers, max_proxies_per_client, find_sender}

-- What a session promises: a number of proxies, a sender for each proxy and connection, the frames that
-- it has sent to the client, and what it has handed to external connections.
pub record Service : Type 0 where
  pub proxies : ℕ
  pub route : ℕ → ℕ → Option ConnSender
  pub replies : List RfrpFrame
  pub handed : List (ConnSender × List ℕ)

-- The sender that the session finds for a connection of a proxy, with the cache left aside.
unfoldable pub route : Session → ℕ → ℕ → Option ConnSender
unfolding find_sender
route s proxy_id conn_id = find_sender (s.proxy_routing proxy_id) conn_id s.tables

abbrev pub reply : Receivers → RfrpFrame → Service → Service
reply r f a = if r.tx_open then record a { replies = a.replies ++ (f ∷ []) } else a

abbrev pub hand_over : Receivers → Option ConnSender → List ℕ → Service → Service
hand_over r none payload a = a
hand_over r (some sender) payload a =
    if r.conn_open sender then record a { handed = a.handed ++ ((sender, payload) ∷ []) } else a

-- What a frame of the client asks of the service.
unfoldable pub serve : Receivers → RfrpFrame → Service → Service
serve r (register c) a =
    if leb max_proxies_per_client a.proxies
    then reply r (new_reg_ack_frame c false 0) a
    else record a { proxies = a.proxies + 1 }
serve r (control c) a = if is_ping (control c) then reply r new_pong_frame a else a
serve r (register_ack _) a = a
serve r (data_frame d) a = hand_over r (a.route d.proxy_id d.conn_id) d.payload a

-- The task of proxy `i` changes the route of one connection, and of nothing else.
unfoldable pub reroute : ℕ → ℕ → Option ConnSender → Service → Service
reroute i conn_id entry a =
    if ltb i a.proxies
    then record a { route = λ p j. if (p == i) && (j == conn_id) then entry else a.route p j }
    else a

pub record Provides (s : Session) (a : Service) : Type 0 where
  pub proxies : length s.proxy_tasks ≡ a.proxies
  pub routes : (proxy_id conn_id : ℕ) → route s proxy_id conn_id ≡ a.route proxy_id conn_id
  pub replies : s.sent ≡ a.replies
  pub handed : s.delivered ≡ a.handed

-- The service that a session provides as it stands.
abbrev pub service_of : Session → Service
service_of s = record {
  proxies = length s.proxy_tasks;
  route = route s;
  replies = s.sent;
  handed = s.delivered;
}

pub service_of-Provides : (s : Session) → Provides s (service_of s)
service_of-Provides s = record {
  proxies = refl;
  routes = λ p c. refl;
  replies = refl;
  handed = refl;
}

-- A frame changes no route.
pub serve-route : (r : Receivers) (f : RfrpFrame) (a : Service) → (serve r f a).route ≡ a.route
unfolding serve
serve-route r (register i) a = ground arith
serve-route r (register_ack x) a = refl
serve-route r (control i) a = ground arith
serve-route r (data_frame d) a = elim (Option-cases (a.route d.proxy_id d.conn_id)) [
  | inl e ↦ rw (e, serve) refl
  | inr (s, e) ↦ rw (e, serve) (ground arith)
]
