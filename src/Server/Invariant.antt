-- ===== src/Server/Invariant.antt =====
-- The invariant of a server session, and that every step of the main loop keeps it.
use rfrp.Base.{
  ℕ, zero, suc, ◌≤◌, ◌<◌, ◌≡◌, ◌⊎◌, inl, inr, refl, Bool, true, false, List, [], ◌∷◌, ◌++◌, Option,
  none, some, arith, leb, ◌==◌, bytes_eq, if◌then◌else◌, length, get_elem?, length-append,
  Bool-cases, some_inj,
}
use rfrp.Base.Dict.{write_at}
use rfrp.Config.{ClientInfo, ControlInfo, DataInfo}
use rfrp.Frame.{
  RfrpFrame, register, register_ack, control, data_frame, new_pong_frame, ping_command,
  pong_command,
}
use rfrp.Server.{
  Session, ConnSender, ProxyTask, Receivers, Next, goes_on, breaks, start, max_proxies_per_client,
  send, on_register, on_control, find_routing, deliver, on_data, on_frame, on_task,
}

-- Proxy ids count up from 0 with no gap and stay below the limit, each with a table of its own that its
-- task holds too; the cache agrees with the map.
pub record IsCoherent (s : Session) : Type 0 where
  pub counted : length s.proxy_tasks ≡ s.next_proxy_id
  pub limited : s.next_proxy_id ≤ max_proxies_per_client
  pub fresh : s.allocated ≡ s.next_proxy_id
  pub routed : (id a : ℕ) → s.proxy_routing id ≡ some a → (a ≡ id) × (id < s.next_proxy_id)
  pub assigned : (id : ℕ) → id < s.next_proxy_id → s.proxy_routing id ≡ some id
  pub cached : (id a : ℕ) → s.cached_routing ≡ some (id, a) → s.proxy_routing id ≡ some a
  pub tasks :
      (i : ℕ) (t : ProxyTask)
      → get_elem? s.proxy_tasks i ≡ some t
      → (t.proxy_id ≡ i) × (t.routing ≡ i)

pub start-IsCoherent : IsCoherent start
start-IsCoherent = record {
  counted = refl;
  limited = omega arith;
  fresh = refl;
  routed = λ id a h. cc;
  assigned = λ id h. absurd (omega arith);
  cached = λ id a h. cc;
  tasks = λ i t h. cc;
}

-- The session that a step leaves, whether it goes on or breaks off.
abbrev pub session_of : Next → Session
session_of (goes_on s) = s
session_of (breaks s) = s

-- An element of a list with one more at its end is one of the list, or the last.
get_elem?-snoc_cases {ℓ} :
    {A : Type ℓ} (xs : List A) (x : A) (i : ℕ) {y : A}
    → get_elem? (xs ++ (x ∷ [])) i ≡ some y
    → (get_elem? xs i ≡ some y) ⊎ ((i ≡ length xs) × (x ≡ y))
get_elem?-snoc_cases [] x zero h = inr (refl, some_inj h)
get_elem?-snoc_cases [] x (suc i) h = cc
get_elem?-snoc_cases (z ∷ xs) x zero h = inl h
get_elem?-snoc_cases (z ∷ xs) x (suc i) h = elim (get_elem?-snoc_cases xs x i h) [
  | inl old ↦ inl old
  | inr (e, e') ↦ inr (omega arith, e')
]

send-IsCoherent :
    (r : Receivers) (f : RfrpFrame) {s : Session} → IsCoherent s → IsCoherent (send r f s)
unfolding send
send-IsCoherent r f {s} v = by_open r.tx_open
  where
    by_open : (b : Bool) → IsCoherent (if b then record s { sent = s.sent ++ (f ∷ []) } else s)
    by_open true = record {
      counted = v.counted;
      limited = v.limited;
      fresh = v.fresh;
      routed = v.routed;
      assigned = v.assigned;
      cached = v.cached;
      tasks = v.tasks;
    }
    by_open false = v

deliver-IsCoherent :
    (r : Receivers) (o : Option ConnSender) (payload : List ℕ) {s : Session}
    → IsCoherent s
    → IsCoherent (deliver r o payload s)
unfolding deliver
deliver-IsCoherent r none payload v = v
deliver-IsCoherent r (some sender) payload {s} v = by_open (r.conn_open sender)
  where
    by_open :
        (b : Bool)
        → IsCoherent
            (if b then record s { delivered = s.delivered ++ ((sender, payload) ∷ []) } else s)
    by_open true = record {
      counted = v.counted;
      limited = v.limited;
      fresh = v.fresh;
      routed = v.routed;
      assigned = v.assigned;
      cached = v.cached;
      tasks = v.tasks;
    }
    by_open false = v

find_routing-IsCoherent :
    (proxy_id : ℕ) {s : Session} → IsCoherent s → IsCoherent (find_routing proxy_id s).1
unfolding find_routing
find_routing-IsCoherent proxy_id {s} v = record {
  counted = ground (arith, v.counted);
  limited = ground (arith, v.limited);
  fresh = ground (arith, v.fresh);
  routed = λ id a h. ground (arith, v.routed id a);
  assigned = λ id h. ground (arith, v.assigned id);
  cached = λ id a h. ground (arith, v.cached id a);
  tasks = λ i t h. ground (arith, v.tasks i t);
}

room_below :
    {s : Session}
    → IsCoherent s
    → leb max_proxies_per_client (length s.proxy_tasks) ≡ false
    → s.next_proxy_id < max_proxies_per_client
room_below v room = ground (arith, v.counted)

on_register-IsCoherent :
    (r : Receivers) (c : ClientInfo) {s : Session}
    → IsCoherent s
    → IsCoherent (session_of (on_register r c s))
unfolding on_register
on_register-IsCoherent r c {s} v =
    elim (Bool-cases (leb max_proxies_per_client (length s.proxy_tasks))) [
      | inl full ↦ rw full (send-IsCoherent r _ v)
      | inr room ↦
          let task = new_task s.allocated s.next_proxy_id in
          let below = room_below v room in
          rw room (record {
            counted = omega (arith, length-append s.proxy_tasks (task ∷ []), v.counted);
            limited = omega arith;
            fresh = omega (arith, v.fresh);
            routed = λ id a h. ground (arith, v.routed id a, v.fresh);
            assigned = λ id h. ground (arith, v.assigned id, v.fresh);
            cached = λ id a h. ground (arith, v.cached id a, v.routed id a, v.fresh);
            tasks = λ i t h. elim (get_elem?-snoc_cases s.proxy_tasks task i h) [
              | inl old ↦ v.tasks i t old
              | inr (at, e) ↦ ground (arith, v.counted, v.fresh)
            ];
          })
    ]
  where
    new_task : ℕ → ℕ → ProxyTask
    new_task a id = record { client_info = c; routing = a; proxy_id = id }

on_control-IsCoherent :
    (r : Receivers) (c : ControlInfo) {s : Session}
    → IsCoherent s
    → IsCoherent (session_of (on_control r c s))
unfolding on_control
on_control-IsCoherent r c {s} v =
    by_tests (bytes_eq c.command ping_command) (bytes_eq c.command pong_command) r.tx_open
  where
    by_tests :
        (ping pong up : Bool)
        → IsCoherent (
            session_of (
              if ping
              then (if up then goes_on (send r new_pong_frame s) else breaks s)
              else if pong
              then goes_on s
              else goes_on s))
    by_tests true pong true = send-IsCoherent r new_pong_frame v
    by_tests true pong false = v
    by_tests false true up = v
    by_tests false false up = v

on_data-IsCoherent :
    (r : Receivers) (d : DataInfo) {s : Session}
    → IsCoherent s
    → IsCoherent (session_of (on_data r d s))
unfolding on_data
on_data-IsCoherent r d v = deliver-IsCoherent r _ d.payload (find_routing-IsCoherent d.proxy_id v)

-- Each frame that the client may send, in any state, leaves the session coherent: at most 16 proxies,
-- ids without a gap, no two proxies with one table, and a cache that agrees with the map.
pub on_frame-IsCoherent :
    (r : Receivers) (f : RfrpFrame) (s : Session)
    → IsCoherent s
    → IsCoherent (session_of (on_frame r f s))
unfolding on_frame
on_frame-IsCoherent r (register c) s v = on_register-IsCoherent r c v
on_frame-IsCoherent r (register_ack a) s v = v
on_frame-IsCoherent r (control c) s v = on_control-IsCoherent r c v
on_frame-IsCoherent r (data_frame d) s v = on_data-IsCoherent r d v

pub on_task-IsCoherent :
    (i conn_id : ℕ) (entry : Option ConnSender) (s : Session)
    → IsCoherent s
    → IsCoherent (on_task i conn_id entry s)
unfolding on_task
on_task-IsCoherent i conn_id entry s v = by_task (get_elem? s.proxy_tasks i)
  where
    by_task :
        (o : Option ProxyTask)
        → IsCoherent (elim o [
          | none ↦ s
          | some t ↦ record s {
            tables =
                write_at t.routing
                  (λ j. if j == conn_id then entry else s.tables t.routing j)
                  s.tables;
          }
        ])
    by_task none = v
    by_task (some t) = record {
      counted = v.counted;
      limited = v.limited;
      fresh = v.fresh;
      routed = v.routed;
      assigned = v.assigned;
      cached = v.cached;
      tasks = v.tasks;
    }
