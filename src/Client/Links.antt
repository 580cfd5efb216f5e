-- ===== src/Client/Links.antt =====
-- The client's session keeps its tunnel on every frame.
use rfrp.Base.{
  ℕ, ◌+◌, ◌≡◌, inl, inr, refl, ◌∙◌, ap, Bool, true, false, ◌&&◌, List, [], ◌∷◌, ◌++◌, Option, none,
  some, ◌==◌, if◌then◌else◌, Option-cases,
}
use mathlib.Core.Path.{ap₂, subst}
use rfrp.Base.Dict.{Dict, insert, write_at}
use rfrp.Config.{ClientInfo, DataInfo, client_getter, get_addr}
use rfrp.Frame.{RfrpFrame, register, register_ack, control, data_frame}
use rfrp.Client.{
  Session, World, ConnSender, ConnsAddr, start, on_read_end, on_read_ends, find_conns, enter_conn,
  get_or_create_internal_conn, forward, on_data, on_frame,
}
use rfrp.Client.Tunnel.{Tunnel, start_tunnel, set_link, unlink_all, pass, enter, reach, relay}
use rfrp.Client.Mirrors.{
  link_in, Mirrors, Mirrors-write, link_at, on_read_end-Mirrors, forward-Mirrors,
  find_conns-Mirrors,
}

pub on_read_ends-Mirrors :
    (ends : List (ℕ × ℕ)) {s : Session} {t : Tunnel}
    → Mirrors s t
    → Mirrors (on_read_ends ends s) (unlink_all ends t)
unfolding on_read_ends
on_read_ends-Mirrors [] m = m
on_read_ends-Mirrors ((p, c) ∷ ends) m = on_read_ends-Mirrors ends (on_read_end-Mirrors m p c)

on_read_end-conns : (p c : ℕ) (s : Session) → (on_read_end p c s).proxy_conns ≡ s.proxy_conns
unfolding on_read_end
on_read_end-conns p c s = elim (Option-cases (s.proxy_conns p)) [
  | inl e ↦ rw (e, on_read_end)
  | inr (a, e) ↦ rw (e, on_read_end)
]

on_read_ends-conns :
    (ends : List (ℕ × ℕ)) (s : Session) → (on_read_ends ends s).proxy_conns ≡ s.proxy_conns
unfolding on_read_ends
on_read_ends-conns [] s = refl
on_read_ends-conns ((p, c) ∷ ends) s =
    on_read_ends-conns ends (on_read_end p c s) ∙ on_read_end-conns p c s

module _ (w : World) (d : DataInfo) (info : ClientInfo) where
  -- The session and the tunnel once a new connection has been entered.
  abbrev with_conn : ConnsAddr → Session → Session
  with_conn a s = record s {
    channels = s.channels + 1;
    conn_maps = write_at a (insert d.conn_id s.channels (s.conn_maps a)) s.conn_maps;
    opened =
        s.opened
        ++ (record {
          sender = s.channels;
          addr = get_addr info;
          conn_id = d.conn_id;
          proxy_id = d.proxy_id;
        }
            ∷ []);
  }

  abbrev with_link : Tunnel → Tunnel
  with_link t = set_link d.proxy_id d.conn_id (some t.made) (record t {
    made = t.made + 1;
    connections =
        t.connections
        ++ (record {
          sender = t.made;
          addr = get_addr info;
          conn_id = d.conn_id;
          proxy_id = d.proxy_id;
        }
            ∷ []);
  })

  with_conn-Mirrors :
      (a : ConnsAddr) {s : Session} {t : Tunnel}
      → Mirrors s t
      → s.proxy_conns d.proxy_id ≡ some a
      → Mirrors (with_conn a s) (with_link t)
  with_conn-Mirrors a {s} {t} m e =
      let written = Mirrors-write m d.proxy_id a d.conn_id (some s.channels) e in
      record {
        bounded = m.bounded;
        separate = m.separate;
        cached = m.cached;
        configs = m.configs;
        links = λ q j.
            written.links q j
            ∙ ap (λ n. if (q == d.proxy_id) && (j == d.conn_id) then some n else t.link q j) m.made;
        made = ap (λ n. n + 1) m.made;
        connections =
            ap₂
              (λ l n.
                l
                ++ (record {
                  sender = n;
                  addr = get_addr info;
                  conn_id = d.conn_id;
                  proxy_id = d.proxy_id;
                }
                    ∷ []))
              m.connections m.made;
        passed = m.passed;
      }

  counted-Mirrors :
      {s : Session} {t : Tunnel}
      → Mirrors s t
      → Mirrors (record s { channels = s.channels + 1 }) (record t { made = t.made + 1 })
  counted-Mirrors m = record {
    bounded = m.bounded;
    separate = m.separate;
    cached = m.cached;
    configs = m.configs;
    links = m.links;
    made = ap (λ n. n + 1) m.made;
    connections = m.connections;
    passed = m.passed;
  }

  -- Entering a connection and forwarding to it.
  enter-Mirrors :
      (a : ConnsAddr) {s : Session} {t : Tunnel}
      → Mirrors s t
      → s.proxy_conns d.proxy_id ≡ some a
      → Mirrors
          (forward w a d.conn_id
            (enter_conn a d.conn_id info d.proxy_id s).0
            d.payload
            (enter_conn a d.conn_id info d.proxy_id s).1)
          (enter w d info (t.link d.proxy_id d.conn_id) t)
  unfolding enter_conn
  enter-Mirrors a {s} {t} m e = elim (Option-cases (s.conn_maps a d.conn_id)) [
    | inr (sender, x) ↦
        rw (← link_at m d.proxy_id a d.conn_id e, enter_conn, x)
          (forward-Mirrors (counted-Mirrors m) w d.proxy_id a d.conn_id sender d.payload e)
    | inl x ↦
        rw (← link_at m d.proxy_id a d.conn_id e, enter_conn, x)
          (subst
            (λ n.
              Mirrors (forward w a d.conn_id (some s.channels) d.payload (with_conn a s))
                (pass w d.proxy_id d.conn_id n d.payload (with_link t)))
            m.made
            (forward-Mirrors (with_conn-Mirrors a m e) w d.proxy_id a d.conn_id s.channels d.payload
              e))
  ]

  reach-Mirrors :
      (a : ConnsAddr) {s : Session} {t : Tunnel}
      → Mirrors s t
      → s.proxy_conns d.proxy_id ≡ some a
      → Mirrors
          (forward w a d.conn_id
            (get_or_create_internal_conn w a d.conn_id info d.proxy_id s).0
            d.payload
            (get_or_create_internal_conn w a d.conn_id info d.proxy_id s).1)
          (reach w d info (t.link d.proxy_id d.conn_id) t)
  unfolding get_or_create_internal_conn
  reach-Mirrors a {s} {t} m e = elim (Option-cases (s.conn_maps a d.conn_id)) [
    | inr (sender, x) ↦
        rw (← link_at m d.proxy_id a d.conn_id e, get_or_create_internal_conn, x)
          (forward-Mirrors m w d.proxy_id a d.conn_id sender d.payload e)
    | inl x ↦
        rw (← link_at m d.proxy_id a d.conn_id e, get_or_create_internal_conn, x)
          (by_answer (w.accepts (get_addr info)))
  ]
    where
      s' : Session
      s' = on_read_ends w.ended s

      t' : Tunnel
      t' = unlink_all w.ended t

      by_answer :
          (b : Bool)
          → let r : Option ConnSender × Session =
              if b then enter_conn a d.conn_id info d.proxy_id s' else (none, s') in
            Mirrors
              (forward w a d.conn_id r.0 d.payload r.1)
              (if b then enter w d info (t'.link d.proxy_id d.conn_id) t' else t')
      by_answer true =
          enter-Mirrors a (on_read_ends-Mirrors w.ended m) (rw (on_read_ends-conns w.ended s) e)
      by_answer false = unfold forward in on_read_ends-Mirrors w.ended m

-- Data from the server, through any cache and any maps, does to the session what it does to the tunnel:
-- it goes to the connection of its proxy and id, which is opened if there is none, at the address of
-- the proxy's own entry; a proxy that is not registered is left alone, and so are all other links but
-- those whose service ended meanwhile. No other frame does anything.
pub on_frame-Mirrors :
    (w : World) (f : RfrpFrame) (s : Session) (t : Tunnel)
    → Mirrors s t
    → Mirrors (on_frame w f s) (relay w f t)
unfolding on_frame relay
on_frame-Mirrors w (register c) s t m = m
on_frame-Mirrors w (register_ack r) s t m = m
on_frame-Mirrors w (control c) s t m = m
on_frame-Mirrors w (data_frame d) s t m = elim (Option-cases (s.proxy_configs d.proxy_id)) [
  | inl e ↦ unfold on_data in rw (← m.configs d.proxy_id, on_data, e) m
  | inr (info, e) ↦
      let (found, m') = find_conns-Mirrors d.proxy_id m in
      unfold on_data in
      rw (← m.configs d.proxy_id, on_data, e)
        (reach-Mirrors w d info (find_conns d.proxy_id s).0 m' found)
]

-- A session starts as a tunnel with no links.
pub start-Mirrors : (configs : Dict ClientInfo) → Mirrors (start configs) (start_tunnel configs)
unfolding link_in
start-Mirrors configs = record {
  bounded = λ p a h. cc;
  separate = λ p q a h k. cc;
  cached = λ p a h. cc;
  configs = λ p. refl;
  links = λ p c. refl;
  made = refl;
  connections = refl;
  passed = refl;
}
