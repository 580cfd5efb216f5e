-- ===== src/Client/Mirrors.antt =====
-- A session of the client and the tunnel that it stands for, and what the small steps do to both.
use rfrp.Base.{
  ℕ, ◌+◌, ◌<◌, ◌≡◌, inl, inr, refl, ap, Bool, true, false, List, [], ◌∷◌, ◌++◌, Option, none, some,
  arith, ◌==◌, if◌then◌else◌, Option-cases, Bool-cases,
}
use rfrp.Base.Dict.{Dict, empty, insert, remove, write_at}
use rfrp.Config.{client_getter}
use rfrp.Client.{Session, World, ConnSender, ConnsAddr, on_read_end, find_conns, forward}
use rfrp.Client.Tunnel.{Tunnel, set_link, pass}

-- The sender that the session has for a connection of a proxy.
unfoldable pub link_in : Option ConnsAddr → ℕ → (ConnsAddr → Dict ConnSender) → Option ConnSender
link_in none c maps = none
link_in (some a) c maps = maps a c

-- Each proxy has a map of its own, the cache agrees with the map of maps, and all else is the tunnel's.
pub record Mirrors (s : Session) (t : Tunnel) : Type 0 where
  pub bounded : (p a : ℕ) → s.proxy_conns p ≡ some a → a < s.allocated
  pub separate : (p q a : ℕ) → s.proxy_conns p ≡ some a → s.proxy_conns q ≡ some a → p ≡ q
  pub cached : (p a : ℕ) → s.cached_conns ≡ some (p, a) → s.proxy_conns p ≡ some a
  pub configs : (p : ℕ) → s.proxy_configs p ≡ t.configs p
  pub links : (p c : ℕ) → link_in (s.proxy_conns p) c s.conn_maps ≡ t.link p c
  pub made : s.channels ≡ t.made
  pub connections : s.opened ≡ t.connections
  pub passed : s.forwarded ≡ t.passed

module _ {s : Session} {t : Tunnel} (m : Mirrors s t) where
  -- A write into the map of a proxy is a change of one link.
  pub Mirrors-write :
      (p a c : ℕ) (o : Option ConnSender)
      → s.proxy_conns p ≡ some a
      → Mirrors
          (record s {
            conn_maps = write_at a (λ j. if j == c then o else s.conn_maps a j) s.conn_maps;
          })
          (set_link p c o t)
  unfolding link_in
  Mirrors-write p a c o e = record {
    bounded = m.bounded;
    separate = m.separate;
    cached = m.cached;
    configs = m.configs;
    links = λ q j. elim (Option-cases (s.proxy_conns q)) [
      | inl n ↦ ground (arith, m.links q j)
      | inr (b, n) ↦ ground (arith, m.links q j, m.separate p q b)
    ];
    made = m.made;
    connections = m.connections;
    passed = m.passed;
  }

  -- The link of a proxy that has a map is what the map holds.
  pub link_at : (p a c : ℕ) → s.proxy_conns p ≡ some a → s.conn_maps a c ≡ t.link p c
  unfolding link_in
  link_at p a c e = ground (arith, m.links p c)

  pub on_read_end-Mirrors : (p c : ℕ) → Mirrors (on_read_end p c s) (set_link p c none t)
  unfolding on_read_end
  on_read_end-Mirrors p c = elim (Option-cases (s.proxy_conns p)) [
    | inr (a, e) ↦ rw (e, on_read_end) (Mirrors-write p a c none e)
    | inl e ↦
        rw (e, on_read_end)
          (record {
            bounded = m.bounded;
            separate = m.separate;
            cached = m.cached;
            configs = m.configs;
            links = λ q j. unfold link_in in ground (arith, m.links q j);
            made = m.made;
            connections = m.connections;
            passed = m.passed;
          })
  ]

  -- A new map for a proxy that has none is empty, as the links of that proxy are.
  new_map-Mirrors :
      (p : ℕ)
      → s.proxy_conns p ≡ none
      → Mirrors
          (record s {
            conn_maps = write_at s.allocated empty s.conn_maps;
            allocated = s.allocated + 1;
            proxy_conns = insert p s.allocated s.proxy_conns;
            cached_conns = some (p, s.allocated);
          })
          t
  unfolding link_in
  new_map-Mirrors p e = record {
    bounded = λ q a h. ground (arith, m.bounded q a);
    separate = λ q r a h k. ground (arith, m.separate q r a, m.bounded q a, m.bounded r a);
    cached = λ q a h. ground arith;
    configs = m.configs;
    links = λ q j. elim (Option-cases (s.proxy_conns q)) [
      | inl n ↦ ground (arith, m.links q j)
      | inr (b, n) ↦ ground (arith, m.links q j, m.bounded q b n)
    ];
    made = m.made;
    connections = m.connections;
    passed = m.passed;
  }

  recache-Mirrors :
      (p a : ℕ) → s.proxy_conns p ≡ some a → Mirrors (record s { cached_conns = some (p, a) }) t
  recache-Mirrors p a e = record {
    bounded = m.bounded;
    separate = m.separate;
    cached = λ q b h. ground arith;
    configs = m.configs;
    links = m.links;
    made = m.made;
    connections = m.connections;
    passed = m.passed;
  }

  pub forward-Mirrors :
      (w : World) (p a c sender : ℕ) (payload : List ℕ)
      → s.proxy_conns p ≡ some a
      → Mirrors (forward w a c (some sender) payload s) (pass w p c sender payload t)
  unfolding forward
  forward-Mirrors w p a c sender payload e = by_open (w.conn_open sender)
    where
      by_open :
          (b : Bool)
          → Mirrors
              (if b
                then record s { forwarded = s.forwarded ++ ((sender, payload) ∷ []) }
                else record s { conn_maps = write_at a (remove c (s.conn_maps a)) s.conn_maps })
              (if b
                then record t { passed = t.passed ++ ((sender, payload) ∷ []) }
                else set_link p c none t)
      by_open true = record {
        bounded = m.bounded;
        separate = m.separate;
        cached = m.cached;
        configs = m.configs;
        links = m.links;
        made = m.made;
        connections = m.connections;
        passed = ap (λ l. l ++ ((sender, payload) ∷ [])) m.passed;
      }
      by_open false = Mirrors-write p a c none e

-- Looking for a proxy's map finds it or makes it, and keeps the tunnel.
pub find_conns-Mirrors :
    (p : ℕ) {s : Session} {t : Tunnel}
    → Mirrors s t
    → ((find_conns p s).1.proxy_conns p ≡ some (find_conns p s).0) × Mirrors (find_conns p s).1 t
unfolding find_conns
find_conns-Mirrors p {s} {t} m = by_cache s.cached_conns (s.proxy_conns p) refl refl
  where
    looked_up : Option ConnsAddr → ConnsAddr × Session
    looked_up o = elim o [
      | some a ↦ (a, record s { cached_conns = some (p, a) })
      | none ↦ (
        s.allocated,
        record s {
          conn_maps = write_at s.allocated empty s.conn_maps;
          allocated = s.allocated + 1;
          proxy_conns = insert p s.allocated s.proxy_conns;
          cached_conns = some (p, s.allocated);
        },
      )
    ]

    by_map :
        (o : Option ConnsAddr)
        → s.proxy_conns p ≡ o
        → ((looked_up o).1.proxy_conns p ≡ some (looked_up o).0) × Mirrors (looked_up o).1 t
    by_map none e = (ground arith, new_map-Mirrors m p e)
    by_map (some a) e = (e, recache-Mirrors m p a e)

    by_cache :
        (k : Option (ℕ × ConnsAddr)) (o : Option ConnsAddr)
        → s.cached_conns ≡ k
        → s.proxy_conns p ≡ o
        → let r : ConnsAddr × Session = elim k [
          | none ↦ looked_up o
          | some (id, a) ↦ if id == p then (a, s) else looked_up o
        ] in
          (r.1.proxy_conns p ≡ some r.0) × Mirrors r.1 t
    by_cache none o ek eo = by_map o eo
    by_cache (some (id, a)) o ek eo = elim (Bool-cases (id == p)) [
      | inl same ↦ rw same (ground (arith, m.cached id a ek), m)
      | inr other ↦ rw other (by_map o eo)
    ]
