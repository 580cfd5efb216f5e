-- ===== src/Server/Lookup.antt =====
-- The lookup of a routing table, which goes through the cache.
use rfrp.Base.{
  ℕ, ◌≡◌, inl, inr, refl, Bool, true, false, Option, none, some, arith, ◌==◌, if◌then◌else◌,
  Option-cases,
}
use rfrp.Server.{Session, TableAddr, find_routing}
use rfrp.Server.Invariant.{IsCoherent}

-- The cache gives what the map gives, and finding a table leaves all else as it is.
pub find_routing_lem :
    (proxy_id : ℕ) {s : Session}
    → IsCoherent s
    → (find_routing proxy_id s).0 ≡ s.proxy_routing proxy_id
unfolding find_routing
find_routing_lem proxy_id {s} v = elim (Option-cases s.cached_routing) [
  | inl e ↦ ground arith
  | inr ((id, a), e) ↦ ground (arith, v.cached id a)
]

-- Finding a table may change the cache, and changes nothing else.
pub find_routing_keeps :
    (proxy_id : ℕ) (s : Session)
    → (c : Option (ℕ × TableAddr)) × ((find_routing proxy_id s).1 ≡ record s { cached_routing = c })
unfolding find_routing
find_routing_keeps proxy_id s = by_cache s.cached_routing (s.proxy_routing proxy_id)
  where
    by_cache :
        (c : Option (ℕ × TableAddr)) (o : Option TableAddr)
        → (c' : Option (ℕ × TableAddr)) × (let looked_up : Option TableAddr × Session = elim o [
          | none ↦ (none, s)
          | some rt ↦ (some rt, record s { cached_routing = some (proxy_id, rt) })
        ] in
            let found : Option TableAddr × Session = elim c [
              | none ↦ looked_up
              | some (id, rt) ↦ if id == proxy_id then (some rt, s) else looked_up
            ] in
            found.1 ≡ record s { cached_routing = c' })
    by_cache none none = (s.cached_routing, refl)
    by_cache none (some rt) = (some (proxy_id, rt), refl)
    by_cache (some (id, a)) o = by_test (id == proxy_id) o
      where
        by_test :
            (b : Bool) (o : Option TableAddr)
            → (c' : Option (ℕ × TableAddr)) × (let looked_up : Option TableAddr × Session = elim o [
              | none ↦ (none, s)
              | some rt ↦ (some rt, record s { cached_routing = some (proxy_id, rt) })
            ] in
                let found : Option TableAddr × Session = if b then (some a, s) else looked_up in
                found.1 ≡ record s { cached_routing = c' })
        by_test true o = (s.cached_routing, refl)
        by_test false none = (s.cached_routing, refl)
        by_test false (some rt) = (some (proxy_id, rt), refl)
