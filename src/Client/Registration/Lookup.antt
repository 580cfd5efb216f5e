-- ===== src/Client/Registration/Lookup.antt =====
-- What the map of registered proxies holds, when the server gives each proxy an id of its own.
use rfrp.Base.{
  ℕ, zero, suc, ◌≡◌, refl, ◌∙◌, false, List, [], ◌∷◌, some, arith, get_elem?, map, ap, some_inj,
}
use rfrp.Config.{ClientInfo}
use rfrp.Proxy.{runs}
use rfrp.Proxy.Tasks.{IsDistinct}
use rfrp.Crypto.{Cipher}
use rfrp.Crypto.RoundTrip.{IsCipher}
use rfrp.Compress.{returns}
use rfrp.Codec.{Crates}
use rfrp.Codec.Laws.{AreCrates}
use rfrp.WriteTask.{write_loop}
use rfrp.WriteTask.Wire.{AllFit}
use rfrp.Client.Registration.{Registration, answered, registered, unregistered, register_all}
use rfrp.Client.Registration.Acks.{Grant, acks, infos_of, granted, assigned, register_all-acks}

-- The ids, in order.
abbrev pub ids_of : List Grant → List ℕ
ids_of [] = []
ids_of ((info, id) ∷ grants) = id ∷ ids_of grants

assigned-other :
    (grants : List Grant) (s : Registration) (id : ℕ)
    → runs id (ids_of grants) ≡ false
    → (assigned grants s).proxy_configs id ≡ s.proxy_configs id
unfolding runs
assigned-other [] s id h = refl
assigned-other ((info, k) ∷ grants) s id h =
    assigned-other grants (granted info k s) id (ground arith) ∙ ground arith

assigned-lookup :
    (grants : List Grant) (s : Registration) (i : ℕ) (info : ClientInfo) (id : ℕ)
    → IsDistinct (ids_of grants)
    → get_elem? grants i ≡ some (info, id)
    → (assigned grants s).proxy_configs id ≡ some info
assigned-lookup [] s i info id d h = cc
assigned-lookup ((k, n) ∷ grants) s zero info id d h =
    let same : k ≡ info = ap (λ g. g.0) (some_inj h) in
    let found : n ≡ id = ap (λ g. g.1) (some_inj h) in
    assigned-other grants (granted k n s) id (rw (← found) d.0) ∙ ground (arith, same, found)
assigned-lookup ((k, n) ∷ grants) s (suc i) info id d h =
    assigned-lookup grants (granted k n s) i info id d.1 h

module _ (crates : Crates) (laws : AreCrates crates) where
  -- When the server's write task acknowledges the proxies in their order, under different ids, the
  -- registration over its payloads succeeds, and then each proxy is found under its own id, as the
  -- client's configuration has it. Both ciphers have the same key, and each acknowledgement a
  -- MessagePack form of at most 64 MiB.
  pub register_all-lookup :
      (grants : List Grant) (c d : Cipher)
      → IsCipher c
      → d.key ≡ c.key
      → AllFit crates (acks grants)
      → IsDistinct (ids_of grants)
      → (compress : crates.deflate.State) (decompress : crates.inflate.State) (i : ℕ)
        (info : ClientInfo) (id : ℕ)
      → get_elem? grants i ≡ some (info, id)
      → (wire : List (List ℕ)) × (s : Registration) × (decomp_buf : List ℕ)
        × (decompress' : crates.inflate.State) × (write_loop crates (acks grants) c [] compress
            ≡ returns wire)
        × (register_all crates d (infos_of grants) (map answered wire) [] decompress unregistered
            ≡ returns (registered s decomp_buf decompress'))
        × (s.proxy_configs id ≡ some info)
  register_all-lookup grants c d h same fit distinct compress decompress i info id at =
      let (wire, decomp_buf', decompress', wrote, done) =
        register_all-acks crates laws grants c d h same fit [] [] compress decompress
          unregistered in
      (
        wire,
        assigned grants unregistered,
        decomp_buf',
        decompress',
        wrote,
        done,
        assigned-lookup grants unregistered i info id distinct at,
      )
