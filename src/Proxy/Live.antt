-- ===== src/Proxy/Live.antt =====
-- What holds of a listener in every interleaving of its loop and its read tasks.
use rfrp.Base.{
  ℕ, ◌+◌, ◌^◌, ◌≤◌, ◌<◌, ◌≡◌, refl, Bool, true, false, ◌||◌, List, Option, none, some, arith, ◌==◌,
  length,
}
use rfrp.Proxy.{
  Listener, listen, max_concurrent_external_conns, on_accept, on_permit, on_read, on_reader_end,
  runs, Step, accepted, granted, read, closed, Reach, here, next,
}
use rfrp.Proxy.Tasks.{IsDistinct, runs-leave, leave-IsDistinct, length-leave}

abbrev pub is_some {ℓ} : {A : Type ℓ} → Option A → Bool
is_some none = false
is_some (some a) = true

abbrev pub awaits : Option ℕ → ℕ → Bool
awaits none d = false
awaits (some c) d = c == d

-- Permits are neither lost nor made; the table has an entry for the connections that have a read task
-- or wait for one, and for no others; and no two connections share a sender.
pub record IsLive (steps : ℕ) (l : Listener) : Type 0 where
  pub counted : l.next_conn_id ≤ steps
  pub permitted : l.permits + length l.readers ≡ max_concurrent_external_conns
  pub distinct : IsDistinct l.readers
  pub running : (c : ℕ) → runs c l.readers ≡ true → c < l.next_conn_id
  pub awaited : (c : ℕ) → l.waiting ≡ some c → c < l.next_conn_id
  pub apart : (c : ℕ) → l.waiting ≡ some c → runs c l.readers ≡ false
  pub routed : (c : ℕ) → is_some (l.routing c) ≡ runs c l.readers || awaits l.waiting c
  pub senders : (c s : ℕ) → l.routing c ≡ some s → s < l.channels
  pub separate : (c d s : ℕ) → l.routing c ≡ some s → l.routing d ≡ some s → c ≡ d

pub listen-IsLive : (n p : ℕ) → IsLive n (listen p)
unfolding runs
listen-IsLive n p = record {
  counted = omega arith;
  permitted = refl;
  distinct = tt;
  running = λ c h. cc;
  awaited = λ c h. cc;
  apart = λ c h. cc;
  routed = λ c. refl;
  senders = λ c s h. cc;
  separate = λ c d s h k. cc;
}

module _ (n : ℕ) (l : Listener) (v : IsLive n l) where
  on_accept-IsLive : n + 1 < 2 ^ 64 → l.waiting ≡ none → IsLive (n + 1) (on_accept l)
  unfolding on_accept
  on_accept-IsLive small e = record {
    counted = omega (arith, v.counted);
    permitted = v.permitted;
    distinct = v.distinct;
    running = λ c h. omega (arith, v.counted, v.running c h);
    awaited = λ c h. ground (arith, v.counted);
    apart = λ c h. ground (arith, v.running c);
    routed = λ c. ground (arith, v.routed c, v.running c);
    senders = λ c s h. ground (arith, v.senders c s);
    separate = λ c d s h k. ground (arith, v.separate c d s, v.senders c s, v.senders d s);
  }

  on_permit-IsLive :
      (c m : ℕ) → l.waiting ≡ some c → l.permits ≡ m + 1 → IsLive (n + 1) (on_permit c m l)
  unfolding on_permit runs
  on_permit-IsLive c m w e = record {
    counted = omega (arith, v.counted);
    permitted = omega (arith, v.permitted);
    distinct = (v.apart c w, v.distinct);
    running = λ d h. ground (arith, v.running d, v.awaited c w);
    awaited = λ d h. cc;
    apart = λ d h. cc;
    routed = λ d. ground (arith, v.routed d);
    senders = v.senders;
    separate = v.separate;
  }

  on_reader_end-IsLive : (c : ℕ) → runs c l.readers ≡ true → IsLive (n + 1) (on_reader_end c l)
  unfolding on_reader_end
  on_reader_end-IsLive c h = record {
    counted = omega (arith, v.counted);
    permitted = omega (arith, v.permitted, length-leave c l.readers v.distinct h);
    distinct = leave-IsDistinct c l.readers v.distinct;
    running = λ d k. ground (arith, v.running d, runs-leave c d l.readers);
    awaited = v.awaited;
    apart = λ d k. ground (arith, v.apart d, runs-leave c d l.readers);
    routed = λ d. ground (arith, v.routed d, runs-leave c d l.readers, v.apart c);
    senders = λ d s k. ground (arith, v.senders d s);
    separate = λ d e s k j. ground (arith, v.separate d e s);
  }

  on_read-IsLive :
      (tx_open : Bool) (c : ℕ) (bytes : List ℕ)
      → runs c l.readers ≡ true
      → IsLive (n + 1) (on_read tx_open c bytes l)
  unfolding on_read
  on_read-IsLive false c bytes h = on_reader_end-IsLive c h
  on_read-IsLive true c bytes h = record {
    counted = omega (arith, v.counted);
    permitted = v.permitted;
    distinct = v.distinct;
    running = v.running;
    awaited = v.awaited;
    apart = v.apart;
    routed = v.routed;
    senders = v.senders;
    separate = v.separate;
  }

pub Step-IsLive :
    (n : ℕ) {l m : Listener} → n + 1 < 2 ^ 64 → IsLive n l → Step l m → IsLive (n + 1) m
Step-IsLive n small v (accepted l e) = on_accept-IsLive n l v small e
Step-IsLive n small v (granted l c m w e) = on_permit-IsLive n l v c m w e
Step-IsLive n small v (read l tx_open c bytes h) = on_read-IsLive n l v tx_open c bytes h
Step-IsLive n small v (closed l c h) = on_reader_end-IsLive n l v c h

-- However the loop and its read tasks interleave, over fewer than 2^64 steps: the permits and the read
-- tasks together are 1024, no connection has two tasks, the routing table has an entry exactly for the
-- connections that have a read task or wait for one, and no two entries hold the same sender.
pub Reach-IsLive : (p n : ℕ) {l : Listener} → n < 2 ^ 64 → Reach (listen p) n l → IsLive n l
Reach-IsLive p n small here = listen-IsLive 0 p
Reach-IsLive p n small (next {n = k} r st) =
    Step-IsLive k small (Reach-IsLive p k (omega arith) r) st

-- A new connection never takes the place of another one in the routing table, over fewer than 2^64
-- steps.
Reach-on_accept :
    (p n : ℕ) {l : Listener}
    → n < 2 ^ 64
    → Reach (listen p) n l
    → l.waiting ≡ none
    → l.routing l.next_conn_id ≡ none
Reach-on_accept p n {l} small r e =
    let v = Reach-IsLive p n small r in
    ground (arith, v.routed l.next_conn_id, v.running l.next_conn_id)
