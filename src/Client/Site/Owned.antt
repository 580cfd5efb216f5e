-- ===== src/Client/Site/Owned.antt =====
-- Links and read tasks, on every frame and at every end of a task.
use rfrp.Base.{
  ℕ, ◌+◌, ◌<◌, ◌≡◌, refl, inl, inr, ◌⊎◌, Bool, true, false, List, [], ◌∷◌, ◌++◌, none, some, arith,
  if◌then◌else◌, length, drop, drop_all, drop-append, Option-cases,
}
use mathlib.Core.List.{append-nil}
use rfrp.Config.{Text, ClientInfo, DataInfo, client_getter, get_addr}
use rfrp.Frame.{RfrpFrame, register, register_ack, control, data_frame}
use rfrp.Client.{InternalConn, ConnSender}
use rfrp.Client.Tunnel.{Tunnel, set_link, enter, reach, relay}
use rfrp.Client.Site.{reads_for, leave, meanwhile}
use rfrp.Client.Site.Readers.{reads_for-append, reads_for-leave}

-- The read task of a link runs; a sender is of one connection; and senders yet to be made have no task.
pub record IsOwned (t : Tunnel) (rs : List InternalConn) : Type 0 where
  pub linked : (p c k : ℕ) → t.link p c ≡ some k → reads_for k p c rs ≡ true
  pub made : (p c k : ℕ) → reads_for k p c rs ≡ true → k < t.made
  pub single :
      (p c q j k : ℕ) → reads_for k p c rs ≡ true → reads_for k q j rs ≡ true → (p ≡ q) × (c ≡ j)

-- The read tasks that a change of the tunnel adds.
abbrev pub with_new : Tunnel → Tunnel → List InternalConn → List InternalConn
with_new t u rs = rs ++ drop (length t.connections) u.connections

pub drop-length : {A : Type 0} (xs : List A) → drop (length xs) xs ≡ []
drop-length xs = drop_all (length xs) xs (omega arith)

module _ {t : Tunnel} {rs : List InternalConn} (v : IsOwned t rs) where
  -- A link that goes leaves the others owned.
  pub unlinked-IsOwned : (p c : ℕ) → IsOwned (set_link p c none t) rs
  unlinked-IsOwned p c = record {
    linked = λ q j k h. ground (arith, v.linked q j k);
    made = v.made;
    single = v.single;
  }

  -- A read task that ends takes the link of its connection with it.
  pub end-IsOwned :
      (k p c : ℕ) → reads_for k p c rs ≡ true → IsOwned (set_link p c none t) (leave k rs)
  end-IsOwned k p c h = record {
    linked =
        λ q j i e. ground (arith, reads_for-leave i q j k rs, v.linked q j i, v.single q j p c k);
    made = λ q j i e. ground (arith, reads_for-leave i q j k rs, v.made q j i);
    single = λ q j r l i e f.
        ground (arith, reads_for-leave i q j k rs, reads_for-leave i r l k rs, v.single q j r l i);
  }

module _ (accepts : Text → Bool) (conn_open : ConnSender → Bool) (d : DataInfo) (info : ClientInfo)
    (t : Tunnel) (rs : List InternalConn) (v : IsOwned t rs) where
  conn : InternalConn
  conn = record {
    sender = t.made;
    addr = get_addr info;
    conn_id = d.conn_id;
    proxy_id = d.proxy_id;
  }

  opened-IsOwned :
      (u : Tunnel)
      → u.made ≡ t.made + 1
      → ((p c k : ℕ)
          → u.link p c ≡ some k
          → (t.link p c ≡ some k) ⊎ ((p ≡ d.proxy_id) × (c ≡ d.conn_id) × (k ≡ t.made)))
      → IsOwned u (rs ++ (conn ∷ []))
  unfolding conn reads_for
  opened-IsOwned u m l = record {
    linked = λ p c k h. elim (l p c k h) [
      | inl old ↦ ground (arith, reads_for-append k p c rs (conn ∷ []), v.linked p c k)
      | inr new ↦ ground (arith, reads_for-append k p c rs (conn ∷ []))
    ];
    made = λ p c k h. ground (arith, reads_for-append k p c rs (conn ∷ []), v.made p c k);
    single = λ p c q j k h g. ground (
      arith,
      reads_for-append k p c rs (conn ∷ []),
      reads_for-append k q j rs (conn ∷ []),
      v.single p c q j k,
      v.made p c k,
      v.made q j k,
    );
  }

  -- A payload for a connection that has a link.
  passed-IsOwned :
      (k : ℕ)
      → let u = reach (meanwhile accepts conn_open) d info (some k) t in IsOwned u (with_new t u rs)
  passed-IsOwned k = by_open (conn_open k)
    where
      by_open :
          (b : Bool)
          → let u : Tunnel =
              if b
              then record t { passed = t.passed ++ ((k, d.payload) ∷ []) }
              else set_link d.proxy_id d.conn_id none t in
            IsOwned u (with_new t u rs)
      by_open true =
          rw (drop-length t.connections, append-nil rs)
            (record { linked = v.linked; made = v.made; single = v.single })
      by_open false =
          rw (drop-length t.connections, append-nil rs) (unlinked-IsOwned v d.proxy_id d.conn_id)

  -- A payload for a connection that has none, when the service accepts.
  entered-IsOwned :
      let u = enter (meanwhile accepts conn_open) d info none t in IsOwned u (with_new t u rs)
  unfolding conn
  entered-IsOwned = by_open (conn_open t.made)
    where
      base : Tunnel
      base =
          set_link d.proxy_id d.conn_id (some t.made)
            (record t { made = t.made + 1; connections = t.connections ++ (conn ∷ []) })

      by_open :
          (b : Bool)
          → let u : Tunnel =
              if b
              then record base { passed = t.passed ++ ((t.made, d.payload) ∷ []) }
              else set_link d.proxy_id d.conn_id none base in
            IsOwned u (with_new t u rs)
      by_open true =
          rw (drop-append (length t.connections) t.connections (conn ∷ []) refl)
            (opened-IsOwned _ refl (λ p c k h. ground arith))
      by_open false =
          rw (drop-append (length t.connections) t.connections (conn ∷ []) refl)
            (opened-IsOwned _ refl (λ p c k h. ground arith))

  reach-IsOwned :
      let u = reach (meanwhile accepts conn_open) d info (t.link d.proxy_id d.conn_id) t in
      IsOwned u (with_new t u rs)
  reach-IsOwned = elim (Option-cases (t.link d.proxy_id d.conn_id)) [
    | inr (k, e) ↦ rw e (passed-IsOwned k)
    | inl e ↦ rw (e, e) (by_accepts (accepts (get_addr info)))
  ]
    where
      by_accepts :
          (b : Bool)
          → let u : Tunnel = if b then enter (meanwhile accepts conn_open) d info none t else t in
            IsOwned u (with_new t u rs)
      by_accepts true = entered-IsOwned
      by_accepts false = rw (drop-length t.connections, append-nil rs) v

pub relay-IsOwned :
    (accepts : Text → Bool) (conn_open : ConnSender → Bool) (f : RfrpFrame) (t : Tunnel)
    (rs : List InternalConn)
    → IsOwned t rs
    → let u = relay (meanwhile accepts conn_open) f t in IsOwned u (with_new t u rs)
unfolding relay
relay-IsOwned accepts conn_open (register i) t rs v =
    rw (drop-length t.connections, append-nil rs) v
relay-IsOwned accepts conn_open (register_ack r) t rs v =
    rw (drop-length t.connections, append-nil rs) v
relay-IsOwned accepts conn_open (control i) t rs v = rw (drop-length t.connections, append-nil rs) v
relay-IsOwned accepts conn_open (data_frame d) t rs v = elim (Option-cases (t.configs d.proxy_id)) [
  | inl e ↦ rw (e, drop-length t.connections, append-nil rs) v
  | inr (info, e) ↦ rw e (reach-IsOwned accepts conn_open d info t rs v)
]
