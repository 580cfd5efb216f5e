-- ===== src/Client/Site/Streamed.antt =====
-- What the sender of a link has taken, on every frame.
use rfrp.Base.{
  ℕ, ◌+◌, ◌≤◌, ◌≡◌, sym, inl, inr, Bool, true, false, List, [], ◌∷◌, ◌++◌, Option, none, some,
  arith, if◌then◌else◌, Option-cases,
}
use mathlib.Core.List.{append-nil}
use mathlib.Core.Path.{subst}
use rfrp.Config.{Text, ClientInfo, DataInfo, client_getter, get_addr}
use rfrp.Frame.{RfrpFrame, register, register_ack, control, data_frame}
use rfrp.Pump.Reading.{payload_of}
use rfrp.Client.{InternalConn, ConnSender}
use rfrp.Client.Tunnel.{Tunnel, set_link, enter, reach, relay_to, relay}
use rfrp.Client.Site.{meanwhile}
use rfrp.Client.Site.Owned.{IsOwned}
use rfrp.Streams.{stream, stream-snoc}

-- What the sender of a link has taken after a frame, from what it had taken and from whether there was a
-- link before.
abbrev pub continued : Option ConnSender → List (List ℕ) → List (List ℕ) → List (List ℕ)
continued none old new = new
continued (some k) old new = old ++ new

-- Senders yet to be made have taken nothing.
abbrev pub IsUnused : Tunnel → Type 0
IsUnused t = (k : ℕ) → t.made ≤ k → stream k t.passed ≡ []

module _ (accepts : Text → Bool) (conn_open : ConnSender → Bool) (d : DataInfo) (info : ClientInfo)
    (t : Tunnel) (rs : List InternalConn) (v : IsOwned t rs) (w : IsUnused t) (p c k : ℕ) where
  passed-stream :
      (j : ℕ) (b : Bool)
      → t.link d.proxy_id d.conn_id ≡ some j
      → let u : Tunnel =
          if b
          then record t { passed = t.passed ++ ((j, d.payload) ∷ []) }
          else set_link d.proxy_id d.conn_id none t in
        u.link p c ≡ some k
        → stream k u.passed
          ≡ continued (t.link p c) (stream k t.passed) (payload_of p c (data_frame d))
  passed-stream j true e h = rw h (
      ground (
        arith,
        stream-snoc k j d.payload t.passed,
        append-nil (stream k t.passed),
        v.linked p c k,
        v.linked d.proxy_id d.conn_id j,
        v.single p c d.proxy_id d.conn_id k,
      ))
  passed-stream j false e h =
      let old : t.link p c ≡ some k = ground arith in
      rw old (ground (arith, append-nil (stream k t.passed)))

  entered-stream :
      (cs : List InternalConn) (b : Bool)
      → t.link d.proxy_id d.conn_id ≡ none
      → let base : Tunnel =
          set_link d.proxy_id d.conn_id
            (some t.made)
            (record t { made = t.made + 1; connections = cs }) in
        let u : Tunnel =
          if b
          then record base { passed = t.passed ++ ((t.made, d.payload) ∷ []) }
          else set_link d.proxy_id d.conn_id none base in
        u.link p c ≡ some k
        → stream k u.passed
          ≡ continued (t.link p c) (stream k t.passed) (payload_of p c (data_frame d))
  entered-stream cs true e h = ground (
    arith,
    stream-snoc k t.made d.payload t.passed,
    append-nil (stream k t.passed),
    w t.made,
    v.linked p c k,
    v.made p c k,
  )
  entered-stream cs false e h = ground (arith, append-nil (stream k t.passed))

  reach-stream :
      let u = reach (meanwhile accepts conn_open) d info (t.link d.proxy_id d.conn_id) t in
      u.link p c ≡ some k
      → stream k u.passed
        ≡ continued (t.link p c) (stream k t.passed) (payload_of p c (data_frame d))
  reach-stream = elim (Option-cases (t.link d.proxy_id d.conn_id)) [
    | inr (j, e) ↦ rw e (passed-stream j (conn_open j) e)
    | inl e ↦ rw (e, e) (by_accepts e (accepts (get_addr info)))
  ]
    where
      by_accepts :
          t.link d.proxy_id d.conn_id ≡ none
          → (b : Bool)
          → let u : Tunnel = if b then enter (meanwhile accepts conn_open) d info none t else t in
            u.link p c ≡ some k
            → stream k u.passed
              ≡ continued (t.link p c) (stream k t.passed) (payload_of p c (data_frame d))
      by_accepts e true h = entered-stream _ (conn_open t.made) e h
      by_accepts e false h = ground (arith, append-nil (stream k t.passed))

module _ (accepts : Text → Bool) (conn_open : ConnSender → Bool) (d : DataInfo) (info : ClientInfo)
    (t : Tunnel) (rs : List InternalConn) (v : IsOwned t rs) (w : IsUnused t) where
  passed-IsUnused :
      (j : ℕ)
      → t.link d.proxy_id d.conn_id ≡ some j
      → IsUnused (record t { passed = t.passed ++ ((j, d.payload) ∷ []) })
  passed-IsUnused j e k below = ground (
    arith,
    stream-snoc k j d.payload t.passed,
    w k,
    v.linked d.proxy_id d.conn_id j,
    v.made d.proxy_id d.conn_id j,
  )

  reach-IsUnused :
      IsUnused (reach (meanwhile accepts conn_open) d info (t.link d.proxy_id d.conn_id) t)
  reach-IsUnused = elim (Option-cases (t.link d.proxy_id d.conn_id)) [
    | inr (j, e) ↦ rw e (by_link j e (conn_open j))
    | inl e ↦ rw (e, e) (by_accepts (accepts (get_addr info)))
  ]
    where
      by_link :
          (j : ℕ)
          → t.link d.proxy_id d.conn_id ≡ some j
          → (b : Bool)
          → IsUnused (
              if b
              then record t { passed = t.passed ++ ((j, d.payload) ∷ []) }
              else set_link d.proxy_id d.conn_id none t)
      by_link j e true = passed-IsUnused j e
      by_link j e false = w

      by_open :
          (cs : List InternalConn) (b : Bool)
          → let base : Tunnel =
              set_link d.proxy_id d.conn_id
                (some t.made)
                (record t { made = t.made + 1; connections = cs }) in
            IsUnused (
              if b
              then record base { passed = t.passed ++ ((t.made, d.payload) ∷ []) }
              else set_link d.proxy_id d.conn_id none base)
      by_open cs true = λ k below. ground (arith, stream-snoc k t.made d.payload t.passed, w k)
      by_open cs false = λ k below. w k (omega arith)

      by_accepts :
          (b : Bool) → IsUnused (if b then enter (meanwhile accepts conn_open) d info none t else t)
      by_accepts true = by_open _ (conn_open t.made)
      by_accepts false = w

pub relay-stream :
    (accepts : Text → Bool) (conn_open : ConnSender → Bool) (f : RfrpFrame) (t : Tunnel)
    (rs : List InternalConn)
    → IsOwned t rs
    → IsUnused t
    → (p c k : ℕ) {info : ClientInfo} → t.configs p ≡ some info
    → let u = relay (meanwhile accepts conn_open) f t in
      u.link p c ≡ some k
      → stream k u.passed ≡ continued (t.link p c) (stream k t.passed) (payload_of p c f)
unfolding relay
relay-stream accepts conn_open (register i) t rs v w p c k known h =
    rw h (sym (append-nil (stream k t.passed)))
relay-stream accepts conn_open (register_ack r) t rs v w p c k known h =
    rw h (sym (append-nil (stream k t.passed)))
relay-stream accepts conn_open (control i) t rs v w p c k known h =
    rw h (sym (append-nil (stream k t.passed)))
relay-stream accepts conn_open (data_frame d) t rs v w p c k known h =
    elim (Option-cases (t.configs d.proxy_id)) [
      | inl e ↦
          let same : t.link p c ≡ some k =
            subst (λ o. (relay_to (meanwhile accepts conn_open) d o t).link p c ≡ some k) e h in
          rw (e, same) (ground (arith, append-nil (stream k t.passed)))
      | inr (info, e) ↦ rw e (
          reach-stream accepts conn_open d info t rs v w p c k
            (subst (λ o. (relay_to (meanwhile accepts conn_open) d o t).link p c ≡ some k) e h))
    ]

-- Senders yet to be made have still taken nothing.
pub relay-IsUnused :
    (accepts : Text → Bool) (conn_open : ConnSender → Bool) (f : RfrpFrame) (t : Tunnel)
    (rs : List InternalConn)
    → IsOwned t rs
    → IsUnused t
    → IsUnused (relay (meanwhile accepts conn_open) f t)
unfolding relay
relay-IsUnused accepts conn_open (register i) t rs v w = w
relay-IsUnused accepts conn_open (register_ack r) t rs v w = w
relay-IsUnused accepts conn_open (control i) t rs v w = w
relay-IsUnused accepts conn_open (data_frame d) t rs v w =
    elim (Option-cases (t.configs d.proxy_id)) [
      | inl e ↦ rw e w
      | inr (info, e) ↦ rw e (reach-IsUnused accepts conn_open d info t rs v w)
    ]

relay_to-link :
    (accepts : Text → Bool) (conn_open : ConnSender → Bool) (d : DataInfo) (t : Tunnel)
    (p c j k : ℕ)
    → t.link p c ≡ some j
    → (relay_to (meanwhile accepts conn_open) d (t.configs d.proxy_id) t).link p c ≡ some k
    → j ≡ k
relay_to-link accepts conn_open d t p c j k h = elim (Option-cases (t.configs d.proxy_id)) [
  | inl e ↦ rw e (λ g. cc)
  | inr (info, e) ↦ elim (Option-cases (t.link d.proxy_id d.conn_id)) [
    | inl a ↦ rw (e, a) (λ g. ground arith)
    | inr (i, a) ↦ rw (e, a) (λ g. ground arith)
  ]
]

-- A link that is there before and after a frame is the same.
pub relay-link :
    (accepts : Text → Bool) (conn_open : ConnSender → Bool) (f : RfrpFrame) (t : Tunnel)
    (p c j k : ℕ)
    → t.link p c ≡ some j
    → (relay (meanwhile accepts conn_open) f t).link p c ≡ some k
    → j ≡ k
unfolding relay
relay-link accepts conn_open (register i) t p c j k h g = cc
relay-link accepts conn_open (register_ack r) t p c j k h g = cc
relay-link accepts conn_open (control i) t p c j k h g = cc
relay-link accepts conn_open (data_frame d) t p c j k h g =
    relay_to-link accepts conn_open d t p c j k h g
