-- ===== src/Streams/Inbound.antt =====
-- From the server to the internal services.
use rfrp.Base.{
  ℕ, ◌≤◌, ◌<◌, ◌≡◌, refl, sym, ◌∙◌, ap, inl, inr, true, ◌&&◌, List, [], ◌∷◌, ◌++◌, Option, none,
  some, arith, ◌==◌, if◌then◌else◌, Option-cases,
}
use mathlib.Core.List.{append_assoc, append-nil}
use rfrp.Config.{ClientInfo, DataInfo}
use rfrp.Frame.{RfrpFrame, register, register_ack, control, data_frame}
use rfrp.Client.{World, ConnSender}
use rfrp.Client.Tunnel.{Tunnel, enter, reach, relay}
use rfrp.Pump.Reading.{payload_of, payloads}
use rfrp.Streams.{stream, stream-snoc}

-- Services accept, and no connection fails or ends.
abbrev pub calm : World
calm = record { accepts = λ a. true; ended = []; conn_open = λ s. true }

-- What a connection of a proxy has received.
abbrev pub received_by : Option ConnSender → Tunnel → List (List ℕ)
received_by none t = []
received_by (some s) t = stream s t.passed

abbrev pub received : ℕ → ℕ → Tunnel → List (List ℕ)
received p c t = received_by (t.link p c) t

-- Each link has a sender of its own, and a sender that is still to be made has taken nothing.
pub record IsWired (t : Tunnel) : Type 0 where
  pub below : (p c s : ℕ) → t.link p c ≡ some s → s < t.made
  pub apart : (p c q j s : ℕ) → t.link p c ≡ some s → t.link q j ≡ some s → (p ≡ q) × (c ≡ j)
  pub unused : (s : ℕ) → t.made ≤ s → stream s t.passed ≡ []

module _ (d : DataInfo) (info : ClientInfo) (t : Tunnel) (v : IsWired t) where
  -- A link that is there: only what has been passed on grows.
  passed_on :
      (k : ℕ) → t.link d.proxy_id d.conn_id ≡ some k → IsWired (reach calm d info (some k) t)
  passed_on k e = record {
    below = v.below;
    apart = v.apart;
    unused = λ s h.
        ground
          (arith, stream-snoc s k d.payload t.passed, v.unused s, v.below d.proxy_id d.conn_id k e);
  }

  opened : t.link d.proxy_id d.conn_id ≡ none → IsWired (enter calm d info none t)
  opened e = record {
    below = λ p c s h. ground (arith, v.below p c s);
    apart = λ p c q j s h k. ground (arith, v.apart p c q j s, v.below p c s, v.below q j s);
    unused = λ s h. ground (arith, stream-snoc s t.made d.payload t.passed, v.unused s);
  }

  reach-IsWired : IsWired (reach calm d info (t.link d.proxy_id d.conn_id) t)
  reach-IsWired = elim (Option-cases (t.link d.proxy_id d.conn_id)) [
    | inl e ↦ rw (e, e) (opened e)
    | inr (k, e) ↦ rw e (passed_on k e)
  ]

  received-reach :
      (p c : ℕ)
      → received p c (reach calm d info (t.link d.proxy_id d.conn_id) t)
        ≡ received p c t ++ payload_of p c (data_frame d)
  received-reach p c = elim (Option-cases (t.link d.proxy_id d.conn_id)) [
    | inl e ↦ rw (e, e) (by_opened e)
    | inr (k, e) ↦ rw e (by_link k e (t.link p c) refl)
  ]
    where
      by_new :
          t.link d.proxy_id d.conn_id ≡ none
          → (o : Option ConnSender) → t.link p c ≡ o
          → received_by
              (if (p == d.proxy_id) && (c == d.conn_id) then some t.made else o)
              (enter calm d info none t)
            ≡ received_by o t ++ payload_of p c (data_frame d)
      by_new e none h =
          ground (arith, stream-snoc t.made t.made d.payload t.passed, v.unused t.made)
      by_new e (some s) h = ground (
        arith,
        stream-snoc s t.made d.payload t.passed,
        v.below p c s,
        append-nil (stream s t.passed),
      )

      by_opened :
          t.link d.proxy_id d.conn_id ≡ none
          → received p c (enter calm d info none t)
            ≡ received p c t ++ payload_of p c (data_frame d)
      by_opened e = by_new e (t.link p c) refl

      by_link :
          (k : ℕ)
          → t.link d.proxy_id d.conn_id ≡ some k
          → (o : Option ConnSender) → t.link p c ≡ o
          → received_by o (reach calm d info (some k) t)
            ≡ received_by o t ++ payload_of p c (data_frame d)
      by_link k e none h = ground arith
      by_link k e (some s) h = ground (
        arith,
        stream-snoc s k d.payload t.passed,
        v.apart p c d.proxy_id d.conn_id s,
        append-nil (stream s t.passed),
      )

relay-IsWired : (f : RfrpFrame) (t : Tunnel) → IsWired t → IsWired (relay calm f t)
unfolding relay
relay-IsWired (register i) t v = v
relay-IsWired (register_ack r) t v = v
relay-IsWired (control i) t v = v
relay-IsWired (data_frame d) t v = elim (Option-cases (t.configs d.proxy_id)) [
  | inl e ↦ rw e v
  | inr (info, e) ↦ rw e (reach-IsWired d info t v)
]

relay-configs : (f : RfrpFrame) (t : Tunnel) → (relay calm f t).configs ≡ t.configs
unfolding relay
relay-configs (register i) t = refl
relay-configs (register_ack r) t = refl
relay-configs (control i) t = refl
relay-configs (data_frame d) t = elim (Option-cases (t.configs d.proxy_id)) [
  | inl e ↦ rw (e, relay) refl
  | inr (info, e) ↦ elim (Option-cases (t.link d.proxy_id d.conn_id)) [
    | inl k ↦ ground arith
    | inr (s, k) ↦ ground arith
  ]
]

received-relay :
    (p c : ℕ) {info : ClientInfo} (f : RfrpFrame) (t : Tunnel)
    → IsWired t
    → t.configs p ≡ some info
    → received p c (relay calm f t) ≡ received p c t ++ payload_of p c f
unfolding relay
received-relay p c (register i) t v h = sym (append-nil (received p c t))
received-relay p c (register_ack r) t v h = sym (append-nil (received p c t))
received-relay p c (control i) t v h = sym (append-nil (received p c t))
received-relay p c (data_frame d) t v h = elim (Option-cases (t.configs d.proxy_id)) [
  | inl e ↦ rw e (ground (arith, append-nil (received p c t)))
  | inr (info, e) ↦ rw e (received-reach d info t v p c)
]

-- The tunnel after some frames.
abbrev pub relay_all : List RfrpFrame → Tunnel → Tunnel
relay_all [] t = t
relay_all (f ∷ fs) t = relay_all fs (relay calm f t)

-- Whatever frames are relayed, in whatever interleaving of connections, each connection of a registered
-- proxy receives the payloads for it, in their order, and no others.
pub received-relay_all :
    (p c : ℕ) (info : ClientInfo) (fs : List RfrpFrame) (t : Tunnel)
    → IsWired t
    → t.configs p ≡ some info
    → received p c (relay_all fs t) ≡ received p c t ++ payloads p c fs
received-relay_all p c info [] t v h = sym (append-nil (received p c t))
received-relay_all p c info (f ∷ fs) t v h =
    received-relay_all p c info fs (relay calm f t) (relay-IsWired f t v) (rw (relay-configs f t) h)
    ∙ ap (λ l. l ++ payloads p c fs) (received-relay p c f t v h)
    ∙ append_assoc (received p c t) (payload_of p c f) (payloads p c fs)
