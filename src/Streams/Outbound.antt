-- ===== src/Streams/Outbound.antt =====
-- From the internal services to the external connections, on the server's side.
use rfrp.Base.{
  if◌then◌else◌, ℕ, ◌≡◌, sym, ◌∙◌, ap, true, List, [], ◌∷◌, ◌++◌, some, arith, inl, inr,
  Option-cases,
}
use mathlib.Core.List.{append_assoc, append-nil}
use rfrp.Frame.{RfrpFrame, register, register_ack, control, data_frame}
use rfrp.Server.{Receivers, ConnSender}
use rfrp.Server.Service.{serve-route, Service, serve}
use rfrp.Pump.Reading.{payload_of, payloads}
use rfrp.Streams.{stream, stream-snoc}

-- No receiver is gone.
abbrev pub all_open : Receivers
all_open = record { tx_open = true; conn_open = λ s. true }

-- The sender of this connection is no other connection's.
abbrev pub IsSoleSender : ℕ → ℕ → ConnSender → Service → Type 0
IsSoleSender p c k a =
    (a.route p c ≡ some k) × ((q j : ℕ) → a.route q j ≡ some k → (p ≡ q) × (c ≡ j))

pub handed-serve :
    (r : Receivers) (p c k : ℕ) (f : RfrpFrame) (a : Service)
    → IsSoleSender p c k a
    → stream k (serve r f a).handed
      ≡ stream k a.handed ++ (if r.conn_open k then payload_of p c f else [])
unfolding serve
handed-serve r p c k (register i) a h = ground (arith, append-nil (stream k a.handed))
handed-serve r p c k (register_ack x) a h = ground (arith, append-nil (stream k a.handed))
handed-serve r p c k (control i) a h = ground (arith, append-nil (stream k a.handed))
handed-serve r p c k (data_frame d) a (at, sole) =
    elim (Option-cases (a.route d.proxy_id d.conn_id)) [
      | inl e ↦ rw (e, serve) (ground (arith, append-nil (stream k a.handed)))
      | inr (s, e) ↦
          rw (e, serve)
            (ground (
              arith,
              append-nil (stream k a.handed),
              stream-snoc k s d.payload a.handed,
              sole d.proxy_id d.conn_id,
            ))
    ]

-- The service after some frames.
abbrev pub serve_all : List RfrpFrame → Service → Service
serve_all [] a = a
serve_all (f ∷ fs) a = serve_all fs (serve all_open f a)

-- Whatever frames the client sends, in whatever interleaving of connections, each routed connection is
-- handed the payloads for it, in their order, and no others.
pub handed-serve_all :
    (p c k : ℕ) (fs : List RfrpFrame) (a : Service)
    → IsSoleSender p c k a
    → stream k (serve_all fs a).handed ≡ stream k a.handed ++ payloads p c fs
handed-serve_all p c k [] a h = sym (append-nil (stream k a.handed))
handed-serve_all p c k (f ∷ fs) a h =
    handed-serve_all p c k fs (serve all_open f a) (rw (serve-route all_open f a) h)
    ∙ ap (λ l. l ++ payloads p c fs) (handed-serve all_open p c k f a h)
    ∙ append_assoc (stream k a.handed) (payload_of p c f) (payloads p c fs)
