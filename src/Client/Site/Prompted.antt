-- ===== src/Client/Site/Prompted.antt =====
-- The client opens a connection only when a payload for it comes, and so sends for it only after that.
use rfrp.Base.{
  ℕ, ◌+◌, ◌≡◌, refl, ap, ◌∙◌, inl, inr, Bool, true, false, List, [], ◌∷◌, ◌++◌, none, some, arith,
  if◌then◌else◌, length, drop, drop-append, Option-cases,
}
use mathlib.Core.Path.{ap₂}
use mathlib.Core.List.{append-nil}
use rfrp.Base.Dict.{Dict}
use rfrp.Config.{Text, ClientInfo, DataInfo, client_getter, get_addr}
use rfrp.Frame.{RfrpFrame, register, register_ack, control, data_frame}
use rfrp.Pump.Reading.{payload_of}
use rfrp.Client.{ConnSender, InternalConn}
use rfrp.Client.Tunnel.{Tunnel, set_link, enter, reach, relay}
use rfrp.Client.Links.{on_frame-Mirrors}
use rfrp.Client.Site.{
  Site, reads_for, meanwhile, on_frame_spawned, on_end, on_read, framed, read, closed, pinged,
  Reach, here, next,
}
use rfrp.Client.Site.Readers.{reads_for-append, reads_for-leave}
use rfrp.Client.Site.Owned.{with_new, drop-length}
use rfrp.Client.Site.Invariant.{tunnel_of, Reach-IsTied}
use rfrp.Client.Site.Given.{received}
use rfrp.Client.Site.Reads.{chunks_read}
use rfrp.Pump.Payloads.{append-eq-nil}

-- A change of the tunnel that adds no read task for a connection.
abbrev KeepsReads : ℕ → ℕ → Tunnel → Tunnel → List InternalConn → Type 0
KeepsReads p c t u rs = (k : ℕ) → reads_for k p c (with_new t u rs) ≡ reads_for k p c rs

module _ (p c : ℕ) (accepts : Text → Bool) (conn_open : ConnSender → Bool) (t : Tunnel)
    (rs : List InternalConn) where
  same-KeepsReads : (u : Tunnel) → u.connections ≡ t.connections → KeepsReads p c t u rs
  same-KeepsReads u e k = rw (e, drop-length t.connections, append-nil rs) refl

  reach-KeepsReads :
      (d : DataInfo) (info : ClientInfo)
      → payload_of p c (data_frame d) ≡ []
      → KeepsReads p c t
          (reach (meanwhile accepts conn_open) d info (t.link d.proxy_id d.conn_id) t)
          rs
  unfolding reads_for
  reach-KeepsReads d info h = elim (Option-cases (t.link d.proxy_id d.conn_id)) [
    | inr (j, e) ↦ rw e (by_link j (conn_open j))
    | inl e ↦ rw (e, e) (by_accepts (accepts (get_addr info)))
  ]
    where
      conn : InternalConn
      conn = record {
        sender = t.made;
        addr = get_addr info;
        conn_id = d.conn_id;
        proxy_id = d.proxy_id;
      }

      by_open :
          (b : Bool)
          → let base : Tunnel =
              set_link d.proxy_id d.conn_id
                (some t.made)
                (record t { made = t.made + 1; connections = t.connections ++ (conn ∷ []) }) in
            KeepsReads p c t
              (if b
                then record base { passed = t.passed ++ ((t.made, d.payload) ∷ []) }
                else set_link d.proxy_id d.conn_id none base)
              rs
      by_open true = λ k.
          rw (drop-append (length t.connections) t.connections (conn ∷ []) refl)
            (ground (arith, reads_for-append k p c rs (conn ∷ [])))
      by_open false = λ k.
          rw (drop-append (length t.connections) t.connections (conn ∷ []) refl)
            (ground (arith, reads_for-append k p c rs (conn ∷ [])))

      by_link :
          (j : ℕ) (b : Bool)
          → KeepsReads p c t
              (if b
                then record t { passed = t.passed ++ ((j, d.payload) ∷ []) }
                else set_link d.proxy_id d.conn_id none t)
              rs
      by_link j true =
          same-KeepsReads (record t { passed = t.passed ++ ((j, d.payload) ∷ []) }) refl
      by_link j false = same-KeepsReads (set_link d.proxy_id d.conn_id none t) refl

      by_accepts :
          (b : Bool)
          → KeepsReads p c t (if b then enter (meanwhile accepts conn_open) d info none t else t) rs
      by_accepts true = by_open (conn_open t.made)
      by_accepts false = same-KeepsReads t refl

  relay-KeepsReads :
      (f : RfrpFrame)
      → payload_of p c f ≡ []
      → KeepsReads p c t (relay (meanwhile accepts conn_open) f t) rs
  unfolding relay
  relay-KeepsReads (register i) h = same-KeepsReads t refl
  relay-KeepsReads (register_ack r) h = same-KeepsReads t refl
  relay-KeepsReads (control i) h = same-KeepsReads t refl
  relay-KeepsReads (data_frame d) h = elim (Option-cases (t.configs d.proxy_id)) [
    | inl e ↦ rw e (same-KeepsReads t refl)
    | inr (info, e) ↦ rw e (reach-KeepsReads d info h)
  ]

pub Reach-unprompted :
    (configs : Dict ClientInfo) (p c : ℕ) (x : Site) (r : Reach configs x)
    → received p c r ≡ []
    → (k : ℕ) → reads_for k p c x.readers ≡ false
unfolding on_read on_end on_frame_spawned reads_for
Reach-unprompted configs p c x here h k = refl
Reach-unprompted configs p c x (next r (framed accepts conn_open f y)) h k =
    let (old, new) = append-eq-nil (received p c r) (payload_of p c f) h in
    let v = Reach-IsTied r in
    let m = on_frame-Mirrors (meanwhile accepts conn_open) f y.session (tunnel_of r) v.mirrors in
    ap (λ rs. reads_for k p c (y.readers ++ rs))
      (ap₂ (λ (before after : List InternalConn). drop (length before) after) v.mirrors.connections
        m.connections)
    ∙ relay-KeepsReads p c accepts conn_open (tunnel_of r) y.readers f new k
    ∙ Reach-unprompted configs p c y r old k
Reach-unprompted configs p c x (next r (read true i q j bytes y g)) h k =
    Reach-unprompted configs p c y r h k
Reach-unprompted configs p c x (next r (read false i q j bytes y g)) h k =
    ground (arith, reads_for-leave k p c i y.readers, Reach-unprompted configs p c y r h k)
Reach-unprompted configs p c x (next r (closed i q j y g)) h k =
    ground (arith, reads_for-leave k p c i y.readers, Reach-unprompted configs p c y r h k)
Reach-unprompted configs p c x (next r (pinged y)) h k = Reach-unprompted configs p c y r h k

-- No read task for a connection that no payload has come for.
pub chunks_read-unprompted :
    (configs : Dict ClientInfo) (p c : ℕ) (x : Site) (r : Reach configs x)
    → received p c r ≡ []
    → chunks_read p c r ≡ []
chunks_read-unprompted configs p c x here h = refl
chunks_read-unprompted configs p c x (next r (framed accepts conn_open f y)) h =
    chunks_read-unprompted configs p c y r ((append-eq-nil (received p c r) (payload_of p c f) h).0)
chunks_read-unprompted configs p c x (next r (read true i q j bytes y g)) h =
    ground (arith, chunks_read-unprompted configs p c y r h, Reach-unprompted configs p c y r h i)
chunks_read-unprompted configs p c x (next r (read false i q j bytes y g)) h =
    chunks_read-unprompted configs p c y r h
chunks_read-unprompted configs p c x (next r (closed i q j y g)) h =
    chunks_read-unprompted configs p c y r h
chunks_read-unprompted configs p c x (next r (pinged y)) h =
    chunks_read-unprompted configs p c y r h
