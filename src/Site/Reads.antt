-- ===== src/Site/Reads.antt =====
-- What the session and the tasks of its proxies put into the channel to the client, in every
-- interleaving.
use rfrp.Base.{
  ℕ, ◌^◌, ◌<◌, ◌≡◌, refl, sym, ap, ◌∙◌, inl, inr, Bool, true, false, List, [], ◌∷◌, ◌++◌, Option,
  none, some, arith, ◌==◌, if◌then◌else◌, Option-cases,
}
use mathlib.Core.List.{append-nil}
use rfrp.Config.{ClientInfo}
use rfrp.Frame.{
  RfrpFrame, register, register_ack, control, data_frame, new_reg_ack_frame, new_pong_frame,
  new_data_frame,
}
use rfrp.Pump.Reading.{payloads}
use rfrp.Server.{Receivers, Session}
use rfrp.Server.Invariant.{session_of}
use rfrp.Server.Service.{Service, serve, service_of, service_of-Provides}
use rfrp.Server.Routes.{on_frame-Provides}
use rfrp.Proxy
use rfrp.Proxy.{Listener, listen, handle_reg_frame, send, accepted, granted, read, closed}
use rfrp.Proxy.Reads.{chunk_of, Step-proxy_id}
use rfrp.Pump.Payloads.{payloads-snoc, payloads-append}
use rfrp.Site.{Site, TaskState, listening, share, begun, framed, began, served, Reach, here, next}
use rfrp.Site.Shares.{on_task-keeps}
use rfrp.Site.Invariant.{Reach-IsJoined, handle_reg_frame-listens}

-- What the read tasks of a connection have read and the channel to the client has taken, in order.
abbrev pub chunks_read : ℕ → ℕ → {n : ℕ} {x : Site} → Reach n x → List (List ℕ)
chunks_read p c here = []
chunks_read p c (next before (framed r f x s e)) = chunks_read p c before
chunks_read p c (next before (began binds tx_open q t x e at)) = chunks_read p c before
chunks_read p c (next before (served q st x at)) =
    chunks_read p c before ++ (if q == p then chunk_of c st else [])

-- The listener of a proxy has its id.
began-proxy_id :
    (here : Bool) (o : Option Listener) (b : TaskState) (i q : ℕ)
    → ((l : Listener) → o ≡ some l → l ≡ listen i)
    → (here ≡ true → i ≡ q)
    → ((l : Listener) → b ≡ listening l → l.proxy_id ≡ q)
    → (l : Listener) → (if here then begun o else b) ≡ listening l
    → l.proxy_id ≡ q
began-proxy_id true none b i q fresh own old l at = cc
began-proxy_id true (some m) b i q fresh own old l at =
    let first : l.proxy_id ≡ i = cc (ap (λ z. z.proxy_id) (fresh m refl)) in first ∙ own refl
began-proxy_id false o b i q fresh own old l at = old l at

served-proxy_id :
    (here : Bool) (m : Listener) (b : TaskState) (q : ℕ)
    → (here ≡ true → m.proxy_id ≡ q)
    → ((l : Listener) → b ≡ listening l → l.proxy_id ≡ q)
    → (l : Listener) → (if here then listening m else b) ≡ listening l
    → l.proxy_id ≡ q
served-proxy_id true m b q own old l at =
    let first : l.proxy_id ≡ m.proxy_id = cc in first ∙ own refl
served-proxy_id false m b q own old l at = old l at

Reach-proxy_id :
    {n : ℕ} {x : Site}
    → n < 2 ^ 64
    → Reach n x
    → (q : ℕ) (l : Listener) → x.tasks q ≡ listening l
    → l.proxy_id ≡ q
Reach-proxy_id small here q l at = cc
Reach-proxy_id small (next before (framed r f x s e)) q l at =
    Reach-proxy_id (omega arith) before q l at
Reach-proxy_id small (next {n = n} before (began binds tx_open p t x e free)) q l at =
    let v = Reach-IsJoined n (omega arith) before in
    began-proxy_id (q == p) _ (x.tasks q) t.proxy_id q
      (λ l. handle_reg_frame-listens binds tx_open t) (λ h. ground (arith, v.coherent.tasks p t e))
      (Reach-proxy_id (omega arith) before q) l at
Reach-proxy_id small (next before (served p st x own)) q l at =
    served-proxy_id (q == p) _ (x.tasks q) q
      (λ h. ground (arith, Step-proxy_id st, Reach-proxy_id (omega arith) before p _ own))
      (Reach-proxy_id (omega arith) before q) l at

-- Replies and registrations hold no payload.
payloads-serve :
    (p c : ℕ) (r : Receivers) (f : RfrpFrame) (a : Service)
    → payloads p c (serve r f a).replies ≡ payloads p c a.replies
unfolding serve new_reg_ack_frame new_pong_frame
payloads-serve p c r (register i) a = ground (
  arith,
  payloads-snoc p c a.replies (new_reg_ack_frame i false 0),
  append-nil (payloads p c a.replies),
)
payloads-serve p c r (register_ack x) a = refl
payloads-serve p c r (control i) a =
    ground (arith, payloads-snoc p c a.replies new_pong_frame, append-nil (payloads p c a.replies))
payloads-serve p c r (data_frame d) a = elim (Option-cases (a.route d.proxy_id d.conn_id)) [
  | inl e ↦ rw (e, serve) refl
  | inr (s, e) ↦ rw (e, serve) (ground arith)
]

payloads-handle_reg_frame :
    (p c : ℕ) (binds : ℕ → Bool) (tx_open : Bool) (i : ClientInfo) (q : ℕ)
    → payloads p c (handle_reg_frame binds tx_open i q).0 ≡ []
unfolding handle_reg_frame send new_reg_ack_frame
payloads-handle_reg_frame p c binds tx_open i q = ground arith

payloads-share :
    (p c q : ℕ) {l m : Listener} (st : Proxy.Step l m) (s : Session)
    → l.proxy_id ≡ q
    → payloads p c (share q st s).sent
      ≡ payloads p c s.sent ++ (if q == p then chunk_of c st else [])
unfolding new_data_frame
payloads-share p c q (accepted l e) s own =
    on_task-keeps (λ z. payloads p c z.sent) (λ t z. refl) q _ _ s
    ∙ ground (arith, append-nil (payloads p c s.sent))
payloads-share p c q (granted l d n w e) s own = ground (arith, append-nil (payloads p c s.sent))
payloads-share p c q (read l true d bytes h) s own =
    payloads-append p c s.sent (new_data_frame bytes l.proxy_id d ∷ [])
    ∙ ap (λ t. payloads p c s.sent ++ t) (ground arith)
payloads-share p c q (read l false d bytes h) s own =
    on_task-keeps (λ z. payloads p c z.sent) (λ t z. refl) q _ _ s
    ∙ ground (arith, append-nil (payloads p c s.sent))
payloads-share p c q (closed l d h) s own =
    on_task-keeps (λ z. payloads p c z.sent) (λ t z. refl) q _ _ s
    ∙ ground (arith, append-nil (payloads p c s.sent))

-- However the main loop, the listeners and the read tasks of a session interleave, over fewer than 2^64
-- steps: what the session has sent for a connection of a proxy is what the connection's read task has
-- read and the channel has taken, all of it, in order, and nothing else.
pub Reach-chunks_read :
    (n p c : ℕ) (x : Site) (r : Reach n x)
    → n < 2 ^ 64
    → payloads p c x.session.sent ≡ chunks_read p c r
Reach-chunks_read n p c x here small = refl
Reach-chunks_read n p c x (next {n = m} before (framed r f y s e)) small =
    let v = Reach-IsJoined m (omega arith) before in
    ap (λ z. payloads p c (session_of z).sent) (sym e)
    ∙ ap (payloads p c)
        (on_frame-Provides r f y.session (service_of y.session) v.coherent
          (service_of-Provides y.session)).replies
    ∙ payloads-serve p c r f (service_of y.session)
    ∙ Reach-chunks_read m p c y before (omega arith)
Reach-chunks_read n p c x (next {n = m} before (began binds tx_open q t y e at)) small =
    payloads-append p c y.session.sent _
    ∙ ap (λ z. payloads p c y.session.sent ++ z)
        (payloads-handle_reg_frame p c binds tx_open t.client_info t.proxy_id)
    ∙ append-nil (payloads p c y.session.sent)
    ∙ Reach-chunks_read m p c y before (omega arith)
Reach-chunks_read n p c x (next {n = m} before (served q st y at)) small =
    payloads-share p c q st y.session (Reach-proxy_id (omega arith) before q _ at)
    ∙ ap (λ z. z ++ (if q == p then chunk_of c st else []))
        (Reach-chunks_read m p c y before (omega arith))
