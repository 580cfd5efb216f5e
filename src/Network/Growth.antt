-- ===== src/Network/Growth.antt =====
-- What has been put into a channel stays there.
use rfrp.Base.{
  ℕ, ◌+◌, ◌^◌, ◌<◌, ◌≡◌, refl, sym, ap, ◌∙◌, Bool, true, false, List, [], ◌∷◌, ◌++◌, Option, none,
  some, arith, if◌then◌else◌, leb,
}
use mathlib.Core.Path.{subst}
use mathlib.Core.List.{append-nil}
use rfrp.Frame.{
  RfrpFrame, register, register_ack, control, data_frame, new_reg_ack_frame, new_pong_frame,
  new_data_frame, is_ping,
}
use rfrp.Server.{Receivers, Session, on_frame}
use rfrp.Server.Invariant.{session_of, IsCoherent}
use rfrp.Server.Service.{Service, hand_over, serve, service_of, service_of-Provides}
use rfrp.Server.Routes.{on_frame-Provides}
use rfrp.Proxy
use rfrp.Proxy.{accepted, granted, read, closed}
use rfrp.Site
use rfrp.Site.{Site, sends, share}
use rfrp.Site.Shares.{on_task-keeps}
use rfrp.Site.Invariant.{Reach-IsJoined}
use rfrp.Client.Site as ClientSite

-- A list that has grown at its end.
abbrev pub Grows : List RfrpFrame → List RfrpFrame → Type 0
Grows before after = (more : List RfrpFrame) × (after ≡ before ++ more)

same-Grows : {before after : List RfrpFrame} → after ≡ before → Grows before after
same-Grows {before} e = ([], e ∙ sym (append-nil before))

serve-Grows : (r : Receivers) (f : RfrpFrame) (a : Service) → Grows a.replies (serve r f a).replies
unfolding serve
serve-Grows r (register i) a = by_tests (leb 16 a.proxies) r.tx_open
  where
    by_tests :
        (full up : Bool)
        → Grows a.replies
            (if full
              then (if up
                  then record a { replies = a.replies ++ (new_reg_ack_frame i false 0 ∷ []) }
                  else a)
              else record a { proxies = a.proxies + 1 }).replies
    by_tests true true = (new_reg_ack_frame i false 0 ∷ [], refl)
    by_tests true false = same-Grows refl
    by_tests false up = same-Grows refl
serve-Grows r (register_ack x) a = same-Grows refl
serve-Grows r (control i) a = by_tests (is_ping (control i)) r.tx_open
  where
    by_tests :
        (ping up : Bool)
        → Grows a.replies
            (if ping
              then (if up then record a { replies = a.replies ++ (new_pong_frame ∷ []) } else a)
              else a).replies
    by_tests true true = (new_pong_frame ∷ [], refl)
    by_tests true false = same-Grows refl
    by_tests false up = same-Grows refl
serve-Grows r (data_frame d) a = same-Grows (by_route (a.route d.proxy_id d.conn_id))
  where
    by_route : (o : Option ℕ) → (hand_over r o d.payload a).replies ≡ a.replies
    by_route none = refl
    by_route (some k) = ground arith

on_frame-Grows :
    (r : Receivers) (f : RfrpFrame) (s : Session)
    → IsCoherent s
    → Grows s.sent (session_of (on_frame r f s)).sent
on_frame-Grows r f s v =
    let (more, e) = serve-Grows r f (service_of s) in
    (more, (on_frame-Provides r f s (service_of s) v (service_of-Provides s)).replies ∙ e)

share-Grows :
    (q : ℕ) {l m : Proxy.Listener} (st : Proxy.Step l m) (s : Session)
    → Grows s.sent (share q st s).sent
share-Grows q (accepted l e) s = same-Grows (on_task-keeps (λ z. z.sent) (λ t z. refl) q _ _ s)
share-Grows q (granted l d n w e) s = same-Grows refl
share-Grows q (read l true d bytes h) s = (new_data_frame bytes l.proxy_id d ∷ [], refl)
share-Grows q (read l false d bytes h) s =
    same-Grows (on_task-keeps (λ z. z.sent) (λ t z. refl) q _ _ s)
share-Grows q (closed l d h) s = same-Grows (on_task-keeps (λ z. z.sent) (λ t z. refl) q _ _ s)

pub Step-Grows :
    {n : ℕ} {x z : Site}
    → n < 2 ^ 64
    → Site.Reach n x
    → (st : Site.Step x z) → Grows x.session.sent z.session.sent
Step-Grows {n} small r (Site.framed rc f x s e) =
    subst (λ t. Grows x.session.sent t.sent) (ap session_of e)
      (on_frame-Grows rc f x.session (Reach-IsJoined n small r).coherent)
Step-Grows small r (Site.began binds tx_open p t x e at) = (_, refl)
Step-Grows small r (Site.served p st x at) = share-Grows p st x.session

pub client-Grows : {y z : ClientSite.Site} (st : ClientSite.Step y z) → Grows y.sent z.sent
unfolding ClientSite.on_read ClientSite.on_end ClientSite.on_frame_spawned
client-Grows (ClientSite.framed accepts conn_open f y) = same-Grows refl
client-Grows (ClientSite.read true k p c bytes y h) = (_, refl)
client-Grows (ClientSite.read false k p c bytes y h) = same-Grows refl
client-Grows (ClientSite.closed k p c y h) = same-Grows refl
client-Grows (ClientSite.pinged y) = (_, refl)
