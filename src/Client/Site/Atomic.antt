-- ===== src/Client/Site/Atomic.antt =====
-- The wait for an internal service to accept, while which other tasks run, cannot be told apart from
-- their having run before.
use rfrp.Base.{ℕ, ◌≡◌, refl, sym, ap, ◌∙◌, List, [], ◌∷◌, Option, none, some, arith}
use mathlib.Core.Path.{subst, ap₂, fun_ext}
use rfrp.Base.Dict.{Dict}
use rfrp.Config.{ClientInfo, DataInfo}
use rfrp.Frame.{RfrpFrame, register, register_ack, control, data_frame}
use rfrp.Client.{Session, World, ConnSender, on_read_ends, on_frame}
use rfrp.Client.Tunnel.{Tunnel, set_link, unlink_all, reach, relay_to, relay}
use rfrp.Client.Mirrors.{Mirrors}
use rfrp.Client.Links.{on_read_ends-Mirrors, on_frame-Mirrors}
use rfrp.Client.Site.{Site, Reach}
use rfrp.Client.Site.Invariant.{tunnel_of, Reach-IsTied}
use rfrp.Client.Site.Given.{link_of}

-- The same world, in which no read task ends.
abbrev pub still : World → World
still w = record w { ended = [] }

-- The connections that end while a frame is handled: only where the client waits for a service.
abbrev ended_to : World → Option ConnSender → List (ℕ × ℕ)
ended_to w (some k) = []
ended_to w none = w.ended

abbrev ended_for : World → Option ClientInfo → Option ConnSender → List (ℕ × ℕ)
ended_for w none o = []
ended_for w (some info) o = ended_to w o

abbrev ended_by :
    World → RfrpFrame → (ℕ → Option ClientInfo) → (ℕ → ℕ → Option ConnSender) → List (ℕ × ℕ)
ended_by w (data_frame d) configs link =
    ended_for w (configs d.proxy_id) (link d.proxy_id d.conn_id)
ended_by w (register i) configs link = []
ended_by w (register_ack r) configs link = []
ended_by w (control i) configs link = []

abbrev pub ended_during : World → RfrpFrame → Session → List (ℕ × ℕ)
ended_during w f s = ended_by w f s.proxy_configs (link_of s)

-- Sessions that differ in the addresses of their maps and in their cache at most.
pub record Alike (s s' : Session) : Type 0 where
  pub configs : (p : ℕ) → s.proxy_configs p ≡ s'.proxy_configs p
  pub links : (p c : ℕ) → link_of s p c ≡ link_of s' p c
  pub channels : s.channels ≡ s'.channels
  pub opened : s.opened ≡ s'.opened
  pub forwarded : s.forwarded ≡ s'.forwarded

-- Sessions that stand for one tunnel are alike.
Mirrors-Alike : {s s' : Session} {t : Tunnel} → Mirrors s t → Mirrors s' t → Alike s s'
Mirrors-Alike m m' = record {
  configs = λ p. m.configs p ∙ sym (m'.configs p);
  links = λ p c. m.links p c ∙ sym (m'.links p c);
  channels = m.made ∙ sym m'.made;
  opened = m.connections ∙ sym m'.connections;
  forwarded = m.passed ∙ sym m'.passed;
}

unlink_all-configs : (ends : List (ℕ × ℕ)) (t : Tunnel) → (unlink_all ends t).configs ≡ t.configs
unlink_all-configs [] t = refl
unlink_all-configs ((p, c) ∷ ends) t = unlink_all-configs ends (set_link p c none t)

-- No link comes up where there was none.
unlink_all-link :
    (ends : List (ℕ × ℕ)) (t : Tunnel) (p c : ℕ)
    → t.link p c ≡ none
    → (unlink_all ends t).link p c ≡ none
unlink_all-link [] t p c h = h
unlink_all-link ((q, j) ∷ ends) t p c h =
    unlink_all-link ends (set_link q j none t) p c (ground arith)

reach-atomic :
    (w : World) (d : DataInfo) (info : ClientInfo) (t : Tunnel)
    → t.link d.proxy_id d.conn_id ≡ none
    → reach w d info none t
      ≡ reach
          (still w)
          d
          info
          ((unlink_all w.ended t).link d.proxy_id d.conn_id)
          (unlink_all w.ended t)
reach-atomic w d info t h =
    rw
      (
        unlink_all-link w.ended t d.proxy_id d.conn_id h,
        unlink_all-link w.ended t d.proxy_id d.conn_id h,
      )
      refl

relay_to-atomic :
    (w : World) (d : DataInfo) (t : Tunnel) (o : Option ClientInfo) (k : Option ConnSender)
    → t.configs d.proxy_id ≡ o
    → t.link d.proxy_id d.conn_id ≡ k
    → let u = unlink_all (ended_for w o k) t in
      relay_to w d o t ≡ relay_to (still w) d (u.configs d.proxy_id) u
relay_to-atomic w d t none k e h = rw e refl
relay_to-atomic w d t (some info) (some k) e h = rw (e, h) refl
relay_to-atomic w d t (some info) none e h =
    rw (ap (λ g. g d.proxy_id) (unlink_all-configs w.ended t), e, h) (reach-atomic w d info t h)

relay-atomic :
    (w : World) (f : RfrpFrame) (t : Tunnel)
    → relay w f t ≡ relay (still w) f (unlink_all (ended_by w f (t.configs) (t.link)) t)
unfolding relay
relay-atomic w (register i) t = refl
relay-atomic w (register_ack r) t = refl
relay-atomic w (control i) t = refl
relay-atomic w (data_frame d) t =
    relay_to-atomic w d t (t.configs d.proxy_id) (t.link d.proxy_id d.conn_id) refl refl

ended_during-Mirrors :
    (w : World) (f : RfrpFrame) {s : Session} {t : Tunnel}
    → Mirrors s t
    → ended_during w f s ≡ ended_by w f t.configs t.link
ended_during-Mirrors w f {s} {t} m =
    ap₂ (ended_by w f) (fun_ext m.configs) (fun_ext (λ p. fun_ext (m.links p)))

-- While the client waits for an internal service to accept, its read tasks may end. In every state that
-- the client can come to, whatever ends meanwhile: the session that a frame leads to is the one that it
-- leads to if the same read tasks have ended before the frame comes and none ends while it is handled,
-- with the same proxies, the same sender for each connection, the same connections opened and the same
-- payloads handed over. They may differ in the addresses of their maps and in the cache.
pub on_frame-atomic :
    (w : World) (f : RfrpFrame) (configs : Dict ClientInfo) (x : Site)
    → Reach configs x
    → Alike
        (on_frame w f x.session)
        (on_frame (still w) f (on_read_ends (ended_during w f x.session) x.session))
on_frame-atomic w f configs x r =
    let m = (Reach-IsTied r).mirrors in
    let t = tunnel_of r in
    let ends = ended_during w f x.session in
    Mirrors-Alike
      (subst (Mirrors (on_frame w f x.session))
        (relay-atomic w f t
          ∙ ap (λ l. relay (still w) f (unlink_all l t)) (sym (ended_during-Mirrors w f m)))
        (on_frame-Mirrors w f x.session t m))
      (on_frame-Mirrors (still w) f (on_read_ends ends x.session) (unlink_all ends t)
        (on_read_ends-Mirrors ends m))
