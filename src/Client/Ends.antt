-- ===== src/Client/Ends.antt =====
-- The client's main loop as a whole: it answers every sequence of events, and keeps to its tunnel.
use rfrp.Base.{ℕ, ◌≡◌, refl, List, [], ◌∷◌, none}
use rfrp.Base.Result.{Result, ok, err}
use rfrp.Frame.{RfrpFrame}
use rfrp.Crypto.{ProtoError, Cipher}
use rfrp.Compress.{Outcome, returns}
use rfrp.Codec.{Crates}
use rfrp.Codec.Laws.{AreCrates}
use rfrp.Codec.RoundTrip.{decode-ends}
use rfrp.Client.{Session, World, on_frame, on_read_end}
use rfrp.Client.Tunnel.{Tunnel, set_link, relay}
use rfrp.Client.Mirrors.{Mirrors, on_read_end-Mirrors}
use rfrp.Client.Links.{on_frame-Mirrors}
use rfrp.Client.Loop.{
  Event, payload, read_error, closed, keepalive_timeout, service_ended, Progress, waiting, ended,
  main_loop,
}

-- What a tunnel comes to by the frames of the server and the ends of services.
pub data Relays : Tunnel → Tunnel → Type 0 where
  done : {t : Tunnel} → Relays t t
  relayed : (w : World) (f : RfrpFrame) {t u : Tunnel} → Relays (relay w f t) u → Relays t u
  unlinked : (p c : ℕ) {t u : Tunnel} → Relays (set_link p c none t) u → Relays t u

abbrev pub session_of : Progress → Session
session_of (waiting s) = s
session_of (ended s) = s

-- The loop answers, in a session that stands for a tunnel that this one comes to.
abbrev pub Follows : Tunnel → Outcome Progress → Type 0
Follows t o =
    (p : Progress) × (u : Tunnel) × (o ≡ returns p) × Relays t u × Mirrors (session_of p) u

module _ (crates : Crates) (laws : AreCrates crates) (cipher : Cipher) where
  -- From a session that stands for a tunnel the client's main loop answers every sequence of events,
  -- whatever bytes the server sends: it comes to wait, or ends, in a session that stands for a tunnel
  -- that frames and ends of services lead to. It neither panics nor runs on.
  pub main_loop-Follows :
      (es : List Event) (decomp_buf : List ℕ) (decompress : crates.inflate.State) (s : Session)
      (t : Tunnel)
      → Mirrors s t
      → Follows t (main_loop crates cipher es decomp_buf decompress s)
  unfolding main_loop
  main_loop-Follows [] decomp_buf decompress s t m = (waiting s, t, refl, done, m)
  main_loop-Follows (read_error ∷ es) decomp_buf decompress s t m = (ended s, t, refl, done, m)
  main_loop-Follows (closed ∷ es) decomp_buf decompress s t m = (ended s, t, refl, done, m)
  main_loop-Follows (keepalive_timeout ∷ es) decomp_buf decompress s t m =
      (ended s, t, refl, done, m)
  main_loop-Follows (service_ended p c ∷ es) decomp_buf decompress s t m =
      let (r, u, returned, path, m') =
        main_loop-Follows es decomp_buf decompress (on_read_end p c s) (set_link p c none t)
          (on_read_end-Mirrors m p c) in
      (r, u, returned, unlinked p c path, m')
  main_loop-Follows (payload w bytes ∷ es) decomp_buf decompress s t m =
      let (res, buf, decomp_buf', decompress', e) =
        decode-ends crates laws bytes cipher decomp_buf decompress in
      rw (e, main_loop)
        (by_result res decomp_buf' decompress' (main_loop-Follows es decomp_buf' decompress'))
    where
      by_result :
          (res : Result ProtoError RfrpFrame) (decomp_buf' : List ℕ)
          (decompress' : crates.inflate.State)
          → ((s' : Session) (t' : Tunnel)
              → Mirrors s' t'
              → Follows t' (main_loop crates cipher es decomp_buf' decompress' s'))
          → Follows t (elim res [
            | err e ↦ returns (ended s)
            | ok f ↦ main_loop crates cipher es decomp_buf' decompress' (on_frame w f s)
          ])
      by_result (err e) decomp_buf' decompress' rest = (ended s, t, refl, done, m)
      by_result (ok f) decomp_buf' decompress' rest =
          let (r, u, returned, path, m') =
            rest (on_frame w f s) (relay w f t) (on_frame-Mirrors w f s t m) in
          (r, u, returned, relayed w f path, m')
