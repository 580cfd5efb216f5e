-- ===== src/Site/Asked.antt =====
-- What the client asks to be handed to a connection, along a run of the main loop and the listeners.
use rfrp.Base.{
  ℕ, ◌≤◌, ◌≡◌, ◌≢◌, ◌⊎◌, refl, ap, ◌∙◌, inl, inr, Bool, true, false, ◌&&◌, List, [], ◌++◌, Option,
  none, some, arith, ◌==◌, if◌then◌else◌,
}
use rfrp.Pump.Reading.{payload_of}
use rfrp.Server.{ConnSender, Receivers}
use rfrp.Server.Service.{route}
use rfrp.Proxy
use rfrp.Proxy.{
  Listener, listen, handle_reg_frame, on_accept, on_permit, on_read, on_reader_end, accepted,
  granted, read, closed,
}
use rfrp.Site.{
  Site, TaskState, spawned, refused, listening, framed, began, served, Reach, here, next,
}

-- A frame's payload, if the receiver behind the sender is still there.
abbrev pub taken_by : Receivers → Option ConnSender → List (List ℕ) → List (List ℕ)
taken_by r none payload = []
taken_by r (some s) payload = if r.conn_open s then payload else []

-- Whether a step of the listener of proxy `q` accepts this connection of this proxy.
abbrev pub accepts : ℕ → ℕ → ℕ → {l m : Listener} → Proxy.Step l m → Bool
accepts p c q (accepted l e) = (p == q) && (c == l.next_conn_id)
accepts p c q (granted l d n w e) = false
accepts p c q (read l tx_open d bytes h) = false
accepts p c q (closed l d h) = false

-- The payloads that the client has sent to a connection since it was accepted, less those that came
-- when its receiver was gone.
abbrev pub asked : ℕ → ℕ → {n : ℕ} {x : Site} → Reach n x → List (List ℕ)
asked p c here = []
asked p c (next before (framed r f x s e)) =
    asked p c before ++ taken_by r (route x.session p c) (payload_of p c f)
asked p c (next before (began binds tx_open q t x e at)) = asked p c before
asked p c (next before (served q st x at)) = if accepts p c q st then [] else asked p c before

-- The senders that a task has made.
abbrev pub channels_of : TaskState → ℕ
channels_of spawned = 0
channels_of refused = 0
channels_of (listening l) = l.channels

pub Step-channels : {l m : Listener} → Proxy.Step l m → l.channels ≤ m.channels
unfolding on_accept on_permit on_read on_reader_end
Step-channels (accepted l e) = omega arith
Step-channels (granted l c n w e) = omega arith
Step-channels (read l true c bytes h) = omega arith
Step-channels (read l false c bytes h) = omega arith
Step-channels (closed l c h) = omega arith

-- An entry of a listener that has stepped is an old one, or that of the connection it has accepted.
pub Step-routing :
    (q : ℕ) {l m : Listener} (st : Proxy.Step l m) (c k : ℕ)
    → m.routing c ≡ some k
    → ((accepts q c q st ≡ true) × (k ≡ l.channels))
      ⊎ ((accepts q c q st ≡ false) × (l.routing c ≡ some k))
unfolding on_accept on_permit on_read on_reader_end
Step-routing q (accepted l e) c k h = ground arith
Step-routing q (granted l d n w e) c k h = inr (refl, h)
Step-routing q (read l true d bytes e) c k h = inr (refl, h)
Step-routing q (read l false d bytes e) c k h = ground arith
Step-routing q (closed l d e) c k h = ground arith

pub accepts-other :
    (p c q : ℕ) {l m : Listener} (st : Proxy.Step l m) → p ≢ q → accepts p c q st ≡ false
accepts-other p c q (accepted l e) h = ground arith
accepts-other p c q (granted l d n w e) h = refl
accepts-other p c q (read l tx_open d bytes e) h = refl
accepts-other p c q (closed l d e) h = refl

pub accepts-next :
    (p c q : ℕ) {l m : Listener} (st : Proxy.Step l m)
    → accepts p c q st ≡ true
    → (p ≡ q) × (c ≡ l.next_conn_id)
accepts-next p c q (accepted l e) h = ground arith
accepts-next p c q (granted l d n w e) h = cc
accepts-next p c q (read l tx_open d bytes e) h = cc
accepts-next p c q (closed l d e) h = cc

-- A connection that a listener's step leaves in a table has just been accepted, or was there before.
pub served-routing :
    (p q c k : ℕ) {l m : Listener} (st : Proxy.Step l m) (own : Bool) (b : TaskState)
    → (own ≡ true → p ≡ q)
    → (own ≡ false → p ≢ q)
    → (own ≡ true → b ≡ listening l)
    → (l' : Listener) → (if own then listening m else b) ≡ listening l'
    → l'.routing c ≡ some k
    → (accepts p c q st ≡ true)
      ⊎ ((accepts p c q st ≡ false) × ((z : Listener) × (b ≡ listening z) × (z.routing c ≡ some k)))
served-routing p q c k {l} {m} st true b same other at l' now entry =
    let own : m ≡ l' = cc in
    elim (Step-routing q st c k (ap (λ z. z.routing c) own ∙ entry)) [
      | inl (new, last) ↦ inl (rw (same refl) new)
      | inr (old, kept) ↦ inr (rw (same refl) old, (l, at refl, kept))
    ]
served-routing p q c k st false b same other at l' now entry =
    inr (accepts-other p c q st (other refl), (l', now, entry))
