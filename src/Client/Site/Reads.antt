-- ===== src/Client/Site/Reads.antt =====
-- What the client's tasks put into the channel to the server, in every interleaving.
use rfrp.Base.{ℕ, ◌≡◌, refl, ap, ◌∙◌, true, false, ◌&&◌, List, [], ◌∷◌, ◌++◌, ◌==◌, if◌then◌else◌}
use mathlib.Core.List.{append-nil}
use rfrp.Base.Dict.{Dict}
use rfrp.Config.{ClientInfo, client_getter}
use rfrp.Frame.{RfrpFrame, new_data_frame, new_ping_frame}
use rfrp.Pump.Reading.{payload_of, payloads}
use rfrp.Client.Site.{
  Site, on_frame_spawned, on_end, on_read, sends, framed, read, closed, pinged, Reach, here, next,
}
use rfrp.Pump.Payloads.{payloads-append}

-- What the read tasks of a connection have read and the channel to the server has taken, in order.
abbrev pub chunks_read :
    ℕ → ℕ → {configs : Dict ClientInfo} {x : Site} → Reach configs x → List (List ℕ)
chunks_read p c here = []
chunks_read p c (next r (framed accepts conn_open f x)) = chunks_read p c r
chunks_read p c (next r (read true k q j bytes x h)) =
    chunks_read p c r ++ (if (q == p) && (j == c) then bytes ∷ [] else [])
chunks_read p c (next r (read false k q j bytes x h)) = chunks_read p c r
chunks_read p c (next r (closed k q j x h)) = chunks_read p c r
chunks_read p c (next r (pinged x)) = chunks_read p c r

payloads-sends :
    (p c : ℕ) (f : RfrpFrame) (x : Site)
    → payloads p c (sends f x).sent ≡ payloads p c x.sent ++ payload_of p c f
payloads-sends p c f x =
    payloads-append p c x.sent (f ∷ [])
    ∙ ap (λ l. payloads p c x.sent ++ l) (append-nil (payload_of p c f))

-- However the main loop, the read tasks and the heartbeat of the client interleave: what the client has
-- sent for a connection of a proxy is what the connection's read tasks have read and the channel has
-- taken, all of it, in order, and nothing else.
pub Reach-chunks_read :
    (configs : Dict ClientInfo) (p c : ℕ) (x : Site) (r : Reach configs x)
    → payloads p c x.sent ≡ chunks_read p c r
unfolding on_read on_end on_frame_spawned new_data_frame new_ping_frame
Reach-chunks_read configs p c x here = refl
Reach-chunks_read configs p c x (next r (framed accepts conn_open f y)) =
    Reach-chunks_read configs p c y r
Reach-chunks_read configs p c x (next r (read true k q j bytes y h)) =
    payloads-sends p c (new_data_frame bytes q j) y
    ∙ ap (λ l. l ++ payload_of p c (new_data_frame bytes q j)) (Reach-chunks_read configs p c y r)
Reach-chunks_read configs p c x (next r (read false k q j bytes y h)) =
    Reach-chunks_read configs p c y r
Reach-chunks_read configs p c x (next r (closed k q j y h)) = Reach-chunks_read configs p c y r
Reach-chunks_read configs p c x (next r (pinged y)) =
    payloads-sends p c new_ping_frame y
    ∙ append-nil (payloads p c y.sent)
    ∙ Reach-chunks_read configs p c y r
