-- ===== src/Heartbeat/Keepalive.antt =====
-- What the heartbeat tolerates.
use rfrp.Base.{
  ℕ, ◌+◌, ◌≤◌, ◌≡◌, refl, Bool, true, false, List, [], ◌∷◌, arith, leb, ltb, if◌then◌else◌,
}
use rfrp.Frame.{RfrpFrame, new_ping_frame}
use rfrp.Heartbeat.{Tick, ping_interval, keepalive_timeout, heartbeat, outlives}

-- When pings arrive that are sent at these times and take so long on the way.
abbrev pub arrivals : List (ℕ × RfrpFrame) → List ℕ → List ℕ
arrivals [] ts = []
arrivals (ping ∷ pings) [] = []
arrivals ((sent, ping) ∷ pings) (transit ∷ ts) = (sent + transit) ∷ arrivals pings ts

-- The lateness of each tick and the way of its ping are at most a minute together.
abbrev pub IsTimely : List Tick → List ℕ → Type 0
IsTimely [] ts = Unit
IsTimely (tick ∷ ticks) [] = Unit
IsTimely (tick ∷ ticks) (transit ∷ ts) = (tick.late + transit ≤ 60) × IsTimely ticks ts

-- The heartbeat keeps a session alive with nothing else on the wire: if the lateness of each tick and the
-- way of its ping are at most a minute together, the other side never times out while it waits for a
-- ping, provided that it began to wait no earlier than the tick before the first.
pub outlives-heartbeat :
    (last now : ℕ) (ticks : List Tick) (transits : List ℕ)
    → last ≤ now
    → IsTimely ticks transits
    → outlives now (arrivals (heartbeat last ticks) transits) ≡ true
unfolding heartbeat outlives
outlives-heartbeat last now [] ts h timely = refl
outlives-heartbeat last now (tick ∷ ticks) [] h timely = ground arith
outlives-heartbeat last now (tick ∷ ticks) (transit ∷ ts) h (soon, timely) = by_taken tick.taken (
    outlives-heartbeat sent (if ltb now arrival then arrival else now) ticks ts (ground arith)
      timely)
  where
    sent : ℕ
    sent = last + ping_interval + tick.late

    arrival : ℕ
    arrival = sent + transit

    in_time : leb arrival (now + keepalive_timeout) ≡ true
    in_time = ground arith

    by_taken :
        (b : Bool)
        → outlives (if ltb now arrival then arrival else now) (arrivals (heartbeat sent ticks) ts)
          ≡ true
        → outlives now (
            arrivals
              (if b then (sent, new_ping_frame) ∷ heartbeat sent ticks else [])
              (transit ∷ ts))
          ≡ true
    by_taken false later = refl
    by_taken true later = rw in_time later
