-- ===== src/Heartbeat.antt =====
-- The heartbeat of rfrp_client/src/run_proxy.rs, and the keepalive timeout of both main loops, by the
-- clock. Times are in seconds.
pub mod Keepalive
use rfrp.Base.{
  ℕ, ◌+◌, ◌≤◌, Bool, true, false, List, [], ◌∷◌, Option, none, some, leb, ltb, if◌then◌else◌,
}
use rfrp.Frame.{RfrpFrame, new_ping_frame}

abbrev pub ping_interval : ℕ
ping_interval = 30

abbrev pub keepalive_timeout : ℕ
keepalive_timeout = 90

-- How a round of the heartbeat task goes: how late its tick is, since the runtime may be busy, and
-- whether `ping_tx` takes the ping.
pub record Tick : Type 0 where
  pub late : ℕ
  pub taken : Bool

-- The pings that the task sends, with their times, when the tick before was at this time: a tick comes an
-- interval after the one before, also when that was late (`MissedTickBehavior::Delay`).
unfoldable pub heartbeat : ℕ → List Tick → List (ℕ × RfrpFrame)
heartbeat last [] = []
heartbeat last (tick ∷ ticks) =
    let now = last + ping_interval + tick.late in
    let rest = heartbeat now ticks in if tick.taken then (now, new_ping_frame) ∷ rest else []

-- Whether a main loop that began to wait at this time outlives these arrivals: a frame that comes by the
-- deadline is handled, at once or when the loop is back, and sets a new deadline; otherwise the timeout
-- breaks the loop off.
unfoldable pub outlives : ℕ → List ℕ → Bool
outlives now [] = true
outlives now (arrival ∷ arrivals) =
    let handled = if ltb now arrival then arrival else now in
    let rest = outlives handled arrivals in
    if leb arrival (now + keepalive_timeout) then rest else false
