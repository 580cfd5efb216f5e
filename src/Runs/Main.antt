-- ===== src/Runs/Main.antt =====
-- What the program starts on small configurations, and the theorems on it.
use rfrp.Base.{bytes_eq, ◌≡◌, ◌≢◌, ◌⊎◌, refl, arith, true, List, [], ◌∷◌, Option, some}
use rfrp.Base.Bytes.{codes}
use rfrp.Config.{Text, ConfigInfo, RunningMode, init}
use rfrp.Base.Result.{err}
use rfrp.Config.Validate.{ConfigError, validate}
use rfrp.Config.Verdict.{IsUsable}
use rfrp.Main.{panicked, invalid, rfrp_main, debug, log_level}
use rfrp.Main.Starts.{side, rfrp_main-starts}
use rfrp.Heartbeat.{Tick, heartbeat, outlives}
use rfrp.Heartbeat.Keepalive.{arrivals, outlives-heartbeat}
use rfrp.Runs.Config.{entry, sample}

-- A parser that knows one file.
abbrev one_file : Text → Option ConfigInfo
one_file content = some (sample RunningMode.client (entry (codes "127.0.0.1") ∷ []))

rfrp_main-starts_example :
    let c = init (sample RunningMode.client (entry (codes "127.0.0.1") ∷ [])) in
    let course = rfrp_main one_file (codes "{}") in
    (IsUsable c × (course ≡ side c))
    ⊎ ((IsUsable c → ⊥)
        × (((c.running_mode ≡ RunningMode.unknown) × (course ≡ panicked))
            ⊎ ((c.running_mode ≢ RunningMode.unknown)
                × ((e : ConfigError) × (validate c ≡ err e) × (course ≡ invalid e)))))
rfrp_main-starts_example =
    rfrp_main-starts one_file (codes "{}")
      (sample RunningMode.client (entry (codes "127.0.0.1") ∷ [])) refl

debug_set : log_level (some (codes "DeBug")) ≡ debug
unfolding log_level bytes_eq
debug_set = refl

abbrev ticks : List Tick
ticks = record { late = 0; taken = true } ∷ record { late = 40; taken = true } ∷ []

outlives-heartbeat_example : outlives 5 (arrivals (heartbeat 0 ticks) (2 ∷ 20 ∷ [])) ≡ true
outlives-heartbeat_example =
    outlives-heartbeat 0 5 ticks (2 ∷ 20 ∷ []) (omega arith) (omega arith, (omega arith, tt))
