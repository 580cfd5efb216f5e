-- ===== src/Client/Reconnect.antt =====
-- rfrp_client/src/lib.rs: the delay before a new attempt, and the loop over the attempts.
use rfrp.Base.{
  ℕ, zero, suc, ◌+◌, ◌-◌, ◌*◌, ◌%◌, ◌^◌, ◌≤◌, ◌≡◌, ◌<◌, refl, ap, ◌∙◌, List, [], ◌∷◌, some, length,
  get_elem?, min, arith,
}
use native.Mathlib.Nat.{pow-suc}

abbrev u64_max : ℕ
u64_max = 2 ^ 64 - 1

abbrev max_reconnect_delay : ℕ
max_reconnect_delay = 60

abbrev initial_reconnect_delay : ℕ
initial_reconnect_delay = 3

-- `2u64.saturating_pow(exp)`
unfoldable pub saturating_pow_two : ℕ → ℕ
saturating_pow_two exp = min (2 ^ exp) u64_max

-- `u64::saturating_mul`
unfoldable pub saturating_mul : ℕ → ℕ → ℕ
saturating_mul a b = min (a * b) u64_max

-- In seconds.
unfoldable pub calc_reconnect_delay : ℕ → ℕ
unfolding saturating_pow_two saturating_mul
calc_reconnect_delay attempt =
    min (saturating_mul initial_reconnect_delay (saturating_pow_two (attempt - 1)))
      max_reconnect_delay

-- How an attempt goes: the server cannot be reached, or a session is run and ends.
pub data Attempt : Type 0 where
  refused : Attempt
  session_lost : Attempt

-- The delays that the loop of `rfrp_client` sleeps for, one for each attempt. The counter is a u32 that
-- wraps, as the release profile has it.
unfoldable pub reconnect_delays : ℕ → List Attempt → List ℕ
reconnect_delays attempt [] = []
reconnect_delays attempt (refused ∷ rest) =
    calc_reconnect_delay ((attempt + 1) % 2 ^ 32) ∷ reconnect_delays ((attempt + 1) % 2 ^ 32) rest
reconnect_delays attempt (session_lost ∷ rest) =
    calc_reconnect_delay ((attempt + 1) % 2 ^ 32) ∷ reconnect_delays ((attempt + 1) % 2 ^ 32) rest

-- The saturating operations do not show: the delay is three seconds, doubled with each attempt and
-- capped at a minute.
pub calc_reconnect_delay_lem :
    (attempt : ℕ) → calc_reconnect_delay attempt ≡ min (3 * 2 ^ (attempt - 1)) 60
unfolding calc_reconnect_delay
calc_reconnect_delay_lem attempt = omega arith

-- Three seconds, doubled with each delay and capped at a minute.
abbrev pub backoff : ℕ → ℕ → List ℕ
backoff k zero = []
backoff k (suc n) = min (3 * 2 ^ k) 60 ∷ backoff (k + 1) n

pow_positive : (k : ℕ) → 1 ≤ 2 ^ k
pow_positive zero = omega arith
pow_positive (suc k) = omega (arith, pow_positive k, pow-suc 2 k)

calc_reconnect_delay-bounds :
    (attempt : ℕ) → (3 ≤ calc_reconnect_delay attempt) × (calc_reconnect_delay attempt ≤ 60)
calc_reconnect_delay-bounds attempt =
    omega (arith, calc_reconnect_delay_lem attempt, pow_positive (attempt - 1))

counted : (attempt n : ℕ) → attempt + suc n < 2 ^ 32 → (attempt + 1) % 2 ^ 32 ≡ attempt + 1
counted attempt n h = omega arith

calc_reconnect_delay-next : (k : ℕ) → calc_reconnect_delay (k + 1) ≡ min (3 * 2 ^ k) 60
calc_reconnect_delay-next k =
    calc_reconnect_delay_lem (k + 1) ∙ ap (λ n. min (3 * 2 ^ n) 60) (omega arith)

-- Until the counter of attempts wraps, the delays are the doubled ones up to a minute, however the
-- attempts go: a session that was run and lost does not start the delays afresh.
pub reconnect_delays-backoff :
    (attempt : ℕ) (outcomes : List Attempt)
    → attempt + length outcomes < 2 ^ 32
    → reconnect_delays attempt outcomes ≡ backoff attempt (length outcomes)
unfolding reconnect_delays
reconnect_delays-backoff attempt [] h = refl
reconnect_delays-backoff attempt (refused ∷ rest) h =
    let later = reconnect_delays-backoff (attempt + 1) rest (omega arith) in
    rw (counted attempt (length rest) h, calc_reconnect_delay-next attempt, later) refl
reconnect_delays-backoff attempt (session_lost ∷ rest) h =
    let later = reconnect_delays-backoff (attempt + 1) rest (omega arith) in
    rw (counted attempt (length rest) h, calc_reconnect_delay-next attempt, later) refl

delay_in_bounds :
    (attempt : ℕ) {d : ℕ} → some (calc_reconnect_delay attempt) ≡ some d → (3 ≤ d) × (d ≤ 60)
delay_in_bounds attempt h = grind (arith, calc_reconnect_delay-bounds attempt)

-- Every delay is between three seconds and a minute, whether or not the counter wraps.
pub reconnect_delays-bounded :
    (attempt : ℕ) (outcomes : List Attempt) (i d : ℕ)
    → get_elem? (reconnect_delays attempt outcomes) i ≡ some d
    → (3 ≤ d) × (d ≤ 60)
unfolding reconnect_delays
reconnect_delays-bounded attempt [] i d h = cc
reconnect_delays-bounded attempt (refused ∷ rest) zero d h =
    delay_in_bounds ((attempt + 1) % 2 ^ 32) h
reconnect_delays-bounded attempt (session_lost ∷ rest) zero d h =
    delay_in_bounds ((attempt + 1) % 2 ^ 32) h
reconnect_delays-bounded attempt (refused ∷ rest) (suc i) d h =
    reconnect_delays-bounded ((attempt + 1) % 2 ^ 32) rest i d h
reconnect_delays-bounded attempt (session_lost ∷ rest) (suc i) d h =
    reconnect_delays-bounded ((attempt + 1) % 2 ^ 32) rest i d h
