-- ===== src/Outbox/Delays.antt =====
-- The delays between the attempts of src/outbox/outbox.processor.ts.
use meridian_backend.Prelude.{ℕ, ◌*◌, ◌+◌, ◌^◌, ◌≤◌, ◌<◌, min, arith}
use native.Mathlib.Nat.{mul-le-mul_right}
use meridian_backend.Outbox.{Random, retry_delay, base_delay_ms, max_delay_ms}

half_at_least : (m whole part : ℕ) → m * (2 * whole) ≤ 2 * (m * (whole + part))
half_at_least m whole part = omega arith

below_cap :
    (m whole part : ℕ)
    → m ≤ max_delay_ms
    → part < whole
    → m * (whole + part) < max_delay_ms * (2 * whole)
below_cap m whole part le below = omega (arith, mul-le-mul_right (whole + part) le)

-- A delay is at least half of the capped exponential of the attempts, and below the cap, if the
-- random part is below 1.
pub retry_delay-bounds :
    (attempts : ℕ) (r : Random)
    → r.part < r.whole
    → (min (base_delay_ms * 2 ^ attempts) max_delay_ms * (retry_delay attempts r).denominator
        ≤ 2 * (retry_delay attempts r).numerator)
      × ((retry_delay attempts r).numerator < max_delay_ms * (retry_delay attempts r).denominator)
retry_delay-bounds attempts r below = (
  half_at_least (min (base_delay_ms * 2 ^ attempts) max_delay_ms) r.whole r.part,
  below_cap (min (base_delay_ms * 2 ^ attempts) max_delay_ms) r.whole r.part (omega arith) below,
)
