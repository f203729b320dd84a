-- ===== src/Live/Backoff.antt =====
-- The delay before a reconnection (frontend/src/hooks/usePollLiveResults.js), in milliseconds.
use native.Mathlib.Nat.{pow-suc, le-div_iff_mul-le, one-le-pow}
use poll.Prelude.{ℕ, zero, suc, ◌*◌, ◌/◌, ◌^◌, ◌≤◌, ◌≡◌, refl, min, arith}

-- `Math.min(1000 * Math.pow(1.5, retryCount), maxRetryDelay)`. Up to 3 retries the product is a
-- whole number, and from 4 on it is more than the cap, so that the rounding down does not show.
unfoldable pub backoff : ℕ → ℕ
backoff retry_count = min (1000 * 3 ^ retry_count / 2 ^ retry_count) 5000

-- 1.5 ^ n is more than 5 from n = 4 on.
growth : (n : ℕ) → 4 ≤ n → 5 * 2 ^ n ≤ 3 ^ n
growth zero h = absurd (omega arith)
growth (suc zero) h = absurd (omega arith)
growth (suc (suc zero)) h = absurd (omega arith)
growth (suc (suc (suc zero))) h = absurd (omega arith)
growth (suc (suc (suc (suc zero)))) h = omega arith
growth (suc (suc (suc (suc (suc k))))) h =
    let n : ℕ = suc (suc (suc (suc k))) in
    omega (arith, pow-suc 2 n, pow-suc 3 n, growth (suc (suc (suc (suc k)))) (omega arith))

-- The delays as a table: a second, then half as much again each time, and five seconds for good.
pub backoff_table :
    (n : ℕ)
    → (backoff 0 ≡ 1000)
      × (backoff 1 ≡ 1500)
      × (backoff 2 ≡ 2250)
      × (backoff 3 ≡ 3375)
      × (4 ≤ n → backoff n ≡ 5000)
unfolding backoff
backoff_table n = (refl, refl, refl, refl, λ h. omega (arith, cap n h))
  where
    cap : (n : ℕ) → 4 ≤ n → 5000 ≤ 1000 * 3 ^ n / 2 ^ n
    cap n h = (le-div_iff_mul-le (one-le-pow n 2 (omega arith))).1 (omega (arith, growth n h))

-- The delay is a second at least and five at most, and never shorter after one more retry.
pub backoff_bounds :
    (k : ℕ) → (1000 ≤ backoff k) × (backoff k ≤ 5000) × (backoff k ≤ backoff (suc k))
backoff_bounds zero = omega (arith, backoff_table 0)
backoff_bounds (suc zero) = omega (arith, backoff_table 0)
backoff_bounds (suc (suc zero)) = omega (arith, backoff_table 0)
backoff_bounds (suc (suc (suc zero))) =
    omega (arith, backoff_table 0, (backoff_table 4).4 (omega arith))
backoff_bounds (suc (suc (suc (suc k)))) =
    let n : ℕ = suc (suc (suc (suc k))) in
    omega (arith, (backoff_table n).4 (omega arith), (backoff_table (suc n)).4 (omega arith))
