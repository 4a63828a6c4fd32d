-- ===== src/Feeds/Backoff.antt =====
-- src/application/feed-subscriptions/schedule.ts: `nextRssAttemptAt`. Times are in milliseconds, in ℕ, and a
-- time with a fraction is cut to its whole part, as `Date` does. The jitter is in millionths of 1.
use content_lens.Prelude.{
  ℕ, zero, suc, ◌+◌, ◌*◌, ◌/◌, ◌^◌, ◌≤◌, ◌≡◌, min, max, Option, get_or, arith,
}
use native.Mathlib.Nat.{mul-le-mul_left}

abbrev pub minimum_failure_backoff_ms : ℕ
minimum_failure_backoff_ms = 900000

abbrev pub maximum_failure_backoff_ms : ℕ
maximum_failure_backoff_ms = 86400000

abbrev pub one : ℕ
one = 1000000

-- The product with `0.9 + jitter * 0.2`, with the jitter held in 0 to 1.
unfoldable pub spread : Option ℕ → ℕ → ℕ
spread jitter n = n * (9 * one + 2 * min one (get_or jitter (one / 2))) / (10 * one)

-- `localDelay`
unfoldable pub local_delay : Option ℕ → ℕ → ℕ → ℕ
unfolding spread
local_delay jitter zero interval_minutes = interval_minutes * 60 * 1000
local_delay jitter (suc n) interval_minutes =
    spread jitter (min maximum_failure_backoff_ms (minimum_failure_backoff_ms * 2 ^ min 16 n))

-- `nextRssAttemptAt`
unfoldable pub next_rss_attempt_at : Option ℕ → ℕ → ℕ → ℕ → Option ℕ → ℕ
unfolding local_delay
next_rss_attempt_at jitter failures interval_minutes now retry_after =
    now + max (local_delay jitter failures interval_minutes) (get_or retry_after 0)

one_le_pow : (k : ℕ) → 1 ≤ 2 ^ k
one_le_pow zero = omega arith
one_le_pow (suc k) = omega (arith, one_le_pow k)

spread-bounds :
    (jitter : Option ℕ) (n : ℕ)
    → 900000 ≤ n
    → n ≤ 86400000
    → (810000 ≤ spread jitter n) × (spread jitter n ≤ 95040000)
unfolding spread
spread-bounds jitter n low high =
    let share = 9 * one + 2 * min one (get_or jitter (one / 2)) in
    let m = min one (get_or jitter (one / 2)) in
    omega (
      arith,
      mul-le-mul_left {m = 9 * one} {n = share} n (omega arith),
      mul-le-mul_left {m = share} {n = 11 * one} n (omega arith),
    )

-- After a failure the feed waits at least the time that the answer asked for and 13 minutes and a half, and at most
-- 26 hours and 24 minutes when the answer asked for no more; after a success it waits its interval, or
-- the time that the answer asked for when that is longer.
next_rss_attempt_at-bounds :
    (jitter : Option ℕ) (failures interval_minutes now : ℕ) (retry_after : Option ℕ)
    → (next_rss_attempt_at jitter 0 interval_minutes now retry_after
        ≡ now + max (interval_minutes * 60000) (get_or retry_after 0))
      × (now + max 810000 (get_or retry_after 0)
          ≤ next_rss_attempt_at jitter (suc failures) interval_minutes now retry_after)
      × (next_rss_attempt_at jitter (suc failures) interval_minutes now retry_after
          ≤ now + max 95040000 (get_or retry_after 0))
unfolding next_rss_attempt_at local_delay
next_rss_attempt_at-bounds jitter failures interval_minutes now retry_after =
    let some_backoff = one_le_pow (min 16 failures) in
    let (least, most) =
      spread-bounds jitter
        (min maximum_failure_backoff_ms (minimum_failure_backoff_ms * 2 ^ min 16 failures))
        (omega (arith, some_backoff)) (omega arith) in
    (omega arith, omega (arith, least), omega (arith, most))
