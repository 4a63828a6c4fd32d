-- ===== src/Examples/Retries.antt =====
-- src/sync/retry-policy.ts at concrete inputs.
use content_lens.Prelude.{ℕ, zero, suc, ◌≤◌, ◌≡◌, refl, true, some, [], ◌∷◌, arith, get_or}
use content_lens.Sync.Retry.{
  Failure, Ending, returned, threw, retry_unavailable, attempts_from, after_attempt, retry_delay,
}
use content_lens.Sync.Retry.Attempts.{IsLast, retry_unavailable-IsLast}

abbrev busy : Failure
busy = record { retryable = true; retry_after_ms = some 2000 }

-- A provider that is busy at first.
abbrev at_second : ℕ → Ending ℕ
at_second zero = threw busy
at_second (suc zero) = threw busy
at_second (suc (suc n)) = returned n

asked : (n : ℕ) (f : Failure) → at_second n ≡ threw f → get_or f.retry_after_ms 0 ≤ 30000
asked zero f e = ground arith
asked (suc zero) f e = ground arith
asked (suc (suc n)) f e = cc

abbrev no_jitter : ℕ → ℕ → ℕ
no_jitter n c = 0

second_succeeds : retry_unavailable no_jitter at_second 3 ≡ (returned 0, 2000 ∷ [])
unfolding retry_unavailable attempts_from after_attempt retry_delay
second_succeeds = refl

retry_unavailable-IsLast_example :
    IsLast no_jitter at_second 2 1 (retry_unavailable no_jitter at_second 3)
retry_unavailable-IsLast_example = retry_unavailable-IsLast no_jitter at_second 2
