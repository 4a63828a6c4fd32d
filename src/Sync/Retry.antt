-- ===== src/Sync/Retry.antt =====
-- src/sync/retry-policy.ts: `retryDelay` and `retryUnavailable`. A delay is in milliseconds, in ℕ.
pub mod Attempts
use content_lens.Prelude.{
  ℕ, zero, suc, ◌+◌, ◌-◌, ◌*◌, ◌^◌, min, max, Bool, true, false, Option, none, some, List, [], ◌∷◌,
  get_or, if◌then◌else◌,
}

-- What an attempt throws: whether it is a `SyncProviderError` that is retryable, and its delay, if any.
pub record Failure : Type 0 where
  pub retryable : Bool
  pub retry_after_ms : Option ℕ

-- How an attempt ends, and how all of them do. Without any attempt the loop ends in its last `throw`.
pub data Ending (T : Type 0) : Type 0 where
  returned : T → Ending T
  threw : Failure → Ending T
  unreachable : Ending T

abbrev pub base_ms : ℕ
base_ms = 500

abbrev pub max_ms : ℕ
max_ms = 30000

-- `ceiling`, with the defaults for `baseMs` and `maxMs`
unfoldable pub ceiling : ℕ → ℕ
ceiling attempt = min max_ms (base_ms * 2 ^ (attempt - 1))

-- `retryDelay` of a positive attempt; `jitter` is the whole part of a random share of the ceiling.
unfoldable pub retry_delay : (ℕ → ℕ → ℕ) → ℕ → Option ℕ → ℕ
unfolding ceiling
retry_delay jitter attempt retry_after =
    max (jitter attempt (ceiling attempt)) (get_or retry_after 0)

module _ {T : Type 0} where
  -- What follows an attempt that is not the last one.
  unfoldable pub after_attempt : (ℕ → ℕ → ℕ) → ℕ → Ending T → Ending T × List ℕ → Ending T × List ℕ
  unfolding retry_delay
  after_attempt jitter attempt (returned v) rest = (returned v, [])
  after_attempt jitter attempt unreachable rest = (unreachable, [])
  after_attempt jitter attempt (threw f) (ending, delays) =
      if f.retryable
      then (ending, retry_delay jitter attempt f.retry_after_ms ∷ delays)
      else (threw f, [])

  -- The loop from an attempt on, with the number of attempts that may follow it.
  unfoldable pub attempts_from : (ℕ → ℕ → ℕ) → (ℕ → Ending T) → ℕ → ℕ → Ending T × List ℕ
  attempts_from jitter operation zero attempt = (operation attempt, [])
  attempts_from jitter operation (suc left) attempt =
      let rest = attempts_from jitter operation left (attempt + 1) in
      after_attempt jitter attempt (operation attempt) rest

  -- `retryUnavailable`: how it ends, and the delays that it sleeps before.
  unfoldable pub retry_unavailable : (ℕ → ℕ → ℕ) → (ℕ → Ending T) → ℕ → Ending T × List ℕ
  unfolding attempts_from
  retry_unavailable jitter operation zero = (unreachable, [])
  retry_unavailable jitter operation (suc left) = attempts_from jitter operation left 1
