-- ===== src/Sync/Retry/Attempts.antt =====
-- src/sync/retry-policy.ts: how often `retryUnavailable` tries, and how long it waits.
use content_lens.Prelude.{
  ℕ, zero, suc, ◌+◌, ◌≤◌, ◌<◌, ◌≡◌, ◌⊎◌, inl, inr, refl, min, Bool, true, false, Option, List, [],
  ◌∷◌, get_or, if◌then◌else◌, length, All, arith, ap, Bool-cases, subst, sym, ◌∙◌, if-both, ◌*◌,
  ◌^◌, ◌-◌,
}
use content_lens.Sync.Retry.{
  Failure, Ending, returned, threw, unreachable, max_ms, base_ms, ceiling, retry_delay,
  after_attempt, attempts_from, retry_unavailable,
}

-- The ending is a failure after which another attempt may come.
abbrev pub is_retryable : {T : Type 0} → Ending T → Bool
is_retryable (returned v) = false
is_retryable (threw f) = f.retryable
is_retryable unreachable = false

module _ {T : Type 0} (jitter : ℕ → ℕ → ℕ) (operation : ℕ → Ending T) where
  -- The result of the attempts from a first one, where so many may follow it: as many delays as attempts
  -- that ended retryable, and the ending of the attempt after them, which is not retryable or the last.
  pub record IsLast (left first : ℕ) (result : Ending T × List ℕ) : Type 0 where
    pub within : length (result.1) ≤ left
    pub ending : result.0 ≡ operation (length (result.1) + first)
    pub earlier : (i : ℕ) → i < length (result.1) → is_retryable (operation (i + first)) ≡ true
    pub stops :
        (is_retryable (operation (length (result.1) + first)) ≡ false) ⊎ (length (result.1) ≡ left)

  at_first : (first : ℕ) → operation (0 + first) ≡ operation first
  at_first first = ap operation (omega arith)

  shifted : (n first : ℕ) → operation (n + (first + 1)) ≡ operation (suc n + first)
  shifted n first = ap operation (omega arith)

  ends-IsLast :
      (left first : ℕ) (e : Ending T)
      → operation first ≡ e
      → is_retryable e ≡ false
      → IsLast left first (e, [])
  ends-IsLast left first e q h = record {
    within = omega arith;
    ending = sym (at_first first ∙ q);
    earlier = λ i k. absurd (omega (arith, k));
    stops = inl (ap is_retryable (at_first first ∙ q) ∙ h);
  }

  retries-IsLast :
      (left first d : ℕ) (e : Ending T) (delays : List ℕ)
      → is_retryable (operation first) ≡ true
      → IsLast left (first + 1) (e, delays)
      → IsLast (suc left) first (e, d ∷ delays)
  retries-IsLast left first d e delays h l = record {
    within = omega (arith, l.within);
    ending = l.ending ∙ shifted (length delays) first;
    earlier = earlier;
    stops = elim l.stops [
      | inl s ↦ inl (sym (ap is_retryable (shifted (length delays) first)) ∙ s)
      | inr s ↦ inr (ap suc s)
    ];
  }
    where
      earlier : (i : ℕ) → i < length (d ∷ delays) → is_retryable (operation (i + first)) ≡ true
      earlier zero k = ap is_retryable (at_first first) ∙ h
      earlier (suc i) k = sym (ap is_retryable (shifted i first)) ∙ l.earlier i (omega (arith, k))

  after-IsLast :
      (left first : ℕ) (e : Ending T) (rest : Ending T × List ℕ)
      → operation first ≡ e
      → IsLast left (first + 1) rest
      → IsLast (suc left) first (after_attempt jitter first e rest)
  unfolding after_attempt
  after-IsLast left first (returned v) rest q l = ends-IsLast (suc left) first (returned v) q refl
  after-IsLast left first unreachable rest q l = ends-IsLast (suc left) first unreachable q refl
  after-IsLast left first (threw f) (e, delays) q l = elim (Bool-cases f.retryable) [
    | inl r ↦
        subst (λ b. IsLast (suc left) first (if b then again else done)) (sym r)
          (retries-IsLast left first delay e delays (ap is_retryable q ∙ r) l)
    | inr r ↦
        subst (λ b. IsLast (suc left) first (if b then again else done)) (sym r)
          (ends-IsLast (suc left) first (threw f) q r)
  ]
    where
      delay : ℕ
      delay = retry_delay jitter first f.retry_after_ms

      again : Ending T × List ℕ
      again = (e, delay ∷ delays)

      done : Ending T × List ℕ
      done = (threw f, [])

  from-IsLast : (left first : ℕ) → IsLast left first (attempts_from jitter operation left first)
  unfolding attempts_from
  from-IsLast zero first = record {
    within = omega arith;
    ending = sym (at_first first);
    earlier = λ i k. absurd (omega (arith, k));
    stops = inr refl;
  }
  from-IsLast (suc left) first =
      after-IsLast left first (operation first) (attempts_from jitter operation left (first + 1))
        refl (from-IsLast left (first + 1))

  -- Of so many attempts and one more, `retryUnavailable` makes one more than it sleeps, and ends as the
  -- last that it makes does. All before that one threw a retryable error, and it did not or no other is
  -- left.
  pub retry_unavailable-IsLast :
      (left : ℕ) → IsLast left 1 (retry_unavailable jitter operation (suc left))
  unfolding retry_unavailable
  retry_unavailable-IsLast left = from-IsLast left 1

  module _ (limit : ℕ) (m : max_ms ≤ limit) (j : (n c : ℕ) → jitter n c ≤ c) where
    delay-le : (n : ℕ) (o : Option ℕ) → get_or o 0 ≤ limit → retry_delay jitter n o ≤ limit
    unfolding retry_delay ceiling
    delay-le n o h = omega (arith, j n (min max_ms (base_ms * 2 ^ (n - 1))), m, h)

    after-le :
        (n : ℕ) (e : Ending T) (rest : Ending T × List ℕ)
        → ((f : Failure) → e ≡ threw f → get_or f.retry_after_ms 0 ≤ limit)
        → All (λ d. d ≤ limit) rest.1
        → All (λ d. d ≤ limit) (after_attempt jitter n e rest).1
    unfolding after_attempt
    after-le n (returned v) rest h k = tt
    after-le n unreachable rest h k = tt
    after-le n (threw f) (e, delays) h k =
        if-both (λ (x : Ending T × List ℕ). All (λ d. d ≤ limit) x.1) f.retryable _ _
          (delay-le n f.retry_after_ms (h f refl), k) tt

    from-le :
        ((n : ℕ) (f : Failure) → operation n ≡ threw f → get_or f.retry_after_ms 0 ≤ limit)
        → (left first : ℕ) → All (λ d. d ≤ limit) (attempts_from jitter operation left first).1
    unfolding attempts_from
    from-le h zero first = tt
    from-le h (suc left) first =
        after-le first (operation first) (attempts_from jitter operation left (first + 1)) (h first)
          (from-le h left (first + 1))

  -- Every delay of `retryUnavailable` is within a limit that half a minute and the delays that failures
  -- ask for are within, where the jitter stays within its ceiling.
  delays-le :
      (limit attempts : ℕ)
      → max_ms ≤ limit
      → ((n c : ℕ) → jitter n c ≤ c)
      → ((n : ℕ) (f : Failure) → operation n ≡ threw f → get_or f.retry_after_ms 0 ≤ limit)
      → All (λ d. d ≤ limit) (retry_unavailable jitter operation attempts).1
  unfolding retry_unavailable
  delays-le limit zero m j h = tt
  delays-le limit (suc left) m j h = from-le limit m j h left 1
