-- ===== src/Circuit/Route/Probes.antt =====
-- Whom `RouteCircuitBreaker` (src/ai/routing/circuit-breaker.ts) admits.
use content_lens.Prelude.{
  ℕ, ◌+◌, ◌≤◌, ◌<◌, ◌≡◌, refl, true, some, List, [], ◌∷◌, JsString, arith, same_iff, get_or, length,
}
use content_lens.Prelude.Dict.{get-set_self, get-set, get-delete}
use content_lens.Prelude.Dict
use content_lens.Circuit.Route.{
  Circuit, Breaker, fresh, failed, recent, record_temporary_failure, record_success, acquire,
  closed, probe, refused_open, failure_threshold, open_duration_ms,
}

-- How many of the requests at the given times are handed the recovery probe, with no report between.
pub probes : Breaker → JsString → List ℕ → ℕ
probes b key [] = 0
probes b key (at ∷ ats) =
    let (answer, b') = acquire b key at in
    let rest = probes b' key ats in elim answer [ probe ↦ rest + 1 | _ ↦ rest ]

-- Once the probe is out, no request gets through whenever it comes.
probes_busy :
    (b : Breaker) (key : JsString) (c : Circuit) (t : ℕ) (ats : List ℕ)
    → Dict.get key b ≡ some c
    → c.opened_at ≡ some t
    → 0 < t
    → c.probe_in_flight ≡ true
    → probes b key ats ≡ 0
unfolding probes acquire
probes_busy b key c t [] f o p i = refl
probes_busy b key c t (at ∷ ats) f o p i = ground (arith, probes_busy b key c t ats f o p i)

probing : Circuit → Circuit
probing c = record c { probe_in_flight = true }

-- An open route hands out at most one recovery probe between two reports, at whatever times it is
-- asked.
pub probes-le-one :
    (b : Breaker) (key : JsString) (c : Circuit) (t : ℕ) (ats : List ℕ)
    → Dict.get key b ≡ some c
    → c.opened_at ≡ some t
    → 0 < t
    → probes b key ats ≤ 1
unfolding probes acquire probing
probes-le-one b key c t [] f o p = omega arith
probes-le-one b key c t (at ∷ ats) f o p = ground (
  arith,
  probes-le-one b key c t ats f o p,
  probes_busy (Dict.set key (probing c) b) key (probing c) t ats,
  get-set_self key (probing c) b,
)

-- After a temporary failure that is the fifth of its window or a later one, the route refuses every
-- request for a minute and says until when; after a reported success it admits all again.
fifth_failure_opens :
    (b : Breaker) (key : JsString) (at now : ℕ)
    → 0 < at
    → failure_threshold ≤ length (recent (get_or (Dict.get key b) fresh).failures at)
    → now < at + open_duration_ms
    → (acquire (record_temporary_failure b key at) key now
        ≡ (refused_open (at + open_duration_ms), record_temporary_failure b key at))
      × ((acquire (record_success b key) key now).0 ≡ closed)
unfolding acquire record_temporary_failure record_success
fifth_failure_opens b key at now p h w = ground (
  arith,
  get-set_self key (failed (get_or (Dict.get key b) fresh) at) b,
  get-delete key key b,
  same_iff key key,
)

-- A probe that fails with too few other failures in the window leaves the old time of opening: the
-- route, whose minute is over, hands out the next probe at once.
pub failed_probe_retries :
    (b : Breaker) (key : JsString) (c : Circuit) (t at : ℕ)
    → Dict.get key b ≡ some c
    → c.opened_at ≡ some t
    → 0 < t
    → t + open_duration_ms ≤ at
    → length (recent c.failures at) < failure_threshold
    → (acquire (record_temporary_failure b key at) key at).0 ≡ probe
unfolding acquire record_temporary_failure
failed_probe_retries b key c t at f o p d h = ground (arith, get-set_self key (failed c at) b)
