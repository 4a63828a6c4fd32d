-- ===== src/Feeds/Queue/Settling.antt =====
-- src/application/feed-subscriptions/schedule.ts: every feed that is in flight is read, in the order of the calls.
use content_lens.Prelude.{
  ℕ, suc, ◌+◌, ◌-◌, ◌≤◌, ◌≡◌, refl, ap, Bool, true, some, List, [], ◌∷◌, JsString, same_iff, length,
  arith, ◌⊎◌, inl, inr, Bool-cases, ◌≢◌, ◌==◌, ==_iff,
}
use content_lens.Prelude.Dict
use content_lens.Prelude.Dict.{length-delete_old}
use content_lens.Feeds.Queue.{
  Work, Queue, empty, begin, drain, drain_list, schedule, cancel, finish,
}
use content_lens.Feeds.Queue.Cancelling.{cancel-IsConsistent}
use content_lens.Feeds.Queue.Consistent.{
  IsConsistent, active_is_inflight, schedule-IsConsistent, empty-IsConsistent, finish-IsConsistent,
}

module _ {S : Type 0} where
  -- A queue after calls and ended acquisitions, an acquisition ending only when it is on.
  pub data Reach : Queue S → Type 0 where
    created : {q : Queue S} (c : ℕ) → empty c ≡ some q → Reach q
    schedules : {q : Queue S} (feed : JsString) (s : S) → Reach q → Reach (schedule q feed s).2
    cancels : {q : Queue S} (feed : JsString) → Reach q → Reach (cancel q feed).2
    finishes :
        {q : Queue S} (feed : JsString)
        → Reach q
        → Dict.has feed q.controllers ≡ true
        → Reach (finish q feed).1

  -- Acquisitions that are on end one after the other, with no call in between: how many.
  pub data Settles (q : Queue S) : ℕ → Queue S → Type 0 where
    rests : Settles q 0 q
    ends :
        {n : ℕ} {q' : Queue S} (feed : JsString)
        → Settles q n q'
        → Dict.has feed q'.controllers ≡ true
        → Settles q (suc n) (finish q' feed).1

  pub Reach-IsConsistent : {q : Queue S} → Reach q → IsConsistent q
  Reach-IsConsistent {q} (created c e) = empty-IsConsistent c q e
  Reach-IsConsistent (schedules {q} feed s w) =
      schedule-IsConsistent q feed s (Reach-IsConsistent w)
  Reach-IsConsistent (cancels {q} feed w) = cancel-IsConsistent q feed (Reach-IsConsistent w)
  Reach-IsConsistent (finishes {q} feed w h) = finish-IsConsistent q feed (Reach-IsConsistent w) h

  Settles-IsConsistent :
      (q : Queue S) {n : ℕ} (q' : Queue S) → IsConsistent q → Settles q n q' → IsConsistent q'
  Settles-IsConsistent q q' v rests = v
  Settles-IsConsistent q _ v (ends {n} {q'} feed w h) =
      finish-IsConsistent q' feed (Settles-IsConsistent q q' v w) h

  pub drain_list-inflight :
      (q : Queue S) (ws : List (Work S)) → (drain_list q ws).1.inflight ≡ q.inflight
  unfolding drain_list begin
  drain_list-inflight q [] = refl
  drain_list-inflight q (w ∷ ws) = ground (arith, drain_list-inflight (begin q w) ws)

  finish-inflight :
      (q : Queue S) (feed : JsString)
      → IsConsistent q
      → Dict.has feed q.controllers ≡ true
      → length (finish q feed).1.inflight + 1 ≡ length q.inflight
  unfolding finish drain
  finish-inflight q feed v h =
      rw
        (drain_list-inflight
          (record q {
            active = q.active - 1;
            controllers = Dict.delete feed q.controllers;
            inflight = Dict.delete feed q.inflight;
          })
          q.pending)
        (length-delete_old feed q.inflight v.counted.once_inflight
          (active_is_inflight feed v.counted h))

  Settles-inflight :
      (q : Queue S) {n : ℕ} (q' : Queue S)
      → IsConsistent q
      → Settles q n q'
      → length q'.inflight + n ≡ length q.inflight
  Settles-inflight q q' v rests = omega arith
  Settles-inflight q _ v (ends {n} {q'} feed w h) =
      omega (
        arith,
        Settles-inflight q q' v w,
        finish-inflight q' feed (Settles-IsConsistent q q' v w) h,
      )

  some_is_on :
      (q : Queue S)
      → IsConsistent q
      → length q.inflight ≢ 0
      → (feed : JsString) × (Dict.has feed q.controllers ≡ true)
  unfolding Dict.get
  some_is_on q v h = first_on q.controllers (elim v.busy [
    | inl e ↦ let none_left = ap length e in omega (arith, v.counted.of_inflight, h)
    | inr e ↦ omega (arith, v.counted.of_active, v.counted.allowed.0)
  ])
    where
      first_on : (m : Dict.Dict Bool) → 1 ≤ length m → (feed : JsString) × (Dict.has feed m ≡ true)
      first_on [] l = absurd (omega (arith, l))
      first_on ((k, b) ∷ m) l = (k, ground (arith, same_iff k k))

  no_elements : (ws : List (Work S)) → length ws ≡ 0 → ws ≡ []
  no_elements [] e = refl
  no_elements (w ∷ ws) e = ground arith

  -- From any queue after calls and ended acquisitions, when those that are on end one after the other with no
  -- call in between: each leaves one feed less in flight, and one more can end, unless as many have
  -- ended as feeds were in flight; then none waits and none is on.
  pub queue_empties :
      {n : ℕ} {q q' : Queue S}
      → Reach q
      → Settles q n q'
      → (length q'.inflight + n ≡ length q.inflight)
        × (((n ≡ length q.inflight) × (q'.pending ≡ []) × (q'.active ≡ 0))
            ⊎ ((feed : JsString) × (Dict.has feed q'.controllers ≡ true)))
  queue_empties {n} {q} {q'} r w =
      let v' = Settles-IsConsistent q q' (Reach-IsConsistent r) w in
      let left = Settles-inflight q q' (Reach-IsConsistent r) w in
      (
        left,
        elim (Bool-cases (length q'.inflight == 0)) [
          | inl z ↦
              let empty = (==_iff (length q'.inflight) 0).0 z in
              inl (
                omega (arith, left, empty),
                no_elements q'.pending (omega (arith, empty, v'.counted.of_inflight)),
                omega (arith, empty, v'.counted.of_inflight, v'.counted.of_active),
              )
          | inr z ↦ inr (some_is_on q' v' (ground arith))
        ],
      )
