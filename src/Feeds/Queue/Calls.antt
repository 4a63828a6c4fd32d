-- ===== src/Feeds/Queue/Calls.antt =====
-- src/application/feed-subscriptions/schedule.ts: what `schedule` and `cancel` answer, and the order of the works.
use content_lens.Prelude.{
  ◌∙◌, Bool, false, any, same, ◌-◌, ℕ, ◌≡◌, refl, ap, true, Option, none, some, List, [], ◌∷◌, ◌++◌,
  JsString, same_iff, is_some, if◌then◌else◌, arith, ◌⊎◌, inl, inr, Option-cases,
}
use content_lens.Prelude.Dict
use content_lens.Prelude.Dict.{get-set, get-set_self, get-delete}
use content_lens.Feeds.Queue.{
  Work, Queue, begin, drain, drain_list, enqueue, schedule, schedule_found, take_out, abort_found,
  cancel, cancel_found, finish,
}
use content_lens.Feeds.Queue.Cancelling.{take_out-found, take_out-none}
use content_lens.Feeds.Queue.Consistent.{IsConsistent}
use content_lens.Feeds.Queue.Settling.{Reach, Reach-IsConsistent, drain_list-inflight}

-- A call of the queue, or the end of an acquisition.
pub data Move (S : Type 0) : Type 0 where
  scheduling : JsString → S → Move S
  cancelling ending : JsString → Move S

module _ {S : Type 0} where
  pub move : Queue S → Move S → Queue S
  move q (scheduling feed subscription) = (schedule q feed subscription).2
  move q (cancelling feed) = (cancel q feed).2
  move q (ending feed) = (finish q feed).1

  pub moves : Queue S → List (Move S) → Queue S
  moves q [] = q
  moves q (m ∷ ms) = moves (move q m) ms

  -- The end or the cancellation of a feed's acquisition.
  abbrev pub ends_feed : JsString → Move S → Bool
  ends_feed feed (scheduling other subscription) = false
  ends_feed feed (cancelling other) = same other feed
  ends_feed feed (ending other) = same other feed

  schedule_found-inflight :
      (q : Queue S) (other : JsString) (s : S) (found : Option ℕ) (feed : JsString) (n : ℕ)
      → Dict.get other q.inflight ≡ found
      → Dict.get feed q.inflight ≡ some n
      → Dict.get feed (schedule_found q other s found).2.inflight ≡ some n
  unfolding schedule_found drain enqueue
  schedule_found-inflight q other s (some k) feed n e h = h
  schedule_found-inflight q other s none feed n e h =
      ap (Dict.get feed) (drain_list-inflight (enqueue q other s) (enqueue q other s).pending)
      ∙ ground (arith, get-set other feed q.next_promise q.inflight, same_iff other feed, e, h)

  cancel_found-inflight :
      (q : Queue S) (other : JsString) (found : Option (Work S) × List (Work S)) (feed : JsString)
      (n : ℕ)
      → same other feed ≡ false
      → Dict.get feed q.inflight ≡ some n
      → Dict.get feed (cancel_found q other found).2.inflight ≡ some n
  unfolding cancel_found abort_found
  cancel_found-inflight q other (some w, rest) feed n a h =
      ground (arith, get-delete other feed q.inflight)
  cancel_found-inflight q other (none, rest) feed n a h =
      elim (Option-cases (Dict.get other q.controllers)) [
        | inl c ↦ rw (c, abort_found) h
        | inr (b, c) ↦ rw (c, abort_found) h
      ]

  drain_list-split :
      (q : Queue S) (ws : List (Work S)) → (drain_list q ws).0 ++ (drain_list q ws).1.pending ≡ ws
  unfolding drain_list
  drain_list-split q [] = refl
  drain_list-split q (w ∷ ws) = ground (arith, drain_list-split (begin q w) ws)

  abbrev pub new_work : Queue S → JsString → S → Work S
  new_work q feed s = record { feed_id = feed; subscription = s; promise = q.next_promise }

  schedule-joins :
      (q : Queue S) (feed : JsString) (s : S) (n : ℕ)
      → Dict.get feed q.inflight ≡ some n
      → schedule q feed s ≡ (n, [], q)
  unfolding schedule schedule_found
  schedule-joins q feed s n h = rw h refl

  schedule-adds :
      (q : Queue S) (feed : JsString) (s : S)
      → Dict.get feed q.inflight ≡ none
      → ((schedule q feed s).0 ≡ q.next_promise)
        × (Dict.get feed (schedule q feed s).2.inflight ≡ some q.next_promise)
        × ((schedule q feed s).1 ++ (schedule q feed s).2.pending
            ≡ q.pending ++ (new_work q feed s ∷ []))
  unfolding schedule schedule_found drain enqueue
  schedule-adds q feed s h =
      rw (h, drain_list-inflight (enqueue q feed s) (enqueue q feed s).pending)
        (
          refl,
          get-set_self feed q.next_promise q.inflight,
          drain_list-split (enqueue q feed s) (enqueue q feed s).pending,
        )

  append_none : (ws : List (Work S)) → ws ≡ ws ++ []
  append_none [] = refl
  append_none (w ∷ ws) = ap (λ r. w ∷ r) (append_none ws)

  -- A step of the queue keeps a feed that is in flight, if it is not the end or the cancellation of its acquisition.
  move-inflight :
      (q : Queue S) (m : Move S) (feed : JsString) (n : ℕ)
      → ends_feed feed m ≡ false
      → Dict.get feed q.inflight ≡ some n
      → Dict.get feed (move q m).inflight ≡ some n
  unfolding move schedule cancel finish drain
  move-inflight q (scheduling other s) feed n a h =
      schedule_found-inflight q other s (Dict.get other q.inflight) feed n refl h
  move-inflight q (cancelling other) feed n a h =
      cancel_found-inflight q other (take_out other q.pending) feed n a h
  move-inflight q (ending other) feed n a h =
      let q' : Queue S = record q {
        active = q.active - 1;
        controllers = Dict.delete other q.controllers;
        inflight = Dict.delete other q.inflight;
      } in
      ap (Dict.get feed) (drain_list-inflight q' q'.pending)
      ∙ ground (arith, get-delete other feed q.inflight, a, h)

  moves-inflight :
      (q : Queue S) (ms : List (Move S)) (feed : JsString) (n : ℕ)
      → any (ends_feed feed) ms ≡ false
      → Dict.get feed q.inflight ≡ some n
      → Dict.get feed (moves q ms).inflight ≡ some n
  unfolding moves
  moves-inflight q [] feed n a h = h
  moves-inflight q (m ∷ ms) feed n a h =
      moves-inflight (move q m) ms feed n (ground arith) (move-inflight q m feed n (ground arith) h)

  -- Two calls of `schedule` for a feed, with any calls and ends of acquisitions in between, but no end and no `cancel`
  -- of this feed: they give one promise, and the second begins nothing and changes nothing. The works that the
  -- first call begins and the ones it leaves pending are those that were pending, in their order, with
  -- the new one at the end when the feed was not in flight.
  pub schedule-schedule :
      (q : Queue S) (feed : JsString) (s t : S) (ms : List (Move S))
      → any (ends_feed feed) ms ≡ false
      → let q' = moves (schedule q feed s).2 ms in
        (schedule q' feed t ≡ ((schedule q feed s).0, [], q'))
        × ((schedule q feed s).1 ++ (schedule q feed s).2.pending
            ≡ q.pending ++ (if Dict.has feed q.inflight then [] else new_work q feed s ∷ []))
  schedule-schedule q feed s t ms a = elim (Option-cases (Dict.get feed q.inflight)) [
    | inl h ↦
        let (promise, found, order) = schedule-adds q feed s h in
        let q' = moves (schedule q feed s).2 ms in
        (
          rw promise (
              schedule-joins q' feed t q.next_promise
                (moves-inflight (schedule q feed s).2 ms feed q.next_promise a found)),
          rw h order,
        )
    | inr (n, h) ↦ (
      rw (schedule-joins q feed s n h)
          (schedule-joins (moves q ms) feed t n (moves-inflight q ms feed n a h)),
      rw (schedule-joins q feed s n h, h) (append_none q.pending),
    )
  ]

  cancel-cases :
      (q : Queue S) (feed : JsString) (found : Option (Work S) × List (Work S))
      → IsConsistent q
      → take_out feed q.pending ≡ found
      → let (answer, ended, q') = cancel_found q feed found in
        (answer ≡ Dict.has feed q.inflight)
        × (((is_some ended ≡ true) × (Dict.get feed q'.inflight ≡ none))
            ⊎ ((ended ≡ none)
                × (q'.inflight ≡ q.inflight)
                × (Dict.get feed q'.controllers
                    ≡ (if Dict.has feed q.inflight then some true else none))))
  unfolding cancel_found abort_found
  cancel-cases q feed (some w, rest) v e =
      let (more, longer, at) = take_out-found feed q.pending rest w e in
      (
        ground (arith, v.counted.of_feed feed, more feed, same_iff feed feed),
        inl (refl, ground (arith, get-delete feed feed q.inflight, same_iff feed feed)),
      )
  cancel-cases q feed (none, rest) v e =
      let none_pending = take_out-none feed q.pending rest e in
      elim (Option-cases (Dict.get feed q.controllers)) [
        | inl h ↦ rw h (
          ground (arith, v.counted.of_feed feed),
          inr (refl, refl, ground (arith, v.counted.of_feed feed)),
        )
        | inr (b, h) ↦ rw h (
          ground (arith, v.counted.of_feed feed),
          inr (
            refl,
            refl,
            ground (
              arith,
              v.counted.of_feed feed,
              get-set feed feed true q.controllers,
              same_iff feed feed,
            ),
          ),
        )
      ]

  -- After calls and ended acquisitions, `cancel` answers whether the feed is in flight. Either it ends a
  -- pending work, and the feed is no longer in flight, or it ends none and leaves what is in flight, and the
  -- controller of the feed is aborted if the feed is in flight.
  pub cancel_answers :
      (q : Queue S) (feed : JsString)
      → Reach q
      → let (answer, ended, q') = cancel q feed in
        (answer ≡ Dict.has feed q.inflight)
        × (((is_some ended ≡ true) × (Dict.get feed q'.inflight ≡ none))
            ⊎ ((ended ≡ none)
                × (q'.inflight ≡ q.inflight)
                × (Dict.get feed q'.controllers
                    ≡ (if Dict.has feed q.inflight then some true else none))))
  unfolding cancel
  cancel_answers q feed r =
      cancel-cases q feed (take_out feed q.pending) (Reach-IsConsistent r) refl
