-- ===== src/Examples/Feeds.antt =====
-- src/application/feed-subscriptions/schedule.ts at concrete inputs.
use content_lens.Prelude.{
  List, ℕ, ◌+◌, ◌≡◌, ◌⊎◌, refl, true, none, some, [], ◌∷◌, ◌++◌, JsString, js, is_some,
  if◌then◌else◌, same, length,
}
use content_lens.Prelude.Dict
use content_lens.Feeds.Backoff.{next_rss_attempt_at, local_delay, spread}
use content_lens.Feeds.Queue.{
  Queue, empty, begin, drain, drain_list, enqueue, schedule, schedule_found, cancel, finish,
}
use content_lens.Feeds.Queue.Consistent.{IsConsistent}
use content_lens.Feeds.Queue.Settling.{
  Reach, created, schedules, finishes, rests, ends, Reach-IsConsistent, queue_empties,
}
use content_lens.Feeds.Queue.Calls.{
  Move, scheduling, cancelling, ending, moves, schedule-schedule, new_work, cancel_answers,
}

abbrev first : JsString
first = js "a"

abbrev second : JsString
second = js "b"

abbrev start : Queue ℕ
start = record {
  concurrency = 1;
  pending = [];
  inflight = [];
  controllers = [];
  active = 0;
  next_promise = 0;
}

-- One feed is read at a time: the first is on, the second waits.
abbrev both : Queue ℕ
both = (schedule (schedule start first 1).2 second 2).2

second_waits : (both.active ≡ 1) × (length both.pending ≡ 1) × (length both.inflight ≡ 2)
unfolding schedule schedule_found enqueue drain drain_list begin Dict.get Dict.set same
second_waits = (refl, refl, refl)

reached : Reach both
unfolding empty
reached = schedules second 2 (schedules first 1 (created 1 refl))

first_on : Dict.has first both.controllers ≡ true
unfolding schedule schedule_found enqueue drain drain_list begin Dict.get Dict.set same
first_on = refl

Reach-IsConsistent_example : IsConsistent (finish both first).1
Reach-IsConsistent_example = Reach-IsConsistent (finishes first reached first_on)

queue_empties_example :
    (length (finish both first).1.inflight + 1 ≡ length both.inflight)
    × (((1 ≡ length both.inflight)
          × ((finish both first).1.pending ≡ [])
          × ((finish both first).1.active ≡ 0))
        ⊎ ((feed : JsString) × (Dict.has feed (finish both first).1.controllers ≡ true)))
queue_empties_example = queue_empties reached (ends first rests first_on)

abbrev between : List (Move ℕ)
between = ending first ∷ scheduling (js "d") 5 ∷ cancelling second ∷ []

schedule-schedule_example :
    let q' = moves (schedule both (js "c") 3).2 between in
    (schedule q' (js "c") 4 ≡ ((schedule both (js "c") 3).0, [], q'))
    × ((schedule both (js "c") 3).1 ++ (schedule both (js "c") 3).2.pending
        ≡ both.pending
          ++ (if Dict.has (js "c") both.inflight then [] else new_work both (js "c") 3 ∷ []))
unfolding same
schedule-schedule_example = schedule-schedule both (js "c") 3 4 between refl

cancel_answers_example :
    let (answer, ended, q') = cancel both second in
    (answer ≡ Dict.has second both.inflight)
    × (((is_some ended ≡ true) × (Dict.get second q'.inflight ≡ none))
        ⊎ ((ended ≡ none)
            × (q'.inflight ≡ both.inflight)
            × (Dict.get second q'.controllers
                ≡ (if Dict.has second both.inflight then some true else none))))
cancel_answers_example = cancel_answers both second reached

third_failure : next_rss_attempt_at none 3 30 5000 (some 60000) ≡ 3605000
unfolding next_rss_attempt_at local_delay spread
third_failure = refl
