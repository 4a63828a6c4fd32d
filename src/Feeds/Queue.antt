-- ===== src/Feeds/Queue.antt =====
-- src/application/feed-subscriptions/schedule.ts: `RssAcquisitionQueue`, which reads each feed once at a time
-- and at most `concurrency` feeds. `S` are the subscriptions. A promise is the number of its call of
-- `schedule`; a controller is whether it was aborted.
pub mod Calls
pub mod Consistent
pub mod Cancelling
pub mod Settling
use content_lens.Prelude.{
  ℕ, zero, suc, ◌+◌, ◌-◌, Bool, true, false, ◌||◌, Option, none, some, List, [], ◌∷◌, ◌++◌,
  JsString, same, ltb, if◌then◌else◌, length,
}
use content_lens.Prelude.Dict.{Dict}
use content_lens.Prelude.Dict

-- An entry of `#pending`, with the feed's id of its subscription. Its controller is not yet aborted.
pub record Work (S : Type 0) : Type 0 where
  pub feed_id : JsString
  pub subscription : S
  pub promise : ℕ

pub record Queue (S : Type 0) : Type 0 where
  pub concurrency : ℕ
  pub pending : List (Work S)
  pub inflight : Dict ℕ
  pub controllers : Dict Bool
  pub active : ℕ
  pub next_promise : ℕ

abbrev pub max_concurrency : ℕ
max_concurrency = 5

module _ {S : Type 0} where
  -- The constructor, with what it throws a `RangeError` for as nothing.
  unfoldable pub empty : ℕ → Option (Queue S)
  empty concurrency =
      if ltb concurrency 1 || ltb max_concurrency concurrency
      then none
      else some (record {
        concurrency = concurrency;
        pending = [];
        inflight = [];
        controllers = [];
        active = 0;
        next_promise = 0;
      })

  -- A pass of the loop of `#drain`: the work is on.
  unfoldable pub begin : Queue S → Work S → Queue S
  begin q w = record q {
    active = q.active + 1;
    controllers = Dict.set w.feed_id false q.controllers;
  }

  -- The loop over what is pending: the works that begin, and the queue.
  unfoldable pub drain_list : Queue S → List (Work S) → List (Work S) × Queue S
  unfolding begin
  drain_list q [] = ([], record q { pending = [] })
  drain_list q (w ∷ ws) =
      let (begun, q') = drain_list (begin q w) ws in
      if ltb q.active q.concurrency then (w ∷ begun, q') else ([], record q { pending = w ∷ ws })

  -- `#drain`
  unfoldable pub drain : Queue S → List (Work S) × Queue S
  unfolding drain_list
  drain q = drain_list q q.pending

  -- What `schedule` does before it drains, when the feed is not in flight.
  unfoldable pub enqueue : Queue S → JsString → S → Queue S
  enqueue q feed subscription = record q {
    pending =
        q.pending
        ++ (record { feed_id = feed; subscription = subscription; promise = q.next_promise } ∷ []);
    inflight = Dict.set feed q.next_promise q.inflight;
    next_promise = q.next_promise + 1;
  }

  unfoldable pub schedule_found : Queue S → JsString → S → Option ℕ → ℕ × List (Work S) × Queue S
  unfolding enqueue drain
  schedule_found q feed subscription (some promise) = (promise, [], q)
  schedule_found q feed subscription none =
      let (begun, q') = drain (enqueue q feed subscription) in (q.next_promise, begun, q')

  -- `schedule`: the promise, and the works that begin.
  unfoldable pub schedule : Queue S → JsString → S → ℕ × List (Work S) × Queue S
  unfolding schedule_found
  schedule q feed subscription = schedule_found q feed subscription (Dict.get feed q.inflight)

  -- `findIndex` and `splice`: the first pending work of the feed, and the others.
  unfoldable pub take_out : JsString → List (Work S) → Option (Work S) × List (Work S)
  take_out feed [] = (none, [])
  take_out feed (w ∷ ws) =
      let (found, rest) = take_out feed ws in
      if same w.feed_id feed then (some w, ws) else (found, w ∷ rest)

  unfoldable pub abort_found : Queue S → JsString → Option Bool → Bool × Queue S
  abort_found q feed none = (false, q)
  abort_found q feed (some aborted) =
      (true, record q { controllers = Dict.set feed true q.controllers })

  unfoldable pub cancel_found :
      Queue S → JsString → Option (Work S) × List (Work S) → Bool × Option (Work S) × Queue S
  unfolding abort_found
  cancel_found q feed (some w, rest) =
      (true, some w, record q { pending = rest; inflight = Dict.delete feed q.inflight })
  cancel_found q feed (none, rest) =
      let (answer, q') = abort_found q feed (Dict.get feed q.controllers) in (answer, none, q')

  -- `cancel`: its answer, and the pending work that ends as aborted.
  unfoldable pub cancel : Queue S → JsString → Bool × Option (Work S) × Queue S
  unfolding cancel_found take_out
  cancel q feed = cancel_found q feed (take_out feed q.pending)

  -- What `finally` does when the acquisition of a feed has ended: the works that begin.
  unfoldable pub finish : Queue S → JsString → List (Work S) × Queue S
  unfolding drain
  finish q feed = drain (record q {
    active = q.active - 1;
    controllers = Dict.delete feed q.controllers;
    inflight = Dict.delete feed q.inflight;
  })

  -- `snapshot`
  abbrev pub snapshot : Queue S → ℕ × ℕ × ℕ
  snapshot q = (q.active, length q.pending, length q.inflight)
