-- ===== src/Feeds/Queue/Consistent.antt =====
-- src/application/feed-subscriptions/schedule.ts: the queue after any calls and ended acquisitions.
use content_lens.Prelude.{
  ℕ, ◌+◌, ◌-◌, ◌≤◌, ◌<◌, ◌≡◌, refl, subst, if-some, ◌||◌, Bool, true, false, Option, none, some,
  List, [], ◌∷◌, ◌++◌, JsString, same, same_iff, ltb, if◌then◌else◌, length, length-append, arith,
  ◌⊎◌, inl, inr, Bool-cases,
}
use content_lens.Prelude.Dict.{
  Unique, get-set, get-delete, length-set_new, length-set_old, length-delete_old, Unique-set,
  Unique-delete,
}
use content_lens.Prelude.Dict
use content_lens.Feeds.Queue.{
  max_concurrency, Work, Queue, empty, begin, drain, drain_list, enqueue, schedule, schedule_found,
  finish,
}

abbrev pub as_one : Bool → ℕ
as_one true = 1
as_one false = 0

module _ {S : Type 0} where
  -- How many pending works there are of a feed.
  unfoldable pub pending_of : JsString → List (Work S) → ℕ
  pending_of k [] = 0
  pending_of k (w ∷ ws) = as_one (same w.feed_id k) + pending_of k ws

  -- What is pending or on is in flight, and nothing else, once; the counter is that of the controllers.
  pub record IsCounted (q : Queue S) (ws : List (Work S)) : Type 0 where
    pub of_feed :
        (k : JsString)
        → as_one (Dict.has k q.inflight) ≡ pending_of k ws + as_one (Dict.has k q.controllers)
    pub of_inflight : length q.inflight ≡ length ws + length q.controllers
    pub of_active : q.active ≡ length q.controllers
    pub within : q.active ≤ q.concurrency
    pub allowed : (1 ≤ q.concurrency) × (q.concurrency ≤ max_concurrency)
    pub once_inflight : Unique q.inflight
    pub once_active : Unique q.controllers

  -- What is pending waits only while the queue is full.
  pub record IsConsistent (q : Queue S) : Type 0 where
    pub counted : IsCounted q q.pending
    pub busy : (q.pending ≡ []) ⊎ (q.active ≡ q.concurrency)

  pub active_is_inflight :
      {q : Queue S} {ws : List (Work S)} (feed : JsString)
      → IsCounted q ws
      → Dict.has feed q.controllers ≡ true
      → Dict.has feed q.inflight ≡ true
  active_is_inflight feed v h = ground (arith, v.of_feed feed)

  pending_of-append :
      (k : JsString) (ws : List (Work S)) (w : Work S)
      → pending_of k (ws ++ (w ∷ [])) ≡ pending_of k ws + as_one (same w.feed_id k)
  unfolding pending_of
  pending_of-append k [] w = omega arith
  pending_of-append k (x ∷ ws) w = omega (arith, pending_of-append k ws w)

  begin-IsCounted :
      (q : Queue S) (w : Work S) (ws : List (Work S))
      → IsCounted q (w ∷ ws)
      → q.active < q.concurrency
      → IsCounted (begin q w) ws
  unfolding begin pending_of
  begin-IsCounted q w ws v h =
      let new : Dict.get w.feed_id q.controllers ≡ none =
        ground (arith, v.of_feed w.feed_id, same_iff w.feed_id w.feed_id) in
      let longer = length-set_new w.feed_id false q.controllers new in
      record {
        of_feed = λ k.
            ground
              (arith, v.of_feed k, get-set w.feed_id k false q.controllers, same_iff w.feed_id k);
        of_inflight = omega (arith, v.of_inflight, longer);
        of_active = omega (arith, v.of_active, longer);
        within = omega (arith, h);
        allowed = v.allowed;
        once_inflight = v.once_inflight;
        once_active = Unique-set w.feed_id false q.controllers v.once_active;
      }

  drain_list-IsConsistent :
      (q : Queue S) (ws : List (Work S)) → IsCounted q ws → IsConsistent (drain_list q ws).1
  unfolding drain_list
  drain_list-IsConsistent q [] v = record {
    counted = record {
      of_feed = v.of_feed;
      of_inflight = v.of_inflight;
      of_active = v.of_active;
      within = v.within;
      allowed = v.allowed;
      once_inflight = v.once_inflight;
      once_active = v.once_active;
    };
    busy = inl refl;
  }
  drain_list-IsConsistent q (w ∷ ws) v = elim (Bool-cases (ltb q.active q.concurrency)) [
    | inl s ↦
        rw (s, if◌then◌else◌)
          (drain_list-IsConsistent (begin q w) ws (begin-IsCounted q w ws v (ground arith)))
    | inr s ↦
        rw (s, if◌then◌else◌)
          (record {
            counted = record {
              of_feed = v.of_feed;
              of_inflight = v.of_inflight;
              of_active = v.of_active;
              within = v.within;
              allowed = v.allowed;
              once_inflight = v.once_inflight;
              once_active = v.once_active;
            };
            busy = inr (ground (arith, v.within));
          })
  ]

  enqueue-IsCounted :
      (q : Queue S) (feed : JsString) (s : S)
      → IsConsistent q
      → Dict.get feed q.inflight ≡ none
      → IsCounted (enqueue q feed s) (enqueue q feed s).pending
  unfolding enqueue
  enqueue-IsCounted q feed s v h =
      let c = v.counted in
      let w : Work S = record { feed_id = feed; subscription = s; promise = q.next_promise } in
      let longer = length-set_new feed q.next_promise q.inflight h in
      record {
        of_feed = λ k. ground (
          arith,
          c.of_feed k,
          pending_of-append k q.pending w,
          get-set feed k q.next_promise q.inflight,
          same_iff feed k,
        );
        of_inflight = omega (arith, c.of_inflight, longer, length-append q.pending (w ∷ []));
        of_active = c.of_active;
        within = c.within;
        allowed = c.allowed;
        once_inflight = Unique-set feed q.next_promise q.inflight c.once_inflight;
        once_active = c.once_active;
      }

  schedule_found-IsConsistent :
      (q : Queue S) (feed : JsString) (s : S) (found : Option ℕ)
      → IsConsistent q
      → Dict.get feed q.inflight ≡ found
      → IsConsistent (schedule_found q feed s found).2
  unfolding schedule_found drain
  schedule_found-IsConsistent q feed s none v e =
      drain_list-IsConsistent (enqueue q feed s) (enqueue q feed s).pending
        (enqueue-IsCounted q feed s v e)
  schedule_found-IsConsistent q feed s (some n) v e = v

  pub finish-IsConsistent :
      (q : Queue S) (feed : JsString)
      → IsConsistent q
      → Dict.has feed q.controllers ≡ true
      → IsConsistent (finish q feed).1
  unfolding finish drain
  finish-IsConsistent q feed v h =
      let c = v.counted in
      let there = active_is_inflight feed c h in
      let fewer = length-delete_old feed q.controllers c.once_active h in
      let left = length-delete_old feed q.inflight c.once_inflight there in
      drain_list-IsConsistent
        (record q {
          active = q.active - 1;
          controllers = Dict.delete feed q.controllers;
          inflight = Dict.delete feed q.inflight;
        })
        q.pending
        (record {
          of_feed = λ k. ground (
            arith,
            c.of_feed k,
            get-delete feed k q.inflight,
            get-delete feed k q.controllers,
            same_iff feed k,
          );
          of_inflight = omega (arith, c.of_inflight, fewer, left);
          of_active = omega (arith, c.of_active, fewer);
          within = omega (arith, c.within);
          allowed = c.allowed;
          once_inflight = Unique-delete feed q.inflight c.once_inflight;
          once_active = Unique-delete feed q.controllers c.once_active;
        })

  pub schedule-IsConsistent :
      (q : Queue S) (feed : JsString) (s : S) → IsConsistent q → IsConsistent (schedule q feed s).2
  unfolding schedule
  schedule-IsConsistent q feed s v =
      schedule_found-IsConsistent q feed s (Dict.get feed q.inflight) v refl

  unused : ℕ → Queue S
  unused c = record {
    concurrency = c;
    pending = [];
    inflight = [];
    controllers = [];
    active = 0;
    next_promise = 0;
  }

  pub empty-IsConsistent : (c : ℕ) (q : Queue S) → empty c ≡ some q → IsConsistent q
  unfolding empty unused pending_of Dict.get
  empty-IsConsistent c q e =
      subst IsConsistent (if-some (ltb c 1 || ltb max_concurrency c) (unused c) q e) (record {
        counted = record {
          of_feed = λ k. refl;
          of_inflight = refl;
          of_active = refl;
          within = omega arith;
          allowed = (ground arith, ground arith);
          once_inflight = tt;
          once_active = tt;
        };
        busy = inl refl;
      })
