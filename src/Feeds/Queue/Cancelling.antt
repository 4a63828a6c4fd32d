-- ===== src/Feeds/Queue/Cancelling.antt =====
-- src/application/feed-subscriptions/schedule.ts: `cancel` leaves the queue consistent.
use content_lens.Prelude.{
  ℕ, suc, ◌+◌, ◌≡◌, refl, Bool, true, Option, none, some, List, [], ◌∷◌, JsString, same, same_iff,
  length, arith, inl, inr, Bool-cases,
}
use content_lens.Prelude.Dict.{
  Unique, get-set, get-delete, length-set_new, length-set_old, length-delete_old, Unique-set,
  Unique-delete,
}
use content_lens.Prelude.Dict
use content_lens.Feeds.Queue.{Work, Queue, take_out, abort_found, cancel, cancel_found}
use content_lens.Feeds.Queue.Consistent.{as_one, pending_of, IsConsistent}

module _ {S : Type 0} where
  -- The work that `cancel` finds is one of the feed, and the rest are the others.
  pub take_out-found :
      (feed : JsString) (ws rest : List (Work S)) (w : Work S)
      → take_out feed ws ≡ (some w, rest)
      → ((k : JsString) → pending_of k ws ≡ pending_of k rest + as_one (same feed k))
        × (length ws ≡ length rest + 1)
        × (w.feed_id ≡ feed)
  unfolding take_out pending_of
  take_out-found feed [] rest w e = ground arith
  take_out-found feed (x ∷ ws) rest w e = elim (Bool-cases (same x.feed_id feed)) [
    | inl s ↦
        let at : x.feed_id ≡ feed = (same_iff x.feed_id feed).0 s in
        (λ k. ground (arith, at), ground arith, ground (arith, at))
    | inr s ↦
        let ih = take_out-found feed ws (take_out feed ws).1 w (ground arith) in
        (λ k. ground (arith, ih.0 k), ground (arith, ih.1), ih.2)
  ]

  pub take_out-none :
      (feed : JsString) (ws rest : List (Work S))
      → take_out feed ws ≡ (none, rest)
      → pending_of feed ws ≡ 0
  unfolding take_out pending_of
  take_out-none feed [] rest e = refl
  take_out-none feed (x ∷ ws) rest e = ground (arith, take_out-none feed ws (take_out feed ws).1)

  abort_found-IsConsistent :
      (q : Queue S) (feed : JsString) (found : Option Bool)
      → IsConsistent q
      → Dict.get feed q.controllers ≡ found
      → IsConsistent (abort_found q feed found).1
  unfolding abort_found
  abort_found-IsConsistent q feed none v e = v
  abort_found-IsConsistent q feed (some b) v e =
      let c = v.counted in
      let old = length-set_old feed true q.controllers (ground arith) in
      record {
        counted = record {
          of_feed =
              λ k. ground (arith, c.of_feed k, get-set feed k true q.controllers, same_iff feed k);
          of_inflight = omega (arith, c.of_inflight, old);
          of_active = omega (arith, c.of_active, old);
          within = c.within;
          allowed = c.allowed;
          once_inflight = c.once_inflight;
          once_active = Unique-set feed true q.controllers c.once_active;
        };
        busy = v.busy;
      }

  cancel_found-IsConsistent :
      (q : Queue S) (feed : JsString) (found : Option (Work S) × List (Work S))
      → IsConsistent q
      → take_out feed q.pending ≡ found
      → IsConsistent (cancel_found q feed found).2
  unfolding cancel_found
  cancel_found-IsConsistent q feed (none, rest) v e =
      abort_found-IsConsistent q feed (Dict.get feed q.controllers) v refl
  cancel_found-IsConsistent q feed (some w, rest) v e =
      let c = v.counted in
      let (fewer, shorter, at) = take_out-found feed q.pending rest w e in
      let there : Dict.has feed q.inflight ≡ true =
        ground (arith, c.of_feed feed, fewer feed, same_iff feed feed) in
      let left = length-delete_old feed q.inflight c.once_inflight there in
      record {
        counted = record {
          of_feed = λ k. ground (
            arith,
            c.of_feed k,
            c.of_feed feed,
            fewer k,
            get-delete feed k q.inflight,
            same_iff feed k,
          );
          of_inflight = omega (arith, c.of_inflight, shorter, left);
          of_active = c.of_active;
          within = c.within;
          allowed = c.allowed;
          once_inflight = Unique-delete feed q.inflight c.once_inflight;
          once_active = c.once_active;
        };
        busy = elim v.busy [
          | inl none_left ↦
              absurd (no_more q.pending (length rest) none_left (omega (arith, shorter)))
          | inr full ↦ inr full
        ];
      }
    where
      no_more : (ws : List (Work S)) (n : ℕ) → ws ≡ [] → length ws ≡ suc n → ⊥
      no_more ws n e l = ground arith

  pub cancel-IsConsistent :
      (q : Queue S) (feed : JsString) → IsConsistent q → IsConsistent (cancel q feed).2
  unfolding cancel
  cancel-IsConsistent q feed v = cancel_found-IsConsistent q feed (take_out feed q.pending) v refl
