-- ===== src/Sync/Tombstones/Compacting.antt =====
-- src/sync/tombstones.ts: what a compaction needs, and what it leaves.
use content_lens.Prelude.{
  ℕ, ◌+◌, ◌≤◌, ◌<◌, ◌≡◌, ◌∙◌, refl, ap, sym, true, false, not, ◌&&◌, Option, none, some, List, [],
  ◌∷◌, JsString, same, same_iff, any, map, keep, length, arith, All,
}
use content_lens.Sync.Envelope.{
  all_different, Tombstone, Envelope, Platform, key_of, seal, verify, valid,
}
use content_lens.Sync.Envelope.Sealing.{seal-verify}
use content_lens.Sync.Merge.{Result, merge_sync_envelopes}
use content_lens.Sync.Merge.Sides.{merge_sync_envelopes-candidate}
use content_lens.Sync.Envelope.{rules}
use content_lens.Sync.Tombstones.{
  Device, Block, compacted, Request, is_truthy, is_behind, is_invalid_selection, block_of,
  compacted_payload, compact_unless, sealed_compaction, compact_tombstones,
}

unblocked :
    (e : Envelope) (q : Request)
    → block_of e q ≡ none
    → (q.confirmed_remote_digest ≡ e.digest)
      × (is_truthy q.recovery_snapshot_digest ≡ true)
      × (q.conflict_count ≡ 0)
      × (q.pending_operation_count ≡ 0)
      × (any (is_behind e.payload.generation) q.known_devices ≡ false)
      × (is_invalid_selection (map key_of e.payload.tombstones) q.selected_keys ≡ false)
unfolding block_of
unblocked e q h = ground (arith, same_iff q.confirmed_remote_digest e.digest)

-- A device that is not behind was revoked or has confirmed the generation.
abbrev pub HasConfirmed : ℕ → Device → Type 0
HasConfirmed generation device = device.revoked ≡ false → generation ≤ device.confirmed_generation

All-confirmed :
    (generation : ℕ) (ds : List Device)
    → any (is_behind generation) ds ≡ false
    → All (HasConfirmed generation) ds
All-confirmed generation [] h = tt
All-confirmed generation (d ∷ ds) h =
    (λ r. ground arith, All-confirmed generation ds (ground arith))

compact_unless-compacted :
    (platform : Platform) (e e' : Envelope) (q : Request) (b : Option Block)
    (removed generation : ℕ)
    → compact_unless platform e q b ≡ some (compacted removed generation e')
    → (b ≡ none)
      × (removed ≡ length q.selected_keys)
      × (generation ≡ e.payload.generation)
      × (seal platform (compacted_payload e.payload q.selected_keys) ≡ some e')
unfolding compact_unless sealed_compaction
compact_unless-compacted platform e e' q none removed generation h = ground arith
compact_unless-compacted platform e e' q (some b) removed generation h = ground arith

-- A key that is some tombstone's.
abbrev pub IsPresent : List Tombstone → JsString → Type 0
IsPresent ds k = any (λ d. same k (key_of d)) ds ≡ true

any-key_of :
    (k : JsString) (ds : List Tombstone)
    → any (same k) (map key_of ds) ≡ any (λ d. same k (key_of d)) ds
any-key_of k [] = refl
any-key_of k (d ∷ ds) = ground (arith, any-key_of k ds)

All-IsPresent :
    (ds : List Tombstone) (selected : List JsString)
    → any (λ k. not (any (same k) (map key_of ds))) selected ≡ false
    → All (IsPresent ds) selected
All-IsPresent ds [] h = tt
All-IsPresent ds (k ∷ ks) h = (ground (arith, any-key_of k ds), All-IsPresent ds ks (ground arith))

-- What is kept, by a key.
any-kept :
    (selected : List JsString) (k : JsString) (ds : List Tombstone)
    → any (λ d. same k (key_of d)) (keep (λ d. not (any (same (key_of d)) selected)) ds)
      ≡ (not (any (same k) selected) && any (λ d. same k (key_of d)) ds)
any-kept selected k [] = ground arith
any-kept selected k (d ∷ ds) = ground (arith, any-kept selected k ds, same_iff k (key_of d))

-- A selection that passes its guard.
valid_selection :
    (ds : List Tombstone) (selected : List JsString)
    → is_invalid_selection (map key_of ds) selected ≡ false
    → (0 < length selected) × (all_different selected ≡ true) × All (IsPresent ds) selected
unfolding is_invalid_selection
valid_selection ds selected h =
    (ground arith, ground arith, All-IsPresent ds selected (ground arith))

-- When a compaction succeeds, the remote envelope was confirmed, a recovery snapshot exists, there is no conflict and
-- nothing pending, every device is revoked or has confirmed the generation, and the selection is not empty, holds
-- no key twice and only keys of tombstones that are there. As many are reported as removed as were
-- selected. The new envelope verifies, is of the next generation with the same profile, and has a
-- tombstone of a key exactly if the old one had it and it was not selected.
pub compact_tombstones-compacted :
    (platform : Platform) (e e' : Envelope) (q : Request) (removed generation : ℕ) (k : JsString)
    → compact_tombstones platform e q ≡ some (compacted removed generation e')
    → ((q.confirmed_remote_digest ≡ e.digest) × (is_truthy q.recovery_snapshot_digest ≡ true))
      × ((q.conflict_count ≡ 0) × (q.pending_operation_count ≡ 0))
      × All (HasConfirmed e.payload.generation) q.known_devices
      × ((0 < length q.selected_keys)
          × (all_different q.selected_keys ≡ true)
          × (removed ≡ length q.selected_keys)
          × All (IsPresent e.payload.tombstones) q.selected_keys)
      × ((verify platform e' ≡ valid e') × (e'.payload.profile ≡ e.payload.profile))
      × ((generation ≡ e.payload.generation) × (e'.payload.generation ≡ generation + 1))
      × (any (λ d. same k (key_of d)) e'.payload.tombstones ≡ (
          not (any (same k) q.selected_keys) && any (λ d. same k (key_of d)) e.payload.tombstones))
unfolding compact_tombstones compacted_payload
compact_tombstones-compacted platform e e' q removed generation k h =
    let (free, n, g, made) =
      compact_unless-compacted platform e e' q (block_of e q) removed generation h in
    let (digest, snapshot, conflicts, pending, devices, chosen) = unblocked e q free in
    let (some_chosen, once, held) = valid_selection e.payload.tombstones q.selected_keys chosen in
    let (p, v) = seal-verify platform (compacted_payload e.payload q.selected_keys) e' made in
    (
      (digest, snapshot),
      (conflicts, pending),
      All-confirmed e.payload.generation q.known_devices devices,
      (some_chosen, once, n, held),
      (v, ap (λ x. x.profile) p),
      (g, ap (λ x. x.generation) p ∙ ap (λ x. x + 1) (sym g)),
      ap (λ x. any (λ d. same k (key_of d)) x.tombstones) p
          ∙ any-kept q.selected_keys k e.payload.tombstones,
    )

no_candidate : (o : Option Envelope) → ((e : Envelope) → o ≡ some e → ⊥) → o ≡ none
no_candidate none f = refl
no_candidate (some e) f = absurd (f e refl)

-- A merge has no candidate when its base is of the generation from before a compaction and its remote
-- side is the compacted envelope: what a device behind still holds cannot come back through it.
pub compact_tombstones-merge :
    (platform : Platform) (e e' base local : Envelope) (q : Request) (removed generation : ℕ)
    (result : Result)
    → compact_tombstones platform e q ≡ some (compacted removed generation e')
    → base.payload.generation ≡ generation
    → merge_sync_envelopes platform base local e' ≡ some result
    → result.candidate ≡ none
compact_tombstones-merge platform e e' base local q removed generation result c g m =
    no_candidate result.candidate (λ made h.
      let (v, ids, (made_of, local_of, gens), unclashed, s) =
        merge_sync_envelopes-candidate platform base local e' result made rules [] m h in
      let (k, d, p, picked, v', next, ts) =
        compact_tombstones-compacted platform e e' q removed generation [] c in
      omega (arith, gens, next.1, g))
