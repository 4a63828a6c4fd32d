-- ===== src/Sync/Merge/Sides.antt =====
-- src/sync/three-way-merge.ts: when the merge has a candidate, and how the two sides enter.
use content_lens.Prelude.{
  ◌≡◌, ◌∙◌, refl, sym, ap, subst, Bool, true, false, some, List, [], ◌∷◌, JsString, same, same_iff,
  arith, Bool-cases, inl, inr, any,
}
use content_lens.Sync.Envelope.{
  EntityType, Payload, Envelope, Platform, same_type, seal, verify, valid, collection_order,
}
use content_lens.Sync.Envelope.Sealing.{same_type_iff, seal-verify}
use content_lens.Sync.Merge.{
  State, absent, Draft, Result, Conflict, states, state_for, states_of, equal_state,
  merge_sync_envelopes, merged_with, sealed_draft, envelope_conflicts, empty_draft,
}
use content_lens.Sync.Merge.Chosen.{
  chosen, clash, equal_state_refl, equal_state_sym, equal_state_trans,
}
use content_lens.Sync.Merge.Drafts.{
  base_at, local_at, remote_at, chosen_at, clash_at, ids_of, is_nonempty,
}
use content_lens.Sync.Merge.Outcome.{
  merged, in_order, states-merged, elsewhere-clash, merge_types-nonempty,
}

-- An element of a list on which no test holds.
at_none :
    {A : Type 0} (p : A → Bool) (eq : A → A → Bool) (x : A) (xs : List A)
    → ((y : A) → eq x y ≡ true → x ≡ y)
    → any p xs ≡ false
    → any (eq x) xs ≡ true
    → p x ≡ false
at_none p eq x [] f h k = absurd (ground (arith, k))
at_none p eq x (y ∷ ys) f h k = elim (Bool-cases (eq x y)) [
  | inl s ↦ subst (λ z. p z ≡ false) (sym (f y s)) (ground arith)
  | inr s ↦ at_none p eq x ys f (ground arith) (ground arith)
]

all_false : {A : Type 0} (p : A → Bool) (xs : List A) → ((x : A) → p x ≡ false) → any p xs ≡ false
all_false p [] h = refl
all_false p (x ∷ xs) h = ground (arith, h x, all_false p xs h)

module _ (base local remote : Envelope) where
  nonempty-merged :
      is_nonempty (merged base local remote).conflicts
      ≡ any (λ t. any (clash_at base local remote t) (ids_of base local remote t)) collection_order
  nonempty-merged = merge_types-nonempty base local remote collection_order empty_draft

  no_clash :
      is_nonempty (merged base local remote).conflicts ≡ false
      → (t : EntityType) (k : JsString) → clash_at base local remote t k ≡ false
  no_clash h t k = elim (Bool-cases (any (same k) (ids_of base local remote t))) [
    | inl s ↦
        let of_type =
          at_none (λ u. any (clash_at base local remote u) (ids_of base local remote u)) same_type t
            collection_order (λ u. (same_type_iff t u).0) (sym nonempty-merged ∙ h) (in_order t) in
        at_none (clash_at base local remote t) same k (ids_of base local remote t)
          (λ j. (same_iff k j).0) of_type s
    | inr s ↦ elsewhere-clash base local remote t k s
  ]

  pub no_conflict :
      ((t : EntityType) (k : JsString) → clash_at base local remote t k ≡ false)
      → is_nonempty (merged base local remote).conflicts ≡ false
  no_conflict h =
      nonempty-merged
      ∙ all_false (λ t. any (clash_at base local remote t) (ids_of base local remote t))
          collection_order
          (λ t. all_false (clash_at base local remote t) (ids_of base local remote t) (h t))

-- What the guards of the merge leave when it has a candidate.
sealed_draft-candidate :
    (platform : Platform) (local : Envelope) (w : Draft) (result : Result) (e : Envelope)
    → sealed_draft platform local w ≡ some result
    → result.candidate ≡ some e
    → (is_nonempty w.conflicts ≡ false)
      × (seal platform (record local.payload { profile = w.profile; tombstones = w.tombstones })
          ≡ some e)
unfolding sealed_draft
sealed_draft-candidate platform local w result e h c = ground arith

same_envelopes :
    (b l r : Payload)
    → envelope_conflicts b l r ≡ []
    → (l.sync_profile_id ≡ b.sync_profile_id)
      × (r.sync_profile_id ≡ b.sync_profile_id)
      × (l.generation ≡ b.generation)
      × (r.generation ≡ b.generation)
unfolding envelope_conflicts
same_envelopes b l r h = ground (
  arith,
  same_iff b.sync_profile_id l.sync_profile_id,
  same_iff b.sync_profile_id r.sync_profile_id,
)

merged_with-candidate :
    (platform : Platform) (base local remote : Envelope) (cs : List Conflict) (result : Result)
    (e : Envelope)
    → merged_with platform base local remote cs ≡ some result
    → result.candidate ≡ some e
    → (cs ≡ []) × (sealed_draft platform local (merged base local remote) ≡ some result)
unfolding merged_with
merged_with-candidate platform base local remote [] result e h c = (refl, h)
merged_with-candidate platform base local remote (d ∷ cs) result e h c = ground (arith, h, c)

-- When the merge has a candidate, it verifies, the local and the remote envelope and the candidate are of the
-- profile and the generation of the base, no id was changed on both sides in different ways, and the
-- states that the candidate holds are, for every type and every id, those that the three states of
-- the id ask for.
pub merge_sync_envelopes-candidate :
    (platform : Platform) (base local remote : Envelope) (result : Result) (e : Envelope)
    (t : EntityType) (k : JsString)
    → merge_sync_envelopes platform base local remote ≡ some result
    → result.candidate ≡ some e
    → (verify platform e ≡ valid e)
      × ((e.payload.sync_profile_id ≡ base.payload.sync_profile_id)
          × (local.payload.sync_profile_id ≡ base.payload.sync_profile_id)
          × (remote.payload.sync_profile_id ≡ base.payload.sync_profile_id))
      × ((e.payload.generation ≡ base.payload.generation)
          × (local.payload.generation ≡ base.payload.generation)
          × (remote.payload.generation ≡ base.payload.generation))
      × (clash_at base local remote t k ≡ false)
      × (state_for (states_of e t) k ≡ chosen_at base local remote t k)
unfolding merge_sync_envelopes
merge_sync_envelopes-candidate platform base local remote result e t k h c =
    let (none_of, s) =
      merged_with-candidate platform base local remote
        (envelope_conflicts base.payload local.payload remote.payload) result e h c in
    let (lp, rp, lg, rg) = same_envelopes base.payload local.payload remote.payload none_of in
    let (unclashed, made) =
      sealed_draft-candidate platform local (merged base local remote) result e s c in
    let (p, v) =
      seal-verify platform
        (record local.payload {
          profile = (merged base local remote).profile;
          tombstones = (merged base local remote).tombstones;
        })
        e made in
    (
      v,
      (ap (λ x. x.sync_profile_id) p ∙ lp, lp, rp),
      (ap (λ x. x.generation) p ∙ lg, lg, rg),
      no_clash base local remote unclashed t k,
      ap (λ x. state_for (states x.profile x.tombstones t) k) p
          ∙ states-merged base local remote t k,
    )

clash-sym : (b l r : State) → clash b l r ≡ clash b r l
unfolding clash
clash-sym b l r = ground (arith, equal_state_sym l r)

chosen-sym : (b l r : State) → equal_state (chosen b l r) (chosen b r l) ≡ true
unfolding chosen
chosen-sym b l r = ground (
  arith,
  equal_state_sym l r,
  equal_state_refl l,
  equal_state_refl r,
  equal_state_refl absent,
  equal_state_trans l b r,
  equal_state_sym b l,
)

-- Exchanging the sides changes neither whether the merge of the types has a conflict nor, up to `equalState`, the
-- states that its draft holds.
pub merged-sym :
    (base local remote : Envelope) (t : EntityType) (k : JsString)
    → let w = merged base local remote in
      let w' = merged base remote local in
      (is_nonempty w.conflicts ≡ is_nonempty w'.conflicts)
      × (equal_state
            (state_for (states w.profile w.tombstones t) k)
            (state_for (states w'.profile w'.tombstones t) k)
          ≡ true)
merged-sym base local remote t k = (
  swapped (is_nonempty (merged base local remote).conflicts)
      (is_nonempty (merged base remote local).conflicts) (there local remote) (there remote local),
  rw (states-merged base local remote t k, states-merged base remote local t k)
      (chosen-sym (base_at base local remote t k) (local_at base local remote t k)
        (remote_at base local remote t k)),
)
  where
    there :
        (x y : Envelope)
        → is_nonempty (merged base x y).conflicts ≡ false
        → is_nonempty (merged base y x).conflicts ≡ false
    there x y h = no_conflict base y x (λ u j.
        clash-sym (base_at base y x u j) (local_at base y x u j) (remote_at base y x u j)
        ∙ no_clash base x y h u j)

    swapped : (x y : Bool) → (x ≡ false → y ≡ false) → (y ≡ false → x ≡ false) → x ≡ y
    swapped true true f g = refl
    swapped true false f g = g refl
    swapped false true f g = sym (f refl)
    swapped false false f g = refl

chosen-unchanged :
    (b l r : State)
    → equal_state b r ≡ true
    → (clash b l r ≡ false) × (equal_state (chosen b l r) l ≡ true)
unfolding chosen clash
chosen-unchanged b l r h = ground (
  arith,
  equal_state_refl l,
  equal_state_sym b l,
  equal_state_sym b r,
  equal_state_sym r l,
  equal_state_trans r b l,
)

-- The merge of the types, where each id has the same state in the remote envelope as in the base.
pub merged-unchanged :
    (base local remote : Envelope) (t : EntityType) (k : JsString)
    → ((u : EntityType) (j : JsString)
        → equal_state (base_at base local remote u j) (remote_at base local remote u j) ≡ true)
    → let w = merged base local remote in
      (is_nonempty w.conflicts ≡ false)
      × (equal_state
            (state_for (states w.profile w.tombstones t) k)
            (local_at base local remote t k)
          ≡ true)
merged-unchanged base local remote t k h = (
  no_conflict base local remote (λ u j.
      (chosen-unchanged (base_at base local remote u j) (local_at base local remote u j)
        (remote_at base local remote u j) (h u j)).0),
  rw (states-merged base local remote t k) (
      (chosen-unchanged (base_at base local remote t k) (local_at base local remote t k)
        (remote_at base local remote t k) (h t k)).1),
)
