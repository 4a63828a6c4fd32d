-- ===== src/Sync/Merge/Drafts.antt =====
-- src/sync/three-way-merge.ts: what the loops of the merge have built.
use content_lens.Prelude.{
  ◌≡◌, ◌∙◌, refl, sym, subst, ap, Bool, true, false, ◌||◌, none, List, [], ◌∷◌, ◌++◌, JsString,
  same, same_iff, if◌then◌else◌, arith, Bool-cases, inl, inr, All, All-append, any, any-sort,
  before,
}
use content_lens.Prelude.Dict.{Dict}
use content_lens.Prelude.Dict
use content_lens.Sync.Envelope.{EntityType, Tombstone, Profile, Envelope, entity_id, same_type}
use content_lens.Sync.Envelope.Sealing.{same_type_iff}
use content_lens.Sync.Merge.{
  State, absent, tombstone, value, Draft, state_for, states_of, append_state, merge_states,
  merge_ids, keys, distinct, sorted_ids, Conflict, concurrent_change,
}
use content_lens.Sync.Merge.Chosen.{
  Belongs, chosen, clash, state_for-Belongs, chosen-Belongs, merge_states-chosen,
}
use content_lens.Sync.Merge.Reading.{
  Present, IsChosenValue, IsChosenTombstone, is_value_at, is_tombstone_at,
}

any-append :
    {A : Type 0} (p : A → Bool) (xs ys : List A) → any p (xs ++ ys) ≡ (any p xs || any p ys)
any-append p [] ys = refl
any-append p (x ∷ xs) ys = ground (arith, any-append p xs ys)

-- The states that the profile and the tombstones of a draft hold were all taken.
pub record IsChosen (f : EntityType → JsString → State) (profile : Profile) (ds : List Tombstone)
    : Type 0 where
  pub of_values : (t : EntityType) → All (IsChosenValue f t) (profile t)
  pub of_tombstones : All (IsChosenTombstone f) ds

module _ (f : EntityType → JsString → State) where
  append_state-IsChosen :
      (t : EntityType) (id : JsString) (s : State) (w : Draft)
      → f t id ≡ s
      → Belongs t id s
      → IsChosen f w.profile w.tombstones
      → IsChosen f (append_state t s w).profile (append_state t s w).tombstones
  unfolding append_state
  append_state-IsChosen t id absent w e b h = h
  append_state-IsChosen t id (tombstone d) w e (bt, bi) h = record {
    of_values = h.of_values;
    of_tombstones =
        All-append (IsChosenTombstone f) w.tombstones (d ∷ []) h.of_tombstones
          (ap (λ u. f u d.entity_id) bt ∙ (ap (f t) bi ∙ e), tt);
  }
  append_state-IsChosen t id (value v) w e b h = record {
    of_values = λ u. elim (Bool-cases (same_type u t)) [
      | inl s ↦
          rw (s, if◌then◌else◌)
            (All-append (IsChosenValue f u) (w.profile u) (v ∷ []) (h.of_values u) (
              subst (λ x. IsChosenValue f x v) (sym ((same_type_iff u t).0 s)) (ap (f t) b ∙ e),
              tt,
            ))
      | inr s ↦ rw (s, if◌then◌else◌) (h.of_values u)
    ];
    of_tombstones = h.of_tombstones;
  }

  append_state-Present :
      (t : EntityType) (id : JsString) (s : State) (w : Draft)
      → Belongs t id s
      → Present (append_state t s w).profile (append_state t s w).tombstones t id s
  unfolding append_state
  append_state-Present t id absent w b = tt
  append_state-Present t id (tombstone d) w (bt, bi) = ground (
    arith,
    any-append (is_tombstone_at t id) w.tombstones (d ∷ []),
    same_type_iff d.entity_type t,
    same_iff d.entity_id id,
  )
  append_state-Present t id (value v) w b = ground (
    arith,
    any-append (is_value_at t id) (w.profile t) (v ∷ []),
    same_type_iff t t,
    same_iff (entity_id t v) id,
  )

-- What a draft holds stays when states are appended.
append_state-stays :
    (t u : EntityType) (k : JsString) (s : State) (w : Draft) (x : State)
    → Present w.profile w.tombstones u k x
    → Present (append_state t s w).profile (append_state t s w).tombstones u k x
unfolding append_state
append_state-stays t u k absent w x h = h
append_state-stays t u k (tombstone d) w absent h = tt
append_state-stays t u k (tombstone d) w (value e) h = h
append_state-stays t u k (tombstone d) w (tombstone e) h =
    ground (arith, any-append (is_tombstone_at u k) w.tombstones (d ∷ []))
append_state-stays t u k (value v) w absent h = tt
append_state-stays t u k (value v) w (tombstone e) h = h
append_state-stays t u k (value v) w (value e) h =
    ground (arith, any-append (is_value_at u k) (w.profile u) (v ∷ []))

append_state-conflicts :
    (t : EntityType) (s : State) (w : Draft) → (append_state t s w).conflicts ≡ w.conflicts
unfolding append_state
append_state-conflicts t absent w = refl
append_state-conflicts t (value e) w = refl
append_state-conflicts t (tombstone d) w = refl

merge_states-conflicts :
    (t : EntityType) (id : JsString) (b l r : State) (w : Draft)
    → (merge_states t id b l r w).conflicts
      ≡ (if clash b l r then w.conflicts ++ (concurrent_change t id b l r ∷ []) else w.conflicts)
unfolding merge_states clash
merge_states-conflicts t id b l r w =
    ground (arith, append_state-conflicts t l w, append_state-conflicts t r w)

abbrev pub is_nonempty : List Conflict → Bool
is_nonempty [] = false
is_nonempty (c ∷ cs) = true

nonempty-append : (cs : List Conflict) (c : Conflict) → is_nonempty (cs ++ (c ∷ [])) ≡ true
nonempty-append [] c = refl
nonempty-append (d ∷ cs) c = refl

merge_states-nonempty :
    (t : EntityType) (id : JsString) (b l r : State) (w : Draft)
    → is_nonempty (merge_states t id b l r w).conflicts ≡ (is_nonempty w.conflicts || clash b l r)
merge_states-nonempty t id b l r w = ground (
  arith,
  merge_states-conflicts t id b l r w,
  nonempty-append w.conflicts (concurrent_change t id b l r),
)

any-keys : (k : JsString) (m : Dict State) → any (same k) (keys m) ≡ false → Dict.get k m ≡ none
unfolding Dict.get
any-keys k [] h = refl
any-keys k ((j, s) ∷ m) h = ground (arith, any-keys k m, same_iff j k, same_iff k j)

any-distinct : (k : JsString) (ks : List JsString) → any (same k) (distinct ks) ≡ any (same k) ks
unfolding distinct
any-distinct k [] = refl
any-distinct k (j ∷ ks) = ground (arith, any-distinct k ks, same_iff k j, same_iff j k)

pub state_for-absent :
    (k : JsString) (m : Dict State) → any (same k) (keys m) ≡ false → state_for m k ≡ absent
unfolding state_for
state_for-absent k m h = rw (any-keys k m h) refl

pub any-sorted_ids :
    (k : JsString) (b l r : Dict State)
    → any (same k) (sorted_ids b l r)
      ≡ (any (same k) (keys b) || (any (same k) (keys l) || any (same k) (keys r)))
unfolding sorted_ids
any-sorted_ids k b l r =
    any-sort before (same k) (distinct (keys b ++ (keys l ++ keys r)))
    ∙ (any-distinct k (keys b ++ (keys l ++ keys r))
        ∙ (any-append (same k) (keys b) (keys l ++ keys r)
            ∙ ap (λ x. any (same k) (keys b) || x) (any-append (same k) (keys l) (keys r))))

module _ (base local remote : Envelope) where
  abbrev pub base_at : EntityType → JsString → State
  base_at t k = state_for (states_of base t) k

  abbrev pub local_at : EntityType → JsString → State
  local_at t k = state_for (states_of local t) k

  abbrev pub remote_at : EntityType → JsString → State
  remote_at t k = state_for (states_of remote t) k

  abbrev pub chosen_at : EntityType → JsString → State
  chosen_at t k = chosen (base_at t k) (local_at t k) (remote_at t k)

  abbrev pub clash_at : EntityType → JsString → Bool
  clash_at t k = clash (base_at t k) (local_at t k) (remote_at t k)

  abbrev pub ids_of : EntityType → List JsString
  ids_of t = sorted_ids (states_of base t) (states_of local t) (states_of remote t)

  abbrev pub pass : EntityType → JsString → Draft → Draft
  pass t k w = merge_states t k (base_at t k) (local_at t k) (remote_at t k) w

  abbrev pub pass_all : EntityType → List JsString → Draft → Draft
  pass_all t ids w = merge_ids t (states_of base t) (states_of local t) (states_of remote t) ids w

  abbrev pub Chosen : Draft → Type 0
  Chosen w = IsChosen chosen_at w.profile w.tombstones

  abbrev pub Holds : Draft → EntityType → JsString → Type 0
  Holds w t k = Present w.profile w.tombstones t k (chosen_at t k)

  chosen_at-Belongs : (t : EntityType) (k : JsString) → Belongs t k (chosen_at t k)
  chosen_at-Belongs t k =
      chosen-Belongs t k (base_at t k) (local_at t k) (remote_at t k)
        (state_for-Belongs t local.payload.profile local.payload.tombstones k)
        (state_for-Belongs t remote.payload.profile remote.payload.tombstones k)

  pass-Chosen : (t : EntityType) (k : JsString) (w : Draft) → Chosen w → Chosen (pass t k w)
  pass-Chosen t k w h =
      let (p, d) = merge_states-chosen t k (base_at t k) (local_at t k) (remote_at t k) w in
      rw (p, d)
        (append_state-IsChosen chosen_at t k (chosen_at t k) w refl (chosen_at-Belongs t k) h)

  pass-Holds : (t : EntityType) (k : JsString) (w : Draft) → Holds (pass t k w) t k
  pass-Holds t k w =
      let (p, d) = merge_states-chosen t k (base_at t k) (local_at t k) (remote_at t k) w in
      rw (p, d) (append_state-Present chosen_at t k (chosen_at t k) w (chosen_at-Belongs t k))

  pass-stays :
      (t u : EntityType) (j k : JsString) (w : Draft) → Holds w u k → Holds (pass t j w) u k
  pass-stays t u j k w h =
      let (p, d) = merge_states-chosen t j (base_at t j) (local_at t j) (remote_at t j) w in
      rw (p, d) (append_state-stays t u k (chosen_at t j) w (chosen_at u k) h)

  pub pass_all-Chosen :
      (t : EntityType) (ids : List JsString) (w : Draft) → Chosen w → Chosen (pass_all t ids w)
  unfolding merge_ids
  pass_all-Chosen t [] w h = h
  pass_all-Chosen t (k ∷ ids) w h = pass_all-Chosen t ids (pass t k w) (pass-Chosen t k w h)

  pub pass_all-stays :
      (t u : EntityType) (ids : List JsString) (k : JsString) (w : Draft)
      → Holds w u k
      → Holds (pass_all t ids w) u k
  unfolding merge_ids
  pass_all-stays t u [] k w h = h
  pass_all-stays t u (j ∷ ids) k w h =
      pass_all-stays t u ids k (pass t j w) (pass-stays t u j k w h)

  pub pass_all-Holds :
      (t : EntityType) (ids : List JsString) (k : JsString) (w : Draft)
      → any (same k) ids ≡ true
      → Holds (pass_all t ids w) t k
  unfolding merge_ids
  pass_all-Holds t [] k w h = absurd (ground (arith, h))
  pass_all-Holds t (j ∷ ids) k w h = elim (Bool-cases (same k j)) [
    | inl s ↦
        subst (λ x. Holds (pass_all t ids (pass t j w)) t x) (sym ((same_iff k j).0 s))
          (pass_all-stays t t ids j (pass t j w) (pass-Holds t j w))
    | inr s ↦ pass_all-Holds t ids k (pass t j w) (ground arith)
  ]

  pub pass_all-nonempty :
      (t : EntityType) (ids : List JsString) (w : Draft)
      → is_nonempty (pass_all t ids w).conflicts ≡ (is_nonempty w.conflicts || any (clash_at t) ids)
  unfolding merge_ids
  pass_all-nonempty t [] w = ground arith
  pass_all-nonempty t (k ∷ ids) w = ground (
    arith,
    pass_all-nonempty t ids (pass t k w),
    merge_states-nonempty t k (base_at t k) (local_at t k) (remote_at t k) w,
  )
