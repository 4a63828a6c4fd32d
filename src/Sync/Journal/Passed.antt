-- ===== src/Sync/Journal/Passed.antt =====
-- src/sync/journal.ts: which phases a journal has passed.
use content_lens.Prelude.{
  ◌≡◌, refl, Bool, true, false, some, List, [], ◌∷◌, JsString, arith, sym, subst, any,
}
use content_lens.Sync.Journal.{
  Phase, started, remote_read, validated, snapshot_created, local_committed, push_attempted,
  remote_confirmed, completed, conflict, degraded, Record, Update, may_follow, initial, create,
  updated, advance, parse,
}

abbrev pub is_phase : Phase → Phase → Bool
is_phase local_committed local_committed = true
is_phase push_attempted push_attempted = true
is_phase remote_confirmed remote_confirmed = true
is_phase _ _ = false

-- The journals that `createSyncJournal` and `advanceSyncJournal` give for one synchronisation, each with the phases that it has had, the last first.
pub data Reach (is_iso : JsString → Bool) (operation profile base at : JsString)
    : Record → List Phase → Type 0 where
  begins :
      {r : Record}
      → create is_iso operation profile base at ≡ some r
      → Reach is_iso operation profile base at r (started ∷ [])
  follows :
      {r r' : Record} {ps : List Phase} (u : Update)
      → Reach is_iso operation profile base at r ps
      → advance is_iso r u ≡ some r'
      → Reach is_iso operation profile base at r' (r'.phase ∷ ps)

-- The phases without which a phase is not reached.
abbrev pub Passed : Phase → List Phase → Type 0
Passed local_committed ps = Unit
Passed push_attempted ps = any (is_phase local_committed) ps ≡ true
Passed remote_confirmed ps =
    (any (is_phase local_committed) ps ≡ true) × (any (is_phase push_attempted) ps ≡ true)
Passed completed ps =
    (any (is_phase local_committed) ps ≡ true)
    × (any (is_phase push_attempted) ps ≡ true)
    × (any (is_phase remote_confirmed) ps ≡ true)
Passed _ ps = Unit

Passed-next :
    (p q : Phase) (ps : List Phase)
    → may_follow p q ≡ true
    → Passed p ps
    → (is_phase p p ≡ true → any (is_phase p) ps ≡ true)
    → Passed q (q ∷ ps)
unfolding may_follow
Passed-next local_committed push_attempted ps h k self = ground (arith, self refl)
Passed-next push_attempted remote_confirmed ps h k self = ground (arith, self refl)
Passed-next remote_confirmed completed ps h k self = ground (arith, self refl)
Passed-next p local_committed ps h k self = tt
Passed-next p started ps h k self = tt
Passed-next p remote_read ps h k self = tt
Passed-next p validated ps h k self = tt
Passed-next p snapshot_created ps h k self = tt
Passed-next p conflict ps h k self = tt
Passed-next p degraded ps h k self = tt
Passed-next p q ps h k self = ground arith

advance-phase :
    (is_iso : JsString → Bool) (r r' : Record) (u : Update)
    → advance is_iso r u ≡ some r'
    → may_follow r.phase r'.phase ≡ true
unfolding advance updated parse
advance-phase is_iso r r' u h = ground arith

create-phase :
    (is_iso : JsString → Bool) (operation profile base at : JsString) (r : Record)
    → create is_iso operation profile base at ≡ some r
    → r.phase ≡ started
unfolding create initial parse
create-phase is_iso operation profile base at r h = ground arith

module _ {is_iso : JsString → Bool} {operation profile base at : JsString} where
  Reach-self :
      {r : Record} {ps : List Phase}
      → Reach is_iso operation profile base at r ps
      → is_phase r.phase r.phase ≡ true
      → any (is_phase r.phase) ps ≡ true
  Reach-self {r} (begins e) h = ground (arith, create-phase is_iso operation profile base at r)
  Reach-self (follows u w e) h = ground arith

  -- A journal that reached a phase has passed the phases that have to come before it: a completed one
  -- was committed locally, pushed and confirmed by the remote, a confirmed one committed and pushed, and a
  -- pushed one committed.
  pub Reach-Passed :
      {r : Record} {ps : List Phase}
      → Reach is_iso operation profile base at r ps
      → Passed r.phase ps
  Reach-Passed {r} (begins e) =
      subst (λ p. Passed p (started ∷ [])) (sym (create-phase is_iso operation profile base at r e))
        tt
  Reach-Passed (follows {r} {r'} {ps} u w e) =
      Passed-next r.phase r'.phase ps (advance-phase is_iso r r' u e) (Reach-Passed w)
        (Reach-self w)
