-- ===== src/Sync/Lock/Exclusion.antt =====
-- src/sync/operation-lock.ts: one operation of a profile at a time.
use content_lens.Prelude.{
  ℕ, ◌+◌, ◌≤◌, ◌≡◌, refl, Bool, true, false, Option, none, some, List, [], ◌∷◌, JsString, ◌==◌,
  same, same_iff, is_some, if◌then◌else◌, arith,
}
use content_lens.Prelude.Dict.{get-set, get-delete}
use content_lens.Prelude.Dict
use content_lens.Sync.Lock.{
  Entry, Lock, Admission, starts, waits, joins, Event, runs, settles, cancels, launch, run,
  run_found, advance, advance_found, advance_entry, cancel, cancel_active, cancel_active_found,
  cancel_pending, cancel_pending_found, is_active, step, run_all,
}

abbrev pub as_one : Bool → ℕ
as_one true = 1
as_one false = 0

abbrev is_start : {O : Type 0} → Admission O → Bool
is_start (starts n) = true
is_start waits = false
is_start (joins o) = false

module _ {O : Type 0} (p : JsString) where
  -- How many operations of the profile an event starts, and how many it sees settle.
  unfoldable pub started_by : Lock O → Event O → ℕ
  started_by l (runs q o) = if same q p then as_one (is_start (run l q o).0) else 0
  started_by l (settles q n) = if same q p then as_one (is_some (advance l q n).0) else 0
  started_by l (cancels q) = 0

  settled_of : ℕ → Option (Entry O) → ℕ
  settled_of n none = 0
  settled_of n (some e) = if e.active == n then 1 else 0

  unfoldable pub settled_by : Lock O → Event O → ℕ
  unfolding settled_of
  settled_by l (runs q o) = 0
  settled_by l (settles q n) = if same q p then settled_of n (Dict.get q l.entries) else 0
  settled_by l (cancels q) = 0

  unfoldable pub all_started : Lock O → List (Event O) → ℕ
  all_started l [] = 0
  all_started l (e ∷ es) = started_by l e + all_started (step l e) es

  unfoldable pub all_settled : Lock O → List (Event O) → ℕ
  all_settled l [] = 0
  all_settled l (e ∷ es) = settled_by l e + all_settled (step l e) es

  active_count : Lock O → ℕ
  active_count l = as_one (is_active l p)

  abbrev new_entry : Lock O → Entry O
  new_entry l = record { active = l.next; aborted = false; pending = none }

  run-count :
      (l : Lock O) (q : JsString) (o : O) (found : Option (Entry O))
      → Dict.get q l.entries ≡ found
      → active_count l + (if same q p then as_one (is_start (run_found l q o found).0) else 0)
        ≡ active_count (run_found l q o found).1
  unfolding active_count run_found launch
  run-count l q o none e = ground (arith, same_iff q p, get-set q p (new_entry l) l.entries)
  run-count l q o (some x) e =
      ground (arith, same_iff q p, get-set q p (record x { pending = some o }) l.entries)

  advance-count :
      (l : Lock O) (q : JsString) (n : ℕ) (found : Option (Entry O))
      → Dict.get q l.entries ≡ found
      → active_count l + (if same q p then as_one (is_some (advance_found l q n found).0) else 0)
        ≡ active_count (advance_found l q n found).1 + (if same q p then settled_of n found else 0)
  unfolding active_count advance_found advance_entry launch settled_of
  advance-count l q n none e = ground arith
  advance-count l q n (some x) e =
      ground (arith, same_iff q p, get-set q p (new_entry l) l.entries, get-delete q p l.entries)

  cancel_active-count :
      (l : Lock O) (q : JsString) (found : Option (Entry O))
      → Dict.get q l.entries ≡ found
      → active_count (cancel_active_found l q found).1 ≡ active_count l
  unfolding active_count cancel_active_found
  cancel_active-count l q none e = refl
  cancel_active-count l q (some x) e =
      ground (arith, same_iff q p, get-set q p (record x { aborted = true }) l.entries)

  cancel_pending-count :
      (l : Lock O) (q : JsString) (found : Option (Entry O))
      → Dict.get q l.entries ≡ found
      → active_count (cancel_pending_found l q found).1 ≡ active_count l
  unfolding active_count cancel_pending_found
  cancel_pending-count l q none e = refl
  cancel_pending-count l q (some x) e =
      ground (arith, same_iff q p, get-set q p (record x { pending = none }) l.entries)

  step-count :
      (l : Lock O) (e : Event O)
      → active_count l + started_by l e ≡ active_count (step l e) + settled_by l e
  unfolding step started_by settled_by run advance cancel cancel_active cancel_pending
  step-count l (runs q o) = omega (arith, run-count l q o (Dict.get q l.entries) refl)
  step-count l (settles q n) = advance-count l q n (Dict.get q l.entries) refl
  step-count l (cancels q) = omega (
    arith,
    cancel_active-count l q (Dict.get q l.entries) refl,
    cancel_pending-count (cancel_active l q).1 q (Dict.get q (cancel_active l q).1.entries) refl,
  )

  run_all-count :
      (l : Lock O) (es : List (Event O))
      → active_count l + all_started l es ≡ active_count (run_all l es) + all_settled l es
  unfolding all_started all_settled run_all
  run_all-count l [] = refl
  run_all-count l (e ∷ es) = omega (arith, step-count l e, run_all-count (step l e) es)

  active_count-le : (l : Lock O) → active_count l ≤ 1
  unfolding active_count
  active_count-le l = ground arith

  -- From a lock that has no operation of the profile on, after any calls and settled promises, as many of
  -- its operations have started as have settled, and one more while the lock is active: no two ever run at
  -- a time.
  pub starts_one_at_a_time :
      (l : Lock O) (es : List (Event O))
      → Dict.get p l.entries ≡ none
      → (all_started l es ≡ all_settled l es + as_one (is_active (run_all l es) p))
        × (all_started l es ≤ all_settled l es + 1)
  unfolding active_count
  starts_one_at_a_time l es h =
      let q = run_all-count l es in (ground arith, ground (arith, active_count-le (run_all l es)))
