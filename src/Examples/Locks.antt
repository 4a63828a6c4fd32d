-- ===== src/Examples/Locks.antt =====
-- src/sync/operation-lock.ts at concrete inputs.
use content_lens.Prelude.{
  ℕ, ◌+◌, ◌≤◌, ◌≡◌, refl, true, false, none, some, List, [], ◌∷◌, JsString, js, All, same,
}
use content_lens.Prelude.Dict
use content_lens.Sync.Lock.{
  Entry, Lock, waits, Event, runs, settles, run, run_found, advance, advance_found, advance_entry,
  launch, step, run_all, is_active,
}
use content_lens.Sync.Lock.Exclusion.{all_started, all_settled, as_one, starts_one_at_a_time}
use content_lens.Sync.Lock.Waiting.{call_all, Joined, first_waits_and_runs}

abbrev unlocked : Lock ℕ
unlocked = record { entries = []; next = 0 }

abbrev one : JsString
one = js "p1"

-- The second operation waits, the third joins it, a settled promise that is not the active one's changes nothing.
abbrev calls : List (Event ℕ)
calls = runs one 7 ∷ runs one 8 ∷ runs one 9 ∷ settles one 5 ∷ settles one 0 ∷ runs (js "p2") 4 ∷ []

calls_leave_on : is_active (run_all unlocked calls) one ≡ true
unfolding run_all step run run_found launch advance advance_found advance_entry Dict.get Dict.set
    same
calls_leave_on = refl

starts_one_at_a_time_example :
    (all_started one unlocked calls
      ≡ all_settled one unlocked calls + as_one (is_active (run_all unlocked calls) one))
    × (all_started one unlocked calls ≤ all_settled one unlocked calls + 1)
unfolding Dict.get
starts_one_at_a_time_example = starts_one_at_a_time one unlocked calls refl

abbrev first_on : Entry ℕ
first_on = record { active = 0; aborted = false; pending = none }

abbrev locked : Lock ℕ
locked = record { entries = (one, first_on) ∷ []; next = 1 }

first_waits_and_runs_example :
    let l' = (call_all one (run locked one 8).1 (9 ∷ 10 ∷ [])).1 in
    ((run locked one 8).0 ≡ waits)
    × All (Joined one 8) (call_all one (run locked one 8).1 (9 ∷ 10 ∷ [])).0
    × ((advance l' one 0).0 ≡ some 8)
    × (Dict.get one (advance (advance l' one 0).1 one l'.next).1.entries ≡ none)
unfolding Dict.get same
first_waits_and_runs_example = first_waits_and_runs one locked first_on 8 (9 ∷ 10 ∷ []) refl refl
