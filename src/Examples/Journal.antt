-- ===== src/Examples/Journal.antt =====
-- src/core/operations/journal.ts at concrete inputs: a profile whose content is a number.
use content_lens.Prelude.{
  ℕ, ◌≡◌, refl, Bool, true, none, some, List, [], ◌∷◌, JsString, js, same, has_text,
}
use content_lens.Prelude.Dict
use content_lens.Operations.{
  Command, Profile, Journal, Entry, Mutation, Outcome, returned, threw, unknown_error,
  mutation_error, was_cancelled, Effect,
}
use content_lens.Operations.Entries.{
  fresh_entry, running_entry, committed_entry, failed_entry, command_is_valid, matches, response,
}
use content_lens.Operations.Execution.{
  execute, begin, complete, cancel, started, acknowledge, committed_journal, commit, continue_begun,
  begin_entry, compensate_and_commit,
}
use content_lens.Operations.Execution.Atomicity.{
  Atomic, complete-Atomic, cancelled_before_return, cancelled_before_throw,
}
use content_lens.Operations.Execution.Revisions.{IsLog}
use content_lens.Operations.Machine.{
  Machine, Event, acknowledges, executes, cancels, starts, finishes, run,
}
use content_lens.Operations.Machine.Once.{IsAgain, committed_once}
use content_lens.Operations.Machine.Runs.{new_machine, revisions_are_operations}

abbrev any_time : JsString → Bool
any_time s = true

abbrev named : JsString → Command
named id = record { operation_id = id; kind = js "save"; target_fingerprint = js "f"; at = js "t1" }

abbrev c : Command
c = named (js "a")

abbrev undo : Command
undo = named (js "b")

abbrev effect : Effect
effect = record { kind = js "rule"; target_id = js "r" }

abbrev m : Mutation ℕ ℕ
m = record { draft = 8; value = 1; effects = some (effect ∷ []); compensation = none }

abbrev undoing : Mutation ℕ ℕ
undoing = record {
  draft = 7;
  value = 2;
  effects = none;
  compensation = some (record { operation_id = js "a"; effect = effect });
}

abbrev empty_journal : Journal ℕ ℕ
empty_journal = record { profile = record { revision = 4; content = 7 }; entries = [] }

abbrev a_runs : Entry ℕ
a_runs = running_entry (fresh_entry c) c

abbrev b_runs : Entry ℕ
b_runs = running_entry (fresh_entry undo) undo

abbrev running_journal : Journal ℕ ℕ
running_journal = record empty_journal { entries = (js "a", a_runs) ∷ [] }

abbrev a_done : Entry ℕ
a_done = committed_entry a_runs c 5 1 (some (effect ∷ []))

abbrev undoing_journal : Journal ℕ ℕ
undoing_journal = record {
  profile = record { revision = 5; content = 8 };
  entries = (js "a", a_done) ∷ (js "b", b_runs) ∷ [];
}

abbrev save : Profile ℕ → Outcome ℕ ℕ
save p = returned m

abbrev saved : Journal ℕ ℕ
saved = (execute any_time none empty_journal c save).1

complete-Atomic_example :
    Atomic running_journal m (complete none running_journal c a_runs (returned m))
complete-Atomic_example = complete-Atomic running_journal c a_runs m

cancelled_before_return_example :
    complete none (cancel running_journal (js "a") (js "t2")).1 c a_runs (returned m)
    ≡ (some (was_cancelled a_runs.committed_effects), (cancel running_journal (js "a") (js "t2")).1)
unfolding Dict.get same running_entry
cancelled_before_return_example =
    cancelled_before_return none running_journal c a_runs a_runs m (js "t2") refl refl

cancelled_before_throw_example :
    let f = failed_entry a_runs c (js "busy") (js "Try again") true in
    let j' =
      (complete none
        (cancel running_journal (js "a") (js "t2")).1
        c
        a_runs
        (threw (mutation_error (js "busy") (js "Try again") true))).1 in
    (Dict.get (js "a") j'.entries ≡ some f)
    × ((begin any_time j' c).0 ≡ started (running_entry f c))
unfolding Dict.get same running_entry fresh_entry command_is_valid has_text matches
cancelled_before_throw_example =
    cancelled_before_throw any_time none running_journal c a_runs a_runs (js "t2") (js "busy")
      (js "Try again") refl refl refl refl

abbrev lone_undo : Journal ℕ ℕ
lone_undo = record undoing_journal { entries = (js "b", b_runs) ∷ [] }

abbrev events : List (Event ℕ ℕ)
events =
    executes c
    ∷ starts
    ∷ executes undo
    ∷ finishes (returned m)
    ∷ starts
    ∷ cancels (js "b") (js "t2")
    ∷ finishes (returned undoing)
    ∷ []

-- The command is compensated and acknowledged before it comes again.
abbrev later_events : List (Event ℕ ℕ)
later_events = executes undo ∷ starts ∷ acknowledges c ∷ finishes (returned undoing) ∷ []

committed_once_example :
    let m : Machine ℕ ℕ = new_machine empty_journal.profile in
    let later = (run any_time (record m { journal = saved }) later_events).journal in
    IsAgain later (some 1) 5 (execute any_time none later c (λ p. threw unknown_error))
unfolding execute begin acknowledge begin_entry fresh_entry running_entry command_is_valid has_text
    matches complete commit committed_entry committed_journal response compensate_and_commit
    continue_begun Dict.get Dict.set same run
committed_once_example =
    committed_once any_time none empty_journal.profile [] later_events saved c save
      (λ p. threw unknown_error) (some 1) 5 refl refl

revisions_are_operations_example :
    IsLog 4 (run any_time (new_machine (record { revision = 4; content = 7 })) events).journal
revisions_are_operations_example =
    revisions_are_operations any_time (record { revision = 4; content = 7 }) events
