-- ===== src/Sync/Lock.antt =====
-- src/sync/operation-lock.ts: `SyncOperationLock`, which runs one operation of a profile at a time and keeps
-- one more. A promise is the number under which its operation was started; `O` are the operations.
pub mod Exclusion
pub mod Waiting
use content_lens.Prelude.{
  ℕ, ◌+◌, Bool, true, false, not, Option, none, some, List, [], ◌∷◌, JsString, ◌==◌, same, is_some,
  if◌then◌else◌,
}
use content_lens.Prelude.Dict.{Dict}
use content_lens.Prelude.Dict

-- `LockEntry`; `aborted` is the state of its controller's signal.
pub record Entry (O : Type 0) : Type 0 where
  pub active : ℕ
  pub aborted : Bool
  pub pending : Option O

-- The lock, and the number of the next promise.
pub record Lock (O : Type 0) : Type 0 where
  pub entries : Dict (Entry O)
  pub next : ℕ

-- What a call of `run` leads to: its operation starts, waits, or is dropped for the one that waits.
pub data Admission (O : Type 0) : Type 0 where
  starts : ℕ → Admission O
  waits : Admission O
  joins : O → Admission O

module _ {O : Type 0} where
  -- `#start` and the end of `#advance`: an operation runs under a new promise.
  unfoldable pub launch : Lock O → JsString → Lock O
  launch l profile = record {
    entries =
        Dict.set profile (record { active = l.next; aborted = false; pending = none }) l.entries;
    next = l.next + 1;
  }

  unfoldable pub run_found : Lock O → JsString → O → Option (Entry O) → Admission O × Lock O
  unfolding launch
  run_found l profile o none = (starts l.next, launch l profile)
  run_found l profile o (some e) = elim e.pending [
    | some waiting ↦ (joins waiting, l)
    | none ↦
        (waits, record l { entries = Dict.set profile (record e { pending = some o }) l.entries })
  ]

  -- `run`
  unfoldable pub run : Lock O → JsString → O → Admission O × Lock O
  unfolding run_found
  run l profile o = run_found l profile o (Dict.get profile l.entries)

  abbrev pub is_active : Lock O → JsString → Bool
  is_active l profile = is_some (Dict.get profile l.entries)

  abbrev pub pending_of : Option (Entry O) → Option O
  pending_of none = none
  pending_of (some e) = e.pending

  abbrev pub has_pending_intent : Lock O → JsString → Bool
  has_pending_intent l profile = is_some (pending_of (Dict.get profile l.entries))

  unfoldable pub cancel_pending_found : Lock O → JsString → Option (Entry O) → Bool × Lock O
  cancel_pending_found l profile none = (false, l)
  cancel_pending_found l profile (some e) = elim e.pending [
    | none ↦ (false, l)
    | some _ ↦
        (true, record l { entries = Dict.set profile (record e { pending = none }) l.entries })
  ]

  -- `cancelPending`
  unfoldable pub cancel_pending : Lock O → JsString → Bool × Lock O
  unfolding cancel_pending_found
  cancel_pending l profile = cancel_pending_found l profile (Dict.get profile l.entries)

  unfoldable pub cancel_active_found : Lock O → JsString → Option (Entry O) → Bool × Lock O
  cancel_active_found l profile none = (false, l)
  cancel_active_found l profile (some e) =
      (true, record l { entries = Dict.set profile (record e { aborted = true }) l.entries })

  -- `cancelActive`
  unfoldable pub cancel_active : Lock O → JsString → Bool × Lock O
  unfolding cancel_active_found
  cancel_active l profile = cancel_active_found l profile (Dict.get profile l.entries)

  -- `cancel`
  unfoldable pub cancel : Lock O → JsString → (Bool × Bool) × Lock O
  cancel l profile =
      let (active, l') = cancel_active l profile in
      let (pending, l'') = cancel_pending l' profile in ((active, pending), l'')

  unfoldable pub advance_entry : Lock O → JsString → Option O → Option O × Lock O
  advance_entry l profile none = (none, record l { entries = Dict.delete profile l.entries })
  advance_entry l profile (some o) = (some o, launch l profile)

  unfoldable pub advance_found : Lock O → JsString → ℕ → Option (Entry O) → Option O × Lock O
  unfolding advance_entry
  advance_found l profile completed none = (none, l)
  advance_found l profile completed (some e) =
      if e.active == completed then advance_entry l profile e.pending else (none, l)

  -- `#advance`, once a promise has settled: the operation that starts, if one does.
  unfoldable pub advance : Lock O → JsString → ℕ → Option O × Lock O
  unfolding advance_found
  advance l profile completed = advance_found l profile completed (Dict.get profile l.entries)

pub data Event (O : Type 0) : Type 0 where
  runs : JsString → O → Event O
  settles : JsString → ℕ → Event O
  cancels : JsString → Event O

module _ {O : Type 0} where
  unfoldable pub step : Lock O → Event O → Lock O
  step l (runs profile o) = (run l profile o).1
  step l (settles profile promise) = (advance l profile promise).1
  step l (cancels profile) = (cancel l profile).1

  unfoldable pub run_all : Lock O → List (Event O) → Lock O
  run_all l [] = l
  run_all l (e ∷ es) = run_all (step l e) es
