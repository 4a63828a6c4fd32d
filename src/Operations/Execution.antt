-- ===== src/Operations/Execution.antt =====
-- src/core/operations/journal.ts: the operations of `AtomicOperationJournal`. `executeOnce` waits for
-- `mutate`: it is `begin` before and `complete` after, between which other calls may come.
pub mod Replay
pub mod Atomicity
pub mod Revisions
pub mod Lasting
use content_lens.Prelude.{
  ℕ, suc, ◌+◌, Bool, true, false, not, ◌&&◌, ◌||◌, Option, none, some, List, [], ◌∷◌, JsString, js,
  same, has_text, any, get_or, if◌then◌else◌,
}
use content_lens.Prelude.Dict.{Dict}
use content_lens.Prelude.Dict
use content_lens.Operations.{
  State, created, acknowledged, running, committed, cancelled, failed, compensated, Operation,
  Effect, UserSafeError, Entry, Command, Profile, Journal, Response, pending, committed_at,
  was_cancelled, compensated_at, failure, Compensation, FaultPoint, before_commit, after_commit,
  Thrown, interrupted, mutation_error, unknown_error, Mutation, Outcome, returned, threw,
  FaultInjector,
}
use content_lens.Operations.Entries.{
  command_is_valid, save_failed, invalid_command_failure, conflict_failure, matches, response,
  is_cancelled, is_committed, is_settled, is_final, fresh_entry, running_entry, committed_entry,
  failed_entry, cancelled_entry, compensated_entry, cancelled_meanwhile, same_effect,
  invalid_target,
}

-- What `begin` leads to: an answer, or a mutation that runs for an entry.
pub data Begun (V : Type 0) : Type 0 where
  answered : Response V → Begun V
  started : Entry V → Begun V

module _ {C V : Type 0} where
  abbrev pub put : Journal C V → JsString → Entry V → Journal C V
  put j id e = record j { entries = Dict.set id e j.entries }

  acknowledge_valid : Journal C V → Command → Option (Entry V) → Response V × Journal C V
  acknowledge_valid j c none = (pending c.operation_id, put j c.operation_id (fresh_entry c))
  acknowledge_valid j c (some e) =
      (if matches e c then response j.profile.revision e else conflict_failure, j)

  unfoldable pub acknowledge : (JsString → Bool) → Journal C V → Command → Response V × Journal C V
  unfolding acknowledge_valid
  acknowledge is_iso j c =
      if command_is_valid is_iso c
      then acknowledge_valid j c (Dict.get c.operation_id j.entries)
      else (invalid_command_failure, j)

  -- The start of `#executeOnce` on the entry that it reads back.
  unfoldable pub begin_entry :
      Journal C V → Command → Response V → Option (Entry V) → Begun V × Journal C V
  begin_entry j c ack none = (answered ack, j)
  begin_entry j c ack (some e) =
      if not (matches e c)
      then (answered ack, j)
      else if is_settled e
      then (answered (response j.profile.revision e), j)
      else (started (running_entry e c), put j c.operation_id (running_entry e c))

  unfoldable pub begin : (JsString → Bool) → Journal C V → Command → Begun V × Journal C V
  unfolding begin_entry acknowledge
  begin is_iso j c =
      let (ack, j') = acknowledge is_iso j c in
      begin_entry j' c ack (Dict.get c.operation_id j'.entries)

  -- `catch`: an interruption is thrown on; any other error is written down as the failure of the
  -- entry that was running. `none` is the throw.
  unfoldable pub fail : Journal C V → Command → Entry V → Thrown → Option (Response V) × Journal C V
  fail j c e (interrupted point) = (none, j)
  fail j c e (mutation_error code message retry) =
      let f = failed_entry e c code message retry in
      (some (response j.profile.revision f), put j c.operation_id f)
  fail j c e unknown_error =
      let f = failed_entry e c (js "operation-failed") save_failed true in
      (some (response j.profile.revision f), put j c.operation_id f)

  -- `#compensatedEntry`, without the error that it throws.
  unfoldable pub find_compensated : Journal C V → Command → Compensation → Option (Entry V)
  find_compensated j c m = elim (Dict.get m.operation_id j.entries) [
    | none ↦ none
    | some e ↦
        if is_committed e && any (λ x. same_effect x m.effect) e.committed_effects
        then some (compensated_entry e c.operation_id c.at)
        else none
  ]

  abbrev put_compensated : Journal C V → Option (Entry V) → Journal C V
  put_compensated j none = j
  put_compensated j (some e) = put j e.operation_id e

  -- The commit: the profile becomes the draft, and the entries are written.
  unfoldable pub committed_journal :
      Journal C V → Command → Entry V → Mutation C V → Option (Entry V) → Journal C V
  committed_journal j c e m original =
      let revision = j.profile.revision + 1 in
      put
        (put_compensated (record j { profile = record { revision = revision; content = m.draft } })
          original)
        c.operation_id (committed_entry e c revision m.value m.effects)

  after_fault :
      Journal C V
      → Command
      → Entry V
      → Response V
      → Option Thrown
      → Option (Response V) × Journal C V
  after_fault j c e answer none = (some answer, j)
  after_fault j c e answer (some thrown) = fail j c e thrown

  unfoldable pub commit :
      Option FaultInjector
      → Journal C V
      → Command
      → Entry V
      → Mutation C V
      → Option (Entry V)
      → Option (Response V) × Journal C V
  unfolding after_fault
  commit none j c e m original =
      let j' = committed_journal j c e m original in
      (
        some (
            response j'.profile.revision
              (committed_entry e c (j.profile.revision + 1) m.value m.effects)),
        j',
      )
  commit (some inject) j c e m original =
      let j' = committed_journal j c e m original in
      let answer =
        response j'.profile.revision
          (committed_entry e c (j.profile.revision + 1) m.value m.effects) in
      elim (inject before_commit) [
        | some thrown ↦ fail j c e thrown
        | none ↦ after_fault j' c e answer (inject after_commit)
      ]

  unfoldable pub compensate_and_commit :
      Option FaultInjector
      → Journal C V
      → Command
      → Entry V
      → Mutation C V
      → Option Compensation
      → Option (Response V) × Journal C V
  compensate_and_commit inject j c e m none = commit inject j c e m none
  compensate_and_commit inject j c e m (some x) = elim (find_compensated j c x) [
    | none ↦ fail j c e invalid_target
    | some original ↦ commit inject j c e m (some original)
  ]

  -- The end of `#executeOnce`, once `mutate` has returned or thrown; `e` is the entry that ran.
  unfoldable pub complete :
      Option FaultInjector
      → Journal C V
      → Command
      → Entry V
      → Outcome C V
      → Option (Response V) × Journal C V
  unfolding compensate_and_commit
  complete inject j c e (threw t) = fail j c e t
  complete inject j c e (returned m) =
      elim (cancelled_meanwhile (Dict.get c.operation_id j.entries)) [
        | some x ↦ (some (response j.profile.revision x), j)
        | none ↦ compensate_and_commit inject j c e m m.compensation
      ]

  cancel_entry :
      Journal C V → JsString → JsString → Option (Entry V) → Option (Response V) × Journal C V
  cancel_entry j id at none = (none, j)
  cancel_entry j id at (some e) =
      if is_final e then (some (response j.profile.revision e), j) else (
        some (response j.profile.revision (cancelled_entry e at)),
        put j id (cancelled_entry e at),
      )

  unfoldable pub cancel : Journal C V → JsString → JsString → Option (Response V) × Journal C V
  unfolding cancel_entry
  cancel j id at = cancel_entry j id at (Dict.get id j.entries)

  unfoldable pub continue_begun :
      Option FaultInjector
      → Command
      → (Profile C → Outcome C V)
      → Begun V
      → Journal C V
      → Option (Response V) × Journal C V
  continue_begun inject c mutate (answered r) j = (some r, j)
  continue_begun inject c mutate (started e) j = complete inject j c e (mutate j.profile)

  -- `execute` where nothing is in flight and no other call comes while `mutate` runs.
  unfoldable pub execute :
      (JsString → Bool)
      → Option FaultInjector
      → Journal C V
      → Command
      → (Profile C → Outcome C V)
      → Option (Response V) × Journal C V
  unfolding continue_begun
  execute is_iso inject j c mutate =
      let (begun, j') = begin is_iso j c in
      if command_is_valid is_iso c
      then continue_begun inject c mutate begun j'
      else (some invalid_command_failure, j)
