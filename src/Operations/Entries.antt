-- ===== src/Operations/Entries.antt =====
-- src/core/operations/journal.ts: the records that `AtomicOperationJournal` writes, its tests of an
-- entry, and the responses that it makes of one.
use content_lens.Prelude.{
  ℕ, ◌+◌, Bool, true, false, not, ◌&&◌, Option, none, some, List, [], JsString, js, same, has_text,
  get_or, if◌then◌else◌,
}
use content_lens.Operations.{
  created, acknowledged, running, committed, cancelled, failed, compensated, Effect, Entry, Command,
  Response, pending, committed_at, was_cancelled, compensated_at, failure, Thrown, mutation_error,
}

-- `commandIsValid`; `is_iso` is zod's test of a timestamp.
unfoldable pub command_is_valid : (JsString → Bool) → Command → Bool
command_is_valid is_iso c =
    has_text c.operation_id && has_text c.kind && has_text c.target_fingerprint && is_iso c.at

abbrev pub save_failed : JsString
save_failed = js "The operation could not be saved"

module _ {V : Type 0} where
  unfoldable pub invalid_command_failure : Response V
  invalid_command_failure =
      failure
        (record { code = js "invalid-operation"; message = js "Operation metadata is invalid" })
        false

  unfoldable pub conflict_failure : Response V
  conflict_failure =
      failure
        (record {
          code = js "operation-id-conflict";
          message = js "Operation ID is already bound to another target";
        })
        false

  -- `#matches`
  unfoldable pub matches : Entry V → Command → Bool
  matches e c = same e.op.kind c.kind && same e.target_fingerprint c.target_fingerprint

  -- `#response`; the number is the revision of the profile.
  unfoldable pub response : ℕ → Entry V → Response V
  response revision e = elim e.state [
    | committed ↦ committed_at e.result (get_or e.op.revision revision)
    | compensated ↦ compensated_at e.result (get_or e.op.revision revision) e.compensated_by
    | cancelled ↦ was_cancelled e.committed_effects
    | failed ↦
        failure
          (get_or e.error
            (record { code = get_or e.error_code (js "operation-failed"); message = save_failed }))
          e.retryable
    | created ↦ pending e.operation_id
    | acknowledged ↦ pending e.operation_id
    | running ↦ pending e.operation_id
  ]

  abbrev pub is_cancelled : Entry V → Bool
  is_cancelled e = elim e.state [ cancelled ↦ true | _ ↦ false ]

  abbrev pub is_committed : Entry V → Bool
  is_committed e = elim e.state [ committed ↦ true | _ ↦ false ]

  -- The states in which `executeOnce` answers at once.
  abbrev pub is_settled : Entry V → Bool
  is_settled e = elim e.state [
    | committed ↦ true
    | compensated ↦ true
    | cancelled ↦ true
    | failed ↦ not e.retryable
    | created ↦ false
    | acknowledged ↦ false
    | running ↦ false
  ]

  unfoldable pub fresh_entry : Command → Entry V
  fresh_entry c = record {
    op = record {
      operation_id = c.operation_id;
      kind = c.kind;
      state = acknowledged;
      target_fingerprint = c.target_fingerprint;
      attempt = 0;
      created_at = c.at;
      updated_at = c.at;
      retryable = true;
      error_code = none;
      revision = none;
    };
    result = none;
    committed_effects = [];
    error = none;
    compensated_by = none;
  }

  unfoldable pub running_entry : Entry V → Command → Entry V
  running_entry e c = record {
    op = record e.op {
      state = running;
      attempt = e.attempt + 1;
      updated_at = c.at;
      retryable = true;
      error_code = none;
    };
    result = none;
    committed_effects = e.committed_effects;
    error = none;
    compensated_by = none;
  }

  unfoldable pub committed_entry : Entry V → Command → ℕ → V → Option (List Effect) → Entry V
  committed_entry e c revision value effects = record {
    op = record e.op {
      state = committed;
      updated_at = c.at;
      retryable = false;
      revision = some revision;
    };
    result = some value;
    committed_effects = get_or effects [];
    error = none;
    compensated_by = none;
  }

  unfoldable pub failed_entry : Entry V → Command → JsString → JsString → Bool → Entry V
  failed_entry e c code message retry = record {
    op = record e.op {
      state = failed;
      updated_at = c.at;
      retryable = retry;
      error_code = some code;
    };
    result = none;
    committed_effects = [];
    error = some (record { code = code; message = message });
    compensated_by = none;
  }

  unfoldable pub cancelled_entry : Entry V → JsString → Entry V
  cancelled_entry e at = record {
    op = record e.op { state = cancelled; updated_at = at; retryable = false };
    result = none;
    committed_effects = e.committed_effects;
    error = none;
    compensated_by = none;
  }

  unfoldable pub compensated_entry : Entry V → JsString → JsString → Entry V
  compensated_entry e by at = record e {
    op = record e.op { state = compensated; updated_at = at; retryable = false };
    compensated_by = some by;
  }

  abbrev pub cancelled_meanwhile : Option (Entry V) → Option (Entry V)
  cancelled_meanwhile none = none
  cancelled_meanwhile (some e) = if is_cancelled e then some e else none

  abbrev pub is_final : Entry V → Bool
  is_final e = elim e.state [
    | committed ↦ true
    | compensated ↦ true
    | cancelled ↦ true
    | failed ↦ true
    | created ↦ false
    | acknowledged ↦ false
    | running ↦ false
  ]

abbrev pub same_effect : Effect → Effect → Bool
same_effect a b = same a.kind b.kind && same a.target_id b.target_id

abbrev pub invalid_target : Thrown
invalid_target =
    mutation_error (js "invalid-compensation-target")
      (js "The original operation cannot be compensated") false
