-- ===== src/Operations/Machine/Runs.antt =====
-- src/core/operations/journal.ts: what holds of the journal after any calls, in any interleaving.
use content_lens.Prelude.{
  ℕ, ◌≡◌, refl, Bool, Option, none, some, List, [], ◌∷◌, JsString, arith, inl, inr, Bool-cases,
}
use content_lens.Prelude.Dict.{Dict, Each, get-empty, get-set}
use content_lens.Prelude.Dict
use content_lens.Operations.{Entry, Command, Journal, Profile, Outcome}
use content_lens.Operations.Entries.{command_is_valid}
use content_lens.Operations.Execution.{Begun, answered, started, begin}
use content_lens.Operations.Execution.Revisions.{IsLog, revision_at}
use content_lens.Operations.Execution.Revisions.Commits.{complete-IsLog}
use content_lens.Operations.Execution.Revisions.Steps.{
  Runs, Runs-keep, acknowledge-IsLog, cancel-IsLog, begin-IsLog_started, begin-IsLog_answered,
  revision_at-acknowledge, revision_at-cancel,
}
use content_lens.Operations.Machine.{
  Machine, Event, acknowledges, executes, cancels, starts, finishes, enqueue, begun, start, finish,
  step, run,
}

module _ {C V : Type 0} where
  abbrev pub RunsAny : Journal C V → Option (Command × Entry V) → Type 0
  RunsAny j none = Unit
  RunsAny j (some (c, e)) = Runs j c e

  -- The journal is a log of its revisions, and what runs has not been applied.
  pub record IsSound (base : ℕ) (m : Machine C V) : Type 0 where
    pub log : IsLog base m.journal
    pub runs : RunsAny m.journal m.running

  RunsAny-keep :
      (j j' : Journal C V) (r : Option (Command × Entry V))
      → ((id : JsString) → revision_at id j' ≡ revision_at id j)
      → RunsAny j r
      → RunsAny j' r
  RunsAny-keep j j' none h r = tt
  RunsAny-keep j j' (some (c, e)) h r = Runs-keep j j' c e (h c.operation_id) r

  enqueue-IsSound :
      (base : ℕ) (m : Machine C V) (c : Command) (found : Option (JsString × JsString))
      → IsSound base m
      → IsSound base (enqueue m c found)
  unfolding enqueue
  enqueue-IsSound base m c none s = record { log = s.log; runs = s.runs }
  enqueue-IsSound base m c (some x) s = s

  begun-IsSound :
      (is_iso : JsString → Bool) (base : ℕ) (m : Machine C V) (c : Command) (rest : List Command)
      (b : Begun V × Journal C V)
      → begin is_iso m.journal c ≡ b
      → IsSound base m
      → IsSound base (begun m c rest b)
  unfolding begun
  begun-IsSound is_iso base m c rest (answered r, j) e s = record {
    log = begin-IsLog_answered is_iso base m.journal j c r s.log e;
    runs = tt;
  }
  begun-IsSound is_iso base m c rest (started x, j) e s =
      let (l, r) = begin-IsLog_started is_iso base m.journal j c x s.log e in
      record { log = l; runs = r }

  start-IsSound :
      (is_iso : JsString → Bool) (base : ℕ) (m : Machine C V) (r : Option (Command × Entry V))
      (queue : List Command)
      → IsSound base m
      → IsSound base (start is_iso m r queue)
  unfolding start
  start-IsSound is_iso base m (some x) queue s = s
  start-IsSound is_iso base m none [] s = s
  start-IsSound is_iso base m none (c ∷ rest) s =
      begun-IsSound is_iso base m c rest (begin is_iso m.journal c) refl s

  finish-IsSound :
      (base : ℕ) (m : Machine C V) (r : Option (Command × Entry V)) (o : Outcome C V)
      → RunsAny m.journal r
      → IsSound base m
      → IsSound base (finish m r o)
  unfolding finish
  finish-IsSound base m none o r s = s
  finish-IsSound base m (some (c, e)) o r s = record {
    log = complete-IsLog base m.journal c e o s.log r;
    runs = tt;
  }

  pub step-IsSound :
      (is_iso : JsString → Bool) (base : ℕ) (m : Machine C V) (x : Event C V)
      → IsSound base m
      → IsSound base (step is_iso m x)
  unfolding step
  step-IsSound is_iso base m (acknowledges c) s = record {
    log = acknowledge-IsLog is_iso base m.journal c s.log;
    runs = RunsAny-keep m.journal _ m.running (revision_at-acknowledge is_iso m.journal c) s.runs;
  }
  step-IsSound is_iso base m (executes c) s = elim (Bool-cases (command_is_valid is_iso c)) [
    | inl valid ↦
        rw (valid, step) (enqueue-IsSound base m c (Dict.get c.operation_id m.in_flight) s)
    | inr bad ↦ rw (bad, step) s
  ]
  step-IsSound is_iso base m (cancels id at) s = record {
    log = cancel-IsLog base m.journal id at s.log;
    runs =
        RunsAny-keep m.journal _ m.running (revision_at-cancel base m.journal id at s.log) s.runs;
  }
  step-IsSound is_iso base m starts s = start-IsSound is_iso base m m.running m.queue s
  step-IsSound is_iso base m (finishes o) s = finish-IsSound base m m.running o s.runs s

  pub run-IsSound :
      (is_iso : JsString → Bool) (base : ℕ) (m : Machine C V) (xs : List (Event C V))
      → IsSound base m
      → IsSound base (run is_iso m xs)
  unfolding run
  run-IsSound is_iso base m [] s = s
  run-IsSound is_iso base m (x ∷ xs) s =
      run-IsSound is_iso base (step is_iso m x) xs (step-IsSound is_iso base m x s)

  -- The journal of a profile, before any call.
  abbrev pub new_machine : Profile C → Machine C V
  new_machine p = record {
    journal = record { profile = p; entries = [] };
    running = none;
    queue = [];
    in_flight = [];
  }

  pub new-IsSound : (p : Profile C) → IsSound p.revision (new_machine p)
  new-IsSound p = record {
    log = record {
      started_at = omega arith;
      good = λ k e h. absurd (cc (get-empty {V = Entry V} k, h));
      bound = λ k r h. absurd (cc (get-empty {V = Entry V} k, h));
      unique = λ a b r h h'. absurd (cc (get-empty {V = Entry V} a, h));
      covers = λ r lo hi. absurd (omega arith);
    };
    runs = tt;
  }

  -- After any calls, in any interleaving with the mutations that run, every revision that the profile
  -- has reached since the journal was made belongs to exactly one operation, which is committed or was
  -- and is compensated, and no other operation has a revision.
  pub revisions_are_operations :
      (is_iso : JsString → Bool) (p : Profile C) (xs : List (Event C V))
      → IsLog p.revision (run is_iso (new_machine p) xs).journal
  revisions_are_operations is_iso p xs =
      (run-IsSound is_iso p.revision (new_machine p) xs (new-IsSound p)).log
