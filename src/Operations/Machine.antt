-- ===== src/Operations/Machine.antt =====
-- src/core/operations/journal.ts: `execute` with its `#inFlight` and `#transactionTail`. The commands
-- that were taken on wait in a queue; one runs at a time, and while its `mutate` is awaited any other
-- call of the journal may come. The faults of tests are left out.
pub mod Runs
pub mod Once
use content_lens.Prelude.{
  ℕ, Bool, true, false, ◌&&◌, Option, none, some, List, [], ◌∷◌, ◌++◌, JsString, same,
  if◌then◌else◌,
}
use content_lens.Prelude.Dict.{Dict}
use content_lens.Prelude.Dict
use content_lens.Operations.{Entry, Command, Journal, Outcome}
use content_lens.Operations.Entries.{command_is_valid}
use content_lens.Operations.Execution.{
  Begun, answered, started, acknowledge, begin, complete, cancel,
}

pub record Machine (C V : Type 0) : Type 0 where
  pub journal : Journal C V
  pub running : Option (Command × Entry V)
  pub queue : List Command
  pub in_flight : Dict (JsString × JsString)

-- What may happen: a call of the journal, the start of the next command in the queue, and the end of
-- the mutation that runs.
pub data Event (C V : Type 0) : Type 0 where
  acknowledges : Command → Event C V
  executes : Command → Event C V
  cancels : JsString → JsString → Event C V
  starts : Event C V
  finishes : Outcome C V → Event C V

module _ {C V : Type 0} where
  -- `execute` up to its `await`: a valid command whose id is not in flight is taken on. One that is
  -- waits for the same promise or is refused, and changes nothing.
  unfoldable pub enqueue : Machine C V → Command → Option (JsString × JsString) → Machine C V
  enqueue m c (some _) = m
  enqueue m c none = record m {
    queue = m.queue ++ c ∷ [];
    in_flight = Dict.set c.operation_id (c.kind, c.target_fingerprint) m.in_flight;
  }

  -- `finally`
  abbrev pub land : Machine C V → Command → Machine C V
  land m c = record m { running = none; in_flight = Dict.delete c.operation_id m.in_flight }

  unfoldable pub begun : Machine C V → Command → List Command → Begun V × Journal C V → Machine C V
  begun m c rest (answered _, j) = land (record m { journal = j; queue = rest }) c
  begun m c rest (started e, j) = record m { journal = j; queue = rest; running = some (c, e) }

  unfoldable pub start :
      (JsString → Bool) → Machine C V → Option (Command × Entry V) → List Command → Machine C V
  start is_iso m (some _) queue = m
  start is_iso m none [] = m
  start is_iso m none (c ∷ rest) = begun m c rest (begin is_iso m.journal c)

  unfoldable pub finish : Machine C V → Option (Command × Entry V) → Outcome C V → Machine C V
  finish m none o = m
  finish m (some (c, e)) o = land (record m { journal = (complete none m.journal c e o).1 }) c

  unfoldable pub step : (JsString → Bool) → Machine C V → Event C V → Machine C V
  step is_iso m (acknowledges c) = record m { journal = (acknowledge is_iso m.journal c).1 }
  step is_iso m (executes c) =
      if command_is_valid is_iso c then enqueue m c (Dict.get c.operation_id m.in_flight) else m
  step is_iso m (cancels id at) = record m { journal = (cancel m.journal id at).1 }
  step is_iso m starts = start is_iso m m.running m.queue
  step is_iso m (finishes o) = finish m m.running o

  unfoldable pub run : (JsString → Bool) → Machine C V → List (Event C V) → Machine C V
  run is_iso m [] = m
  run is_iso m (x ∷ xs) = run is_iso (step is_iso m x) xs
