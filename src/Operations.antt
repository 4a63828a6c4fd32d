-- ===== src/Operations.antt =====
-- src/core/operations/journal.ts: the data of `AtomicOperationJournal`.
pub mod Entries
pub mod Execution
pub mod Machine
use content_lens.Prelude.{
  ℕ, suc, ◌+◌, Bool, true, false, Option, none, some, List, [], ◌∷◌, JsString, js, same, ◌&&◌,
}
use content_lens.Prelude.Dict.{Dict}

-- `OperationState`
pub data State : Type 0 where
  created acknowledged running committed cancelled failed compensated : State

-- `OperationRecord`
pub record Operation : Type 0 where
  pub operation_id : JsString
  pub kind : JsString
  pub state : State
  pub target_fingerprint : JsString
  pub attempt : ℕ
  pub created_at : JsString
  pub updated_at : JsString
  pub retryable : Bool
  pub error_code : Option JsString
  pub revision : Option ℕ

pub record Effect : Type 0 where
  pub kind : JsString
  pub target_id : JsString

pub record UserSafeError : Type 0 where
  pub code : JsString
  pub message : JsString

-- `OperationEntry`, with results in `V`.
pub record Entry (V : Type 0) : Type 0 where
  pub op : Operation
  pub open op use *
  pub result : Option V
  pub committed_effects : List Effect
  pub error : Option UserSafeError
  pub compensated_by : Option JsString

-- `OperationCommand`
pub record Command : Type 0 where
  pub operation_id : JsString
  pub kind : JsString
  pub target_fingerprint : JsString
  pub at : JsString

-- A profile: its revision, and all else of it.
pub record Profile (C : Type 0) : Type 0 where
  pub revision : ℕ
  pub content : C

pub record Journal (C V : Type 0) : Type 0 where
  pub profile : Profile C
  pub entries : Dict (Entry V)

-- The cases of `OperationResponse` that the journal gives.
pub data Response (V : Type 0) : Type 0 where
  pending : JsString → Response V
  committed_at : Option V → ℕ → Response V
  was_cancelled : List Effect → Response V
  compensated_at : Option V → ℕ → Option JsString → Response V
  failure : UserSafeError → Bool → Response V

pub record Compensation : Type 0 where
  pub operation_id : JsString
  pub effect : Effect

pub data FaultPoint : Type 0 where
  before_commit after_commit : FaultPoint

-- What may be thrown while an operation runs: an interruption, a mutation error with its code,
-- message and `retryable`, or anything else.
pub data Thrown : Type 0 where
  interrupted : FaultPoint → Thrown
  mutation_error : JsString → JsString → Bool → Thrown
  unknown_error : Thrown

-- What `mutate` made of its draft: the new content, the value, the effects and a compensation.
pub record Mutation (C V : Type 0) : Type 0 where
  pub draft : C
  pub value : V
  pub effects : Option (List Effect)
  pub compensation : Option Compensation

pub data Outcome (C V : Type 0) : Type 0 where
  returned : Mutation C V → Outcome C V
  threw : Thrown → Outcome C V

-- `OperationFaultInjector`: what it throws at a point, if it does. It is there in tests.
abbrev pub FaultInjector : Type 0
FaultInjector = FaultPoint → Option Thrown
