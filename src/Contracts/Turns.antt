-- ===== src/Contracts/Turns.antt =====
-- kairo_kernel/contracts/turns.py
use Prim.Native.Nat.{ℕ}
use Prim.Native.String.{String}
use mathlib.Core.Bool.{Bool}
use mathlib.Core.Option.{Option}
use mathlib.Core.List.{List}
use py_tui_kairo.Contracts.Enums.{TurnStatus, TurnPhase}
use py_tui_kairo.Contracts.Json.{JsonObject}
use py_tui_kairo.Contracts.Content.{Message}

pub record TurnRequest : Type 0 where
  pub text : String
  pub session_id : Option String
  pub client_request_id : String
  pub metadata : JsonObject

pub record TurnAccepted : Type 0 where
  pub turn_id : String
  pub session_id : String
  pub accepted_at : ℕ

pub record TurnSnapshot : Type 0 where
  pub turn_id : String
  pub session_id : String
  pub status : TurnStatus
  pub phase : Option TurnPhase
  pub started_at : Option ℕ
  pub finished_at : Option ℕ
  pub cancel_requested : Bool

pub record TurnResult : Type 0 where
  pub turn_id : String
  pub session_id : String
  pub status : TurnStatus
  pub messages : List Message
  pub started_at : ℕ
  pub finished_at : ℕ
  pub error_message : String

pub record CancelReceipt : Type 0 where
  pub turn_id : String
  pub requested : Bool
  pub already_terminal : Bool
