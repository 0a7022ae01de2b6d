-- ===== src/Contracts/Interactions.antt =====
-- kairo_kernel/contracts/interactions.py
use Prim.Native.Nat.{ℕ}
use Prim.Native.String.{String}
use mathlib.Core.Bool.{Bool, true, false, not, ◌&&◌}
use mathlib.Core.Option.{Option}
use mathlib.Core.List.{List}
use py_tui_kairo.Common.{any_of}
use py_tui_kairo.Contracts.Enums.{
  InteractionAction, InteractionKind, approve_once, enable_auto, enable_yolo, action_eq,
}

pub record InteractionChoice : Type 0 where
  pub action : InteractionAction
  pub label : String
  pub destructive : Bool

pub record InteractionRequest : Type 0 where
  pub interaction_id : String
  pub turn_id : String
  pub session_id : String
  pub kind : InteractionKind
  pub prompt : String
  pub choices : List InteractionChoice
  pub expires_at : Option ℕ
  pub safe_default : InteractionAction

-- The actions that grant something: approval, auto mode, yolo mode.
abbrev pub grants : InteractionAction → Bool
grants approve_once = true
grants enable_auto = true
grants enable_yolo = true
grants _ = false

-- `action in {choice.action for choice in choices}`
unfoldable pub offered : InteractionAction → List InteractionChoice → Bool
offered a choices = any_of (λ c. action_eq c.action a) choices

-- `__post_init__` of a request: construction raises ValueError where this is false.
unfoldable pub request_valid : InteractionRequest → Bool
unfolding offered
request_valid r = offered r.safe_default r.choices && not (grants r.safe_default)

pub record InteractionResponse : Type 0 where
  pub interaction_id : String
  pub turn_id : String
  pub action : InteractionAction
  pub text : String

pub record InteractionReceipt : Type 0 where
  pub interaction_id : String
  pub turn_id : String
  pub accepted : Bool
