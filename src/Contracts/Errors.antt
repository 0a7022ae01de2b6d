-- ===== src/Contracts/Errors.antt =====
-- kairo_kernel/errors.py
use Prim.Native.String.{String}
use mathlib.Core.Bool.{Bool, true, false}
use mathlib.Core.Option.{Option, none, some}
use py_tui_kairo.Contracts.Enums.{ErrorCode}
use py_tui_kairo.Contracts.Json.{JsonObject, no_member}

pub record KernelError : Type 0 where
  pub code : ErrorCode
  pub message : String
  pub retryable : Bool
  pub operation : String
  pub details : JsonObject
  pub turn_id : Option String
  pub interaction_id : Option String

-- `KernelError(code, message)`, the other fields at their defaults.
abbrev pub kernel_error : ErrorCode → String → KernelError
kernel_error c m = record {
  code = c;
  message = m;
  retryable = false;
  operation = "";
  details = no_member;
  turn_id = none;
  interaction_id = none;
}

-- Exactly one of `value` and `error` is present, as `__post_init__` requires.
pub data KernelResult {ℓ} (A : Type ℓ) : Type ℓ where
  success : A → KernelResult A
  failure : KernelError → KernelResult A

-- `KernelResult.ok`
abbrev pub ok {ℓ} : {A : Type ℓ} → KernelResult A → Bool
ok (success a) = true
ok (failure e) = false

-- The code of a failure.
abbrev pub error_code {ℓ} : {A : Type ℓ} → KernelResult A → Option ErrorCode
error_code (success a) = none
error_code (failure e) = some e.code
