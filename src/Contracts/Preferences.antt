-- ===== src/Contracts/Preferences.antt =====
-- kairo_kernel/contracts/preferences.py: PreferencesSnapshot. Percents are whole numbers.
use Prim.Native.Nat.{ℕ}
use Prim.Native.String.{String}
use mathlib.Core.Bool.{Bool}
use mathlib.Core.Option.{Option}
use py_tui_kairo.Contracts.Enums.{AuthorizationMode}

pub record PreferencesSnapshot : Type 0 where
  pub revision : ℕ
  pub authorization_mode : AuthorizationMode
  pub plan_mode : Bool
  pub thinking_mode : Bool
  pub context_trigger_percent : ℕ
  pub context_target_percent : ℕ
  pub preserve_recent_turns : ℕ
  pub profile_id : Option String
