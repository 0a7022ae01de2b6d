-- ===== src/Contracts/Enums.antt =====
-- kairo_kernel/contracts/enums.py
use mathlib.Core.Bool.{Bool, true, false}
use Prim.Native.String.{String}

pub data LifecycleState : Type 0 where
  created starting running stopping stopped degraded : LifecycleState

pub data TurnStatus : Type 0 where
  accepted running waiting_input stopping succeeded cancelled failed : TurnStatus

pub data TurnPhase : Type 0 where
  planning connecting thinking streaming waiting_approval running_tool compacting : TurnPhase

pub data MessageRole : Type 0 where
  system user assistant tool : MessageRole

pub data MessageKind : Type 0 where
  chat plan summary runtime_state : MessageKind

pub data AuthorizationMode : Type 0 where
  manual auto yolo : AuthorizationMode

pub data OperationScope : Type 0 where
  internal external system destructive : OperationScope

pub data InteractionKind : Type 0 where
  tool_approval plan_approval text_input : InteractionKind

pub data InteractionAction : Type 0 where
  approve_once reject stop enable_auto enable_yolo submit_text : InteractionAction

pub data ToolExecutionStatus : Type 0 where
  succeeded failed rejected cancelled : ToolExecutionStatus

pub data ProviderStreamKind : Type 0 where
  content reasoning tool_call usage completed failed : ProviderStreamKind

pub data ProviderFailureKind : Type 0 where
  auth rate_limit server connection context client cancelled : ProviderFailureKind

pub data EventType : Type 0 where
  lifecycle turn message tool interaction usage context : EventType
  session_changed config_changed workspace_changed skills_changed : EventType
  provider_changed memory_changed notice : EventType

pub data ErrorCode : Type 0 where
  invalid_argument not_found conflict unauthorized policy_denied kernel_not_running : ErrorCode
  kernel_busy kernel_closing kernel_degraded turn_not_found interaction_not_found : ErrorCode
  interaction_expired session_not_found session_persistence_failed config_invalid : ErrorCode
  config_persistence_failed workspace_invalid runtime_sync_failed provider_auth : ErrorCode
  provider_rate_limit provider_server provider_connection provider_context : ErrorCode
  provider_client tool_not_found tool_arguments_invalid tool_execution_failed : ErrorCode
  tool_rejected resource_exhausted shutdown_timeout internal : ErrorCode

-- The text that each member of an enum carries (`member.value`).
abbrev pub lifecycle_value : LifecycleState → String
lifecycle_value LifecycleState.created = "created"
lifecycle_value LifecycleState.starting = "starting"
lifecycle_value LifecycleState.running = "running"
lifecycle_value LifecycleState.stopping = "stopping"
lifecycle_value LifecycleState.stopped = "stopped"
lifecycle_value LifecycleState.degraded = "degraded"

abbrev pub mode_value : AuthorizationMode → String
mode_value AuthorizationMode.manual = "manual"
mode_value AuthorizationMode.auto = "auto"
mode_value AuthorizationMode.yolo = "yolo"

abbrev pub scope_value : OperationScope → String
scope_value OperationScope.internal = "internal"
scope_value OperationScope.external = "external"
scope_value OperationScope.system = "system"
scope_value OperationScope.destructive = "destructive"

abbrev pub phase_value : TurnPhase → String
phase_value TurnPhase.planning = "planning"
phase_value TurnPhase.connecting = "connecting"
phase_value TurnPhase.thinking = "thinking"
phase_value TurnPhase.streaming = "streaming"
phase_value TurnPhase.waiting_approval = "waiting_approval"
phase_value TurnPhase.running_tool = "running_tool"
phase_value TurnPhase.compacting = "compacting"

abbrev pub execution_value : ToolExecutionStatus → String
execution_value ToolExecutionStatus.succeeded = "succeeded"
execution_value ToolExecutionStatus.failed = "failed"
execution_value ToolExecutionStatus.rejected = "rejected"
execution_value ToolExecutionStatus.cancelled = "cancelled"

-- `action in other_actions`, `is` between members.
abbrev pub action_eq : InteractionAction → InteractionAction → Bool
action_eq InteractionAction.approve_once InteractionAction.approve_once = true
action_eq InteractionAction.reject InteractionAction.reject = true
action_eq InteractionAction.stop InteractionAction.stop = true
action_eq InteractionAction.enable_auto InteractionAction.enable_auto = true
action_eq InteractionAction.enable_yolo InteractionAction.enable_yolo = true
action_eq InteractionAction.submit_text InteractionAction.submit_text = true
action_eq _ _ = false
