-- ===== src/Engine/Turns/Compaction.antt =====
-- `_compact`: the history is summarised and trimmed where it is too long for the model.
use py_tui_kairo.Common.{
  ℕ, ◌+◌, ◌*◌, ◌/◌, Bool, false, ◌&&◌, not, Option, none, some, List, [], ◌∷◌, String, str_eq, ltb,
  if◌then◌else◌,
}
use Prim.Native.String.{◌++◌ as append_text}
use py_tui_kairo.Contracts.Enums.{
  ErrorCode, MessageKind, MessageRole, ProviderFailureKind, TurnPhase,
}
use py_tui_kairo.Contracts.Content.{ContentBlock, Message, text_block, reasoning_block}
use py_tui_kairo.Contracts.Errors.{KernelError, kernel_error}
use py_tui_kairo.Contracts.Providers.{ProviderFailure}
use py_tui_kairo.Engine.Context.{
  ContextPacker, new_packer, needs_compaction, source_and_retained, insert_summary, trim_to_target,
  estimate_context_tokens,
}
use py_tui_kairo.Engine.Turns.Machine.{
  M, Run, turn_cancelled, engine_failure, pure, raise, ◌>>=◌, ◌>>◌, reads, modify, uses, transition,
  emit_usage,
}
use py_tui_kairo.Engine.Turns.Stream.{StreamResult, provider_round}

abbrev pub message_of : String → MessageRole → MessageKind → List ContentBlock → Message
message_of message_id role kind content = record {
  message_id = message_id;
  role = role;
  kind = kind;
  content = content;
  name = "";
}

-- `_provider_error`
abbrev failure_code : ProviderFailureKind → ErrorCode
failure_code ProviderFailureKind.auth = ErrorCode.provider_auth
failure_code ProviderFailureKind.rate_limit = ErrorCode.provider_rate_limit
failure_code ProviderFailureKind.server = ErrorCode.provider_server
failure_code ProviderFailureKind.connection = ErrorCode.provider_connection
failure_code ProviderFailureKind.context = ErrorCode.provider_context
failure_code ProviderFailureKind.client = ErrorCode.provider_client
failure_code ProviderFailureKind.cancelled = ErrorCode.provider_client

unfoldable pub provider_error : ProviderFailure → String → KernelError
provider_error f turn_id = record (kernel_error (failure_code f.kind) f.message) {
  retryable = f.retryable;
  operation = "turn.provider";
  turn_id = some turn_id;
}

-- An error of the engine, with its operation and turn.
unfoldable pub turn_error : ErrorCode → String → String → String → KernelError
turn_error code message operation turn_id = record (kernel_error code message) {
  operation = operation;
  turn_id = some turn_id;
}

unfoldable pub fail : ErrorCode → String → String → {A : Type 0} → M A
unfolding turn_error raise
fail code message operation {A} s =
    raise (engine_failure (turn_error code message operation s.run.snapshot.turn_id)) s

unfoldable pub check_failure : Option ProviderFailure → M (Unit {0})
unfolding reads pure raise provider_error
check_failure none = pure tt
check_failure (some f) =
    reads (λ r. r.snapshot.turn_id) >>= λ turn_id. raise (engine_failure (provider_error f turn_id))

-- The stop or the failure of a round as the engine's exception.
unfoldable pub check_round : String → StreamResult → M (Unit {0})
unfolding raise check_failure
check_round stopped_message r =
    if r.stopped then raise (turn_cancelled stopped_message) else check_failure r.failed

abbrev pub packer_of : Run → ContextPacker
packer_of r =
    new_packer r.snapshot.options.context_trigger_percent r.snapshot.options.context_target_percent
      r.snapshot.options.preserve_recent_turns

-- The texts of the blocks that have one, in order.
unfoldable pub texts : List ContentBlock → String
texts [] = ""
texts (text_block text ∷ bs) = append_text text (texts bs)
texts (reasoning_block text d ∷ bs) = append_text text (texts bs)
texts (b ∷ bs) = texts bs

-- `"\n".join(message.to_json() for message in source)`
unfoldable pub join_lines : (Message → String) → List Message → String
join_lines json [] = ""
join_lines json (m ∷ []) = json m
join_lines json (m ∷ m' ∷ ms) = append_text (json m) (append_text "\n" (join_lines json (m' ∷ ms)))

abbrev pub count_compression : Run → Run
count_compression r = record r { compression_count = r.compression_count + 1 }

-- The kept part with a summary of the rest before it, or as it is if nothing is left out.
unfoldable pub summarise : List Message → List Message → M (List Message)
unfolding uses provider_round check_round fail modify pure
summarise [] retained = pure retained
summarise (m ∷ source) retained = do
  system_id ← uses (λ ports n. ports.fresh n)
  user_id ← uses (λ ports n. ports.fresh n)
  source_text ← uses (λ ports n. join_lines ports.message_json (m ∷ source))
  let system =
      message_of system_id MessageRole.system MessageKind.summary (
        text_block "Summarize the conversation faithfully for the assistant that continues it."
        ∷ [])
  let user = message_of user_id MessageRole.user MessageKind.summary (text_block source_text ∷ [])
  summary ← provider_round (system ∷ user ∷ []) "summary" false "delta"
  check_round "Compaction stopped." summary
  text ← uses (λ ports n. ports.strip (texts summary.blocks))
  (if str_eq text ""
      then fail ErrorCode.provider_context "Context compaction returned an empty summary."
          "turn.compact"
      else (do
        message_id ← uses (λ ports n. ports.fresh n)
        strip ← uses (λ ports n. ports.strip)
        modify count_compression
        pure (insert_summary strip retained text message_id)))

-- `int(context_window * context_target_percent / 100.0)`: the raw percent, not the packer's.
abbrev pub emergency_budget : Run → ℕ
emergency_budget r =
    r.snapshot.profile.context_window * r.snapshot.options.context_target_percent / 100

unfoldable pub check_fit : Bool → ℕ → M (Unit {0})
unfolding reads fail pure
check_fit emergency tokens = do
  budget ← reads emergency_budget
  (if emergency && ltb budget tokens
      then fail ErrorCode.provider_context "Emergency context compaction could not fit the request."
          "turn.compact"
      else pure tt)

unfoldable pub estimate : List Message → M ℕ
estimate ms s =
    uses
      (λ ports n.
        estimate_context_tokens ports.message_json ports.tool_json ms s.run.snapshot.tools)
      s

unfoldable pub trimmed : Bool → List Message → M (List Message)
trimmed emergency ms s =
    uses
      (λ ports n.
        trim_to_target ports.message_json ports.tool_json (packer_of s.run) ms s.run.snapshot.tools
          s.run.snapshot.profile.context_window
          (if emergency then 1 else s.run.snapshot.options.preserve_recent_turns))
      s

unfoldable pub too_long : List Message → M Bool
too_long ms s =
    uses
      (λ ports n.
        needs_compaction ports.message_json ports.tool_json (packer_of s.run) ms
          s.run.snapshot.tools s.run.snapshot.profile.context_window)
      s

unfoldable pub do_compact : Bool → List Message → M (List Message)
unfolding transition reads summarise trimmed check_fit estimate emit_usage pure
do_compact emergency history = do
  transition TurnPhase.compacting
  parts ← reads (λ r. source_and_retained (packer_of r) emergency history)
  compacted ← summarise parts.0 parts.1
  result ← trimmed emergency compacted
  tokens ← estimate result
  check_fit emergency tokens
  emit_usage tokens
  pure result

unfoldable pub compact : Bool → List Message → M (List Message)
unfolding too_long do_compact pure
compact emergency history = do
  needed ← too_long history
  (if not emergency && not needed then pure history else do_compact emergency history)
