-- ===== src/Engine/Turns/Stream.antt =====
-- `_provider_round`: one request to the provider, and its stream of events.
use py_tui_kairo.Common.{
  ◌+◌, Bool, true, false, ◌&&◌, not, Option, none, some, List, [], ◌∷◌, ◌++◌, map, String, str_eq,
  if◌then◌else◌,
}
use Prim.Native.String.{◌++◌ as append_text}
use py_tui_kairo.Contracts.Enums.{ProviderFailureKind, ProviderStreamKind, TurnPhase}
use py_tui_kairo.Contracts.Content.{ContentBlock, Message, text_block, reasoning_block}
use py_tui_kairo.Contracts.Errors.{KernelResult, success, failure}
use py_tui_kairo.Contracts.Providers.{
  ProviderFailure, ProviderProfile, ProviderRequest, ProviderStreamEvent, ProviderUsage, ToolCall,
}
use py_tui_kairo.Contracts.Tools.{ToolDescriptor}
use py_tui_kairo.Engine.Turns.Machine.{
  M, Run, Ended, returned, raised, turn_cancelled, engine_failure, fault, task_cancelled,
  StreamItem, event, stream_raises, pure, raise, ◌>>=◌, ◌>>◌, reads, modify, uses, call, wait,
  others, transition, emit_message, emit_usage,
}

-- `_StreamResult`
pub record StreamResult : Type 0 where
  pub message_id : String
  pub blocks : List ContentBlock
  pub tool_calls : List ToolCall
  pub usage : Option ProviderUsage
  pub failed : Option ProviderFailure
  pub stopped : Bool

-- The local variables of the loop; `terminal` is set after a COMPLETED event.
pub record Reading : Type 0 where
  pub so_far : StreamResult
  pub terminal : Bool

abbrev pub no_result : String → StreamResult
no_result message_id = record {
  message_id = message_id;
  blocks = [];
  tool_calls = [];
  usage = none;
  failed = none;
  stopped = false;
}

-- `_invalid_stream`
abbrev pub invalid_stream : String → StreamResult → StreamResult
invalid_stream message r = record r {
  failed = some (record {
    kind = ProviderFailureKind.client;
    message = message;
    retryable = false;
    status_code = none;
  });
}

-- Text of a reasoning event becomes a reasoning block.
abbrev pub as_reasoning : ContentBlock → ContentBlock
as_reasoning (text_block text) = reasoning_block text false
as_reasoning b = b

abbrev pub is_empty {ℓ} : {A : Type ℓ} → List A → Bool
is_empty [] = true
is_empty (x ∷ xs) = false

-- What an event does to the loop: it goes on, or `_provider_round` returns.
pub data Turn : Type 0 where
  goes_on : Reading → Turn
  returns : StreamResult → Turn

abbrev pub more_blocks : List ContentBlock → Reading → Reading
more_blocks content l = record l {
  so_far = record l.so_far { blocks = l.so_far.blocks ++ content };
}

-- `await self._emit_message(...)` under its test.
unfoldable pub emit_if : Bool → String → String → List ContentBlock → M (Unit {0})
unfolding emit_message pure
emit_if test message_id action content =
    if test then emit_message message_id action content else pure tt

abbrev pub add_usage : ProviderUsage → Run → Run
add_usage u r = record r {
  input_tokens = r.input_tokens + u.input_tokens;
  output_tokens = r.output_tokens + u.output_tokens;
}

unfoldable pub handle_call : Option ToolCall → Reading → M Turn
unfolding pure
handle_call none l = pure (returns (invalid_stream "Tool event omitted tool_call." l.so_far))
handle_call (some c) l =
    pure (
      goes_on
        (record l { so_far = record l.so_far { tool_calls = l.so_far.tool_calls ++ c ∷ [] } }))

unfoldable pub handle_usage : Option ProviderUsage → Reading → M Turn
unfolding modify emit_usage pure
handle_usage none l = pure (returns (invalid_stream "Usage event omitted usage." l.so_far))
handle_usage (some u) l = do
  modify (add_usage u)
  emit_usage (u.input_tokens + u.output_tokens)
  pure (goes_on (record l { so_far = record l.so_far { usage = some u } }))

-- An event of a stream that is not over, by its kind.
unfoldable pub handle_kind :
    Bool → String → ProviderStreamKind → ProviderStreamEvent → Reading → M Turn
unfolding emit_if transition handle_call handle_usage pure
handle_kind emit_deltas action ProviderStreamKind.content e l = do
  emit_if (emit_deltas && not (is_empty e.content)) l.so_far.message_id action e.content
  transition TurnPhase.streaming
  pure (goes_on (more_blocks e.content l))
handle_kind emit_deltas action ProviderStreamKind.reasoning e l = do
  let normalized = map as_reasoning e.content
  thinking ← reads (λ r. r.snapshot.options.thinking_mode)
  emit_if (emit_deltas && not (is_empty normalized) && thinking) l.so_far.message_id action
      normalized
  transition TurnPhase.thinking
  pure (goes_on (more_blocks normalized l))
handle_kind emit_deltas action ProviderStreamKind.tool_call e l = handle_call e.tool_call l
handle_kind emit_deltas action ProviderStreamKind.usage e l = handle_usage e.usage l
handle_kind emit_deltas action ProviderStreamKind.completed e l =
    pure (goes_on (record l { terminal = true }))
handle_kind emit_deltas action ProviderStreamKind.failed e l =
    pure (returns (record l.so_far { failed = e.failure }))

unfoldable pub handle_event : Bool → String → ProviderStreamEvent → Reading → M Turn
unfolding handle_kind pure
handle_event emit_deltas action e l =
    if l.terminal
    then pure (returns (invalid_stream "Provider emitted after terminal event." l.so_far))
    else handle_kind emit_deltas action e.kind e l

-- The blocks that a content or reasoning event has added stay also where its emission raises.
abbrev pub kept_blocks : ProviderStreamEvent → Reading → Reading
kept_blocks e l = if l.terminal then l else elim e.kind [
  | ProviderStreamKind.content ↦ more_blocks e.content l
  | ProviderStreamKind.reasoning ↦ more_blocks (map as_reasoning e.content) l
  | ProviderStreamKind.usage ↦ record l { so_far = record l.so_far { usage = e.usage } }
  | _ ↦ l
]

-- The `except Exception` around the loop, for what one event's handling ends with.
abbrev pub caught : Ended Turn → StreamResult → Ended Turn
caught (raised (fault message)) r =
    returned (returns (invalid_stream (append_text "Provider stream raised: " message) r))
caught (raised (engine_failure error)) r =
    returned (returns (invalid_stream (append_text "Provider stream raised: " error.message) r))
caught (raised (turn_cancelled message)) r =
    returned (returns (invalid_stream (append_text "Provider stream raised: " message) r))
caught (raised task_cancelled) r = raised task_cancelled
caught (returned t) r = returned t

unfoldable pub guarded_event : Bool → String → ProviderStreamEvent → Reading → M Turn
unfolding handle_event
guarded_event emit_deltas action e l s =
    let (r, s') = handle_event emit_deltas action e l s in (caught r (kept_blocks e l).so_far, s')

abbrev pub finish_stream : Reading → StreamResult
finish_stream l =
    if l.terminal
    then l.so_far
    else invalid_stream "Provider stream ended without terminal event." l.so_far

abbrev pub stop_stream : Reading → StreamResult
stop_stream l = record l.so_far { stopped = true }

abbrev pub go_on : (Reading → M StreamResult) → Turn → M StreamResult
go_on k (goes_on l) = k l
go_on k (returns r) = pure r

-- A token that is cancelled when the wait for the next event ends stops the stream.
unfoldable pub read_stream : Bool → String → List StreamItem → Reading → M StreamResult
unfolding wait others reads guarded_event pure ◌>>=◌
read_stream emit_deltas action [] l = do
  wait
  stopped ← reads (λ r. r.token.cancelled)
  others
  pure (if stopped then stop_stream l else finish_stream l)
read_stream emit_deltas action (stream_raises message already ∷ items) l = do
  wait
  stopped ← reads (λ r. r.token.cancelled)
  others
  pure (
      if stopped && not already
      then stop_stream l
      else invalid_stream (append_text "Provider stream raised: " message) l.so_far)
read_stream emit_deltas action (event e ∷ items) l = do
  wait
  stopped ← reads (λ r. r.token.cancelled)
  others
  (if stopped
      then pure (stop_stream l)
      else (guarded_event emit_deltas action e l
          >>= go_on (λ l'. read_stream emit_deltas action items l')))

-- The result of a port, or its error as the engine's failure.
unfoldable pub or_fail : {A : Type 0} → KernelResult A → M A
unfolding pure raise
or_fail (success a) = pure a
or_fail (failure e) = raise (engine_failure e)

abbrev pub offered_tools : String → Run → List ToolDescriptor
offered_tools role r = if str_eq role "chat" then r.snapshot.tools else []

abbrev pub provider_request : ProviderProfile → List Message → String → Run → ProviderRequest
provider_request profile messages role r = record {
  profile = profile;
  messages = messages;
  tools = offered_tools role r;
  max_output_tokens = none;
  temperature = none;
  role = role;
}

abbrev pub log_request : ProviderProfile → List Message → String → Run → Run
log_request profile messages role r = record r {
  requests = r.requests ++ provider_request profile messages role r ∷ [];
}

unfoldable pub provider_round : List Message → String → Bool → String → M StreamResult
unfolding transition call or_fail modify uses read_stream
provider_round messages role emit_deltas action = do
  transition TurnPhase.connecting
  resolved ← call (λ ports n. ports.resolve_profile n)
  profile ← or_fail resolved
  modify (log_request profile messages role)
  message_id ← uses (λ ports n. ports.fresh n)
  items ← uses (λ ports n. ports.stream n)
  read_stream emit_deltas action items (record { so_far = no_result message_id; terminal = false })
