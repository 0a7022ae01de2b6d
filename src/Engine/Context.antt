-- ===== src/Engine/Context.antt =====
-- kairo_kernel/engine/context.py: token estimates and the packing of a history. `to_json` of a message and of a tool
-- descriptor and `str.strip` are arguments: what is shown holds whatever they give. Percents are whole numbers.
pub mod Turns
pub mod Trim
mod Examples
use Prim.Native.Char.{Char, code}
use Prim.Native.String.{String}
use py_tui_kairo.Common.{
  ℕ, zero, suc, ◌+◌, ◌-◌, ◌*◌, ◌/◌, min, max, Bool, true, false, ◌&&◌, Option, none, some, List, [],
  ◌∷◌, ◌++◌, ltb, leb, take, drop, length, if◌then◌else◌,
}
use py_tui_kairo.Contracts.Enums.{MessageRole, MessageKind}
use py_tui_kairo.Contracts.Content.{Message, ContentBlock}
use py_tui_kairo.Contracts.Tools.{ToolDescriptor}

-- The characters above code 255, and the others.
unfoldable pub wide : String → ℕ
wide String.[] = 0
wide (String.◌∷◌ c text) = let rest = wide text in if ltb 255 (code c) then suc rest else rest

unfoldable pub narrow : String → ℕ
narrow String.[] = 0
narrow (String.◌∷◌ c text) = let rest = narrow text in if ltb 255 (code c) then rest else suc rest

-- `(n + 3) // 4 if n else 0`
unfoldable pub estimate_text : String → ℕ
unfolding wide narrow
estimate_text text = wide text + (narrow text + 3) / 4

abbrev pub is_user : Message → Bool
is_user m = elim m.role [ MessageRole.user ↦ true | _ ↦ false ]

-- `_split_turns` after some messages. `current` is the last turn, none while there is no turn.
pub record Split : Type 0 where
  pub prefix : List Message
  pub turns : List (List Message)

-- `current.append(message)`
unfoldable pub append_last : Message → List Message → List (List Message) → List (List Message)
append_last m t [] = (t ++ m ∷ []) ∷ []
append_last m t (u ∷ ts) = t ∷ append_last m u ts

append_current : Message → List Message → List (List Message) → Split
unfolding append_last
append_current m prefix [] = record { prefix = prefix ++ m ∷ []; turns = [] }
append_current m prefix (t ∷ ts) = record { prefix = prefix; turns = append_last m t ts }

unfoldable pub add_message : Message → Split → Split
unfolding append_current
add_message m s =
    if is_user m
    then record s { turns = s.turns ++ (m ∷ []) ∷ [] }
    else append_current m s.prefix s.turns

unfoldable pub split_from : List Message → Split → Split
split_from [] s = s
split_from (m ∷ ms) s = split_from ms (add_message m s)

abbrev pub split_turns : List Message → Split
split_turns ms = split_from ms (record { prefix = []; turns = [] })

-- `tuple(message for turn in turns for message in turn)`
unfoldable pub join : List (List Message) → List Message
join [] = []
join (t ∷ ts) = t ++ join ts

pub record ContextPacker : Type 0 where
  pub trigger_percent : ℕ
  pub target_percent : ℕ
  pub preserve_turns : ℕ

unfoldable pub new_packer : ℕ → ℕ → ℕ → ContextPacker
new_packer trigger_percent target_percent preserve_turns = record {
  trigger_percent = min (max trigger_percent 1) 100;
  target_percent = min (max target_percent 1) (min (max trigger_percent 1) 100);
  preserve_turns = preserve_turns;
}

module _ (message_json : Message → String) (tool_json : ToolDescriptor → String) where
  unfoldable pub messages_tokens : List Message → ℕ
  messages_tokens [] = 0
  messages_tokens (m ∷ ms) = 4 + estimate_text (message_json m) + messages_tokens ms

  unfoldable pub tools_tokens : List ToolDescriptor → ℕ
  tools_tokens [] = 0
  tools_tokens (t ∷ ts) = estimate_text (tool_json t) + tools_tokens ts

  unfoldable pub estimate_context_tokens : List Message → List ToolDescriptor → ℕ
  unfolding messages_tokens tools_tokens
  estimate_context_tokens ms ts = 3 + messages_tokens ms + tools_tokens ts

  unfoldable pub needs_compaction : ContextPacker → List Message → List ToolDescriptor → ℕ → Bool
  needs_compaction p ms ts context_window =
      leb (max 1 context_window * p.trigger_percent / 100) (estimate_context_tokens ms ts)

  -- The `while` loop on `mutable`.
  unfoldable pub trim_loop :
      List ToolDescriptor → ℕ → ℕ → List Message → List (List Message) → List Message
  trim_loop ts budget minimum prefix [] = prefix ++ []
  trim_loop ts budget minimum prefix (t ∷ turns) =
      let rest = trim_loop ts budget minimum prefix turns in
      if ltb minimum (suc (length turns))
      then (if leb (estimate_context_tokens (prefix ++ join (t ∷ turns)) ts) budget
          then prefix ++ join (t ∷ turns)
          else rest)
      else prefix ++ join (t ∷ turns)

  unfoldable pub trim_to_target :
      ContextPacker → List Message → List ToolDescriptor → ℕ → ℕ → List Message
  unfolding trim_loop
  trim_to_target p ms ts context_window minimum_turns =
      let s = split_turns ms in
      trim_loop ts (max 1 context_window * p.target_percent / 100)
        (min (length s.turns) (max 1 minimum_turns)) s.prefix s.turns

-- How many of the last turns are kept.
unfoldable pub preserved : ContextPacker → Bool → ℕ → ℕ
preserved p emergency turns =
    let preserve = min turns p.preserve_turns in
    if emergency && leb turns preserve then min 1 turns else preserve

unfoldable pub source_and_retained :
    ContextPacker → Bool → List Message → List Message × List Message
unfolding preserved
source_and_retained p emergency ms =
    let s = split_turns ms in
    let old = length s.turns - preserved p emergency (length s.turns) in
    (join (take old s.turns), s.prefix ++ join (drop old s.turns))

unfoldable pub insert_summary : (String → String) → List Message → String → String → List Message
insert_summary strip retained summary message_id =
    let s = split_turns retained in
    s.prefix
    ++ record {
      message_id = message_id;
      role = MessageRole.system;
      kind = MessageKind.summary;
      content = ContentBlock.text_block (strip summary) ∷ [];
      name = "";
    }
      ∷ join s.turns
