-- ===== src/EventMapper/Remember.antt =====
-- web/server/src/event-mapper.ts: what a whole assistant message leaves in the mapper; and the parts of
-- an assistant message in web/server/src/transcript-hydrator.ts.
use fleet_prime_agent.Prelude.{
  ℕ, suc, String, Bool, true, false, ◌||◌, List, [], ◌∷◌, ◌++◌, Option, none, some, get_or,
  if◌then◌else◌, ◌==◌, nat_eq, find, filter,
}
use fleet_prime_agent.Prelude.Text.{◌<>◌, truthy?, starts_with, ends_with}
use fleet_prime_agent.Prelude.NatMap
use fleet_prime_agent.Prelude.NatMap.{NatMap}
use fleet_prime_agent.Prelude.Json.{Value}
use fleet_prime_agent.Chat.{
  Part, text, reasoning, error, image, tool, ToolPart, complete, ChatMessage, Role,
}
use fleet_prime_agent.EventMapper.{
  MapperState, AssistantMessage, Content, plain, blocks, Block, Hydrator, Identity,
}
use fleet_prime_agent.EventMapper.Episodes.{name_message}
use fleet_prime_agent.EventMapper.Tools.{is_call, upsert_current_tool_part}

-- A part of a message that is a complete reasoning text.
abbrev pub complete_reasoning : ℕ → String → Part
complete_reasoning index t =
    reasoning (record { content_index = index; text = t; state = complete; duration_ms = none })

-- `imageToChatPart`
abbrev pub image_part : String → String → Part
image_part bytes mime = image ("data:" <> mime <> ";base64," <> bytes) (some mime) none

tool_part : Identity → String → Option Value → ToolPart
tool_part identity id arguments = record {
  name = identity.name;
  category = identity.category;
  tool_name = identity.tool_name;
  server_name = identity.server_name;
  tool_call_id = some id;
  state = some "output-available";
  input = arguments;
  args = none;
  id = none;
  output = none;
  result = none;
  background_output = none;
  duration_ms = none;
  error = none;
}

image_parts : Option String → Option String → List Part
image_parts (some bytes) (some mime) = image_part bytes mime ∷ []
image_parts _ _ = []

call_parts : Hydrator → Option String → Option String → Option Value → List Part
unfolding tool_part
call_parts h (some id) (some name) arguments = tool (tool_part (h.identify name) id arguments) ∷ []
call_parts h _ _ arguments = []

-- The parts of one block, which has this content index.
block_parts : Hydrator → ℕ → Block → List Part
unfolding image_parts call_parts
block_parts h i (Block.text (some t)) = text t ∷ []
block_parts h i (Block.thinking (some t)) = complete_reasoning i t ∷ []
block_parts h i (Block.image bytes mime) = image_parts (truthy? bytes) (truthy? mime)
block_parts h i (Block.tool_call id name arguments) =
    call_parts h (truthy? id) (truthy? name) arguments
block_parts h i _ = []

blocks_parts : Hydrator → ℕ → List Block → List Part
unfolding block_parts
blocks_parts h i [] = []
blocks_parts h i (b ∷ bs) = block_parts h i b ++ blocks_parts h (suc i) bs

content_parts : Hydrator → Content → List Part
unfolding blocks_parts
content_parts h (plain s) = text s ∷ []
content_parts h (blocks bs) = blocks_parts h 0 bs

abbrev stopped : Option String → String → Bool
stopped none s = false
stopped (some reason) s = reason == s

error_parts : AssistantMessage → Option String → List Part
error_parts m none = []
error_parts m (some message) =
    if stopped m.stop_reason "aborted"
    then error (some "Operation aborted") message ∷ []
    else if stopped m.stop_reason "error"
    then error (some "Assistant error") message ∷ []
    else []

-- `toChatMessageFromAssistant`
unfoldable pub to_chat_message_from_assistant : Hydrator → AssistantMessage → String → ChatMessage
unfolding content_parts error_parts
to_chat_message_from_assistant h m id = record {
  id = id;
  role = Role.assistant;
  parts = content_parts h m.content ++ error_parts m (truthy? m.error_message);
  created_at = m.timestamp;
  local = false;
  optimistic = false;
  attachments = none;
}

-- The index that stands for the runtime index of a part of the message.
unfoldable pub mapped_index : MapperState → ℕ → ℕ
mapped_index s i = get_or (NatMap.get i s.fleet_index) i

-- A reasoning part under its index, with what was streamed as its text.
restate : MapperState → Part → Part
unfolding mapped_index
restate s (reasoning part) =
    let index = mapped_index s part.content_index in
    complete_reasoning index (get_or (NatMap.get index s.reasoning_text) part.text)
restate s part = part

restate_all : MapperState → List Part → List Part
unfolding restate
restate_all s [] = []
restate_all s (part ∷ parts) = restate s part ∷ restate_all s parts

unfoldable pub has_index : ℕ → Part → Bool
has_index i (reasoning part) = nat_eq part.content_index i
has_index i _ = false

-- The text written into the first reasoning part of the index, or a part of its own behind the others.
put_text : ℕ → String → List Part → List Part
unfolding has_index
put_text i t [] = complete_reasoning i t ∷ []
put_text i t (part ∷ parts) =
    if has_index i part then complete_reasoning i t ∷ parts else part ∷ put_text i t parts

put_texts : NatMap String → List Part → List Part
unfolding put_text
put_texts [] parts = parts
put_texts ((i, t) ∷ rest) parts = put_texts rest (put_text i t parts)

-- `textFromAssistantMessage`: a content that is a text has no blocks.
blocks_text : List Block → String
blocks_text [] = ""
blocks_text (Block.text (some t) ∷ bs) = t <> blocks_text bs
blocks_text (Block.text none ∷ bs) = "undefined" <> blocks_text bs
blocks_text (_ ∷ bs) = blocks_text bs

unfoldable pub text_from : Content → String
unfolding blocks_text
text_from (plain s) = ""
text_from (blocks bs) = blocks_text bs

-- `appendFinalAssistantText`
unfoldable pub append_final_assistant_text : String → String → String
append_final_assistant_text current final =
    if final == "" || ends_with current final
    then current
    else if starts_with final current
    then final
    else current <> final

is_failed : Option ToolPart → Bool
is_failed none = false
is_failed (some part) = elim part.state [ none ↦ false | some state ↦ state == "output-error" ]

-- A failure that the end of the tool's execution has recorded stays.
settle : Option ToolPart → ToolPart → ToolPart
unfolding is_failed
settle settled part =
    if is_failed settled then record part { state = some "output-error" } else part

abbrev of_call : Option String → ToolPart → Bool
of_call none part = elim part.tool_call_id [ none ↦ true | some id ↦ false ]
of_call (some id) part = is_call id part

unfoldable pub keep_tool : MapperState → Part → MapperState
unfolding settle
keep_tool s (tool part) =
    let part' = settle (find (of_call part.tool_call_id) s.tool_parts) part in
    (upsert_current_tool_part s (record { part = part'; has_output = false; has_result = false })).0
keep_tool s _ = s

unfoldable pub keep_tools : MapperState → List Part → MapperState
unfolding keep_tool
keep_tools s [] = s
keep_tools s (part ∷ parts) = keep_tools (keep_tool s part) parts

unfoldable pub is_image : Part → Bool
is_image (image url mime alt) = true
is_image _ = false

unfoldable pub is_error : Part → Bool
is_error (error title message) = true
is_error _ = false

-- The message as the browser gets it.
unfoldable pub remembered_parts : Hydrator → MapperState → AssistantMessage → List Part
unfolding restate_all put_texts
remembered_parts h s m =
    put_texts s.reasoning_text
      (restate_all s (to_chat_message_from_assistant h m (get_or s.current_message_id "")).parts)

-- What the parts leave in the state.
unfoldable pub keep_parts : MapperState → String → List Part → MapperState
unfolding keep_tools is_image is_error
keep_parts s final parts =
    let s' =
      keep_tools (record s { current_text = append_final_assistant_text s.current_text final })
        parts in
    record s' { images = filter is_image parts; errors = filter is_error parts }

-- `rememberAssistantMessage`
unfoldable pub remember_assistant_message :
    Hydrator → MapperState → AssistantMessage → MapperState × ChatMessage
remember_assistant_message h s m =
    let named = name_message (record s { assistant_message = some m }) in
    let parts = remembered_parts h named m in
    let chat = to_chat_message_from_assistant h m (get_or named.current_message_id "") in
    (keep_parts named (text_from m.content) parts, record chat { parts = parts })
