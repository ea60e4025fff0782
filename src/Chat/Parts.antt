-- ===== src/Chat/Parts.antt =====
-- web/app/src/components/chat/chat-message-helpers.ts: how one streamed part changes the parts of a
-- message, and a message the transcript. The time that `Date.now` reads is an argument.
pub mod Upsert
pub mod Delta
pub mod Legacy
use fleet_prime_agent.Prelude.{
  ℕ, suc, String, Bool, true, false, not, ◌&&◌, ◌||◌, List, [], ◌∷◌, ◌++◌, map, Option, none, some,
  nat_eq, ◌==◌, if◌then◌else◌, or_else, length, get_elem?, filter, modify, find_index, insert_at,
  raise,
}
use fleet_prime_agent.Prelude.Text.{◌<>◌, truthy, truthy?}
use fleet_prime_agent.Prelude.Json.{Value}
use fleet_prime_agent.Chat.{
  Part, text, reasoning, error, image, payload, tool, ReasoningPart, PayloadPart, ToolPart,
  ReasoningState, streaming, complete, Role, user, assistant, ChatMessage, ReasoningText, Phase,
  starts, delta, ends, ReasoningPresentation,
}

abbrev pub same_text? : Option String → Option String → Bool
same_text? none none = true
same_text? (some a) (some b) = a == b
same_text? _ _ = false

abbrev pub is_text_part : Part → Bool
is_text_part (text t) = true
is_text_part _ = false

-- `createTextMessage`
unfoldable pub create_text_message : Role → String → String → ℕ → ChatMessage
create_text_message role t id now = record {
  id = id;
  role = role;
  parts = text t ∷ [];
  created_at = some now;
  local = false;
  optimistic = false;
  attachments = none;
}

-- `{ type: "text", text: part.text + delta }` at a text part
pub add_text : String → Part → Part
add_text added (text t) = text (t <> added)
add_text added part = part

append_at : Option ℕ → List Part → String → List Part
unfolding add_text
append_at none parts added = parts ++ text added ∷ []
append_at (some i) parts added = modify i (add_text added) parts

-- `appendTextPart`
pub append_text_part : List Part → String → List Part
unfolding append_at
append_text_part parts added = append_at (find_index is_text_part parts) parts added

-- `{ ...existing, ...part }`: what the new part carries wins.
pub merge_tool : ToolPart → ToolPart → ToolPart
merge_tool part existing = record {
  name = part.name;
  category = or_else part.category existing.category;
  tool_name = or_else part.tool_name existing.tool_name;
  server_name = or_else part.server_name existing.server_name;
  tool_call_id = or_else part.tool_call_id existing.tool_call_id;
  state = or_else part.state existing.state;
  input = or_else part.input existing.input;
  args = or_else part.args existing.args;
  id = or_else part.id existing.id;
  output = or_else part.output existing.output;
  result = or_else part.result existing.result;
  background_output = or_else part.background_output existing.background_output;
  duration_ms = or_else part.duration_ms existing.duration_ms;
  error = or_else part.error existing.error;
}

pub is_same_tool : ToolPart → Part → Bool
is_same_tool part (tool current) =
    same_text? current.tool_call_id part.tool_call_id && current.name == part.name
is_same_tool part _ = false

pub replace_tool : ToolPart → Part → Part
unfolding merge_tool
replace_tool part (tool existing) = tool (merge_tool part existing)
replace_tool part _ = tool part

insert_tool : Option ℕ → List Part → ToolPart → List Part
insert_tool none parts part = parts ++ tool part ∷ []
insert_tool (some i) parts part = insert_at i (tool part) parts

put_tool : Option ℕ → List Part → ToolPart → List Part
unfolding insert_tool replace_tool
put_tool none parts part = insert_tool (find_index is_text_part parts) parts part
put_tool (some i) parts part = modify i (replace_tool part) parts

-- `upsertToolPart`
pub upsert_tool_part : List Part → ToolPart → List Part
unfolding put_tool is_same_tool
upsert_tool_part parts part = put_tool (find_index (is_same_tool part) parts) parts part

-- The condition of `upsertPayloadPart` and of `payloadPartsMatch`: the ids where both are set, else
-- the kind and the title.
match_by : PayloadPart → PayloadPart → Option String → Option String → Bool
match_by left right (some a) (some b) = a == b
match_by left right _ _ = left.kind == right.kind && left.title == right.title

pub payloads_match : PayloadPart → PayloadPart → Bool
unfolding match_by
payloads_match left right = match_by left right (truthy? left.id) (truthy? right.id)

pub is_same_payload : PayloadPart → Part → Bool
unfolding payloads_match
is_same_payload part (payload current) = payloads_match current part
is_same_payload part _ = false

pub merge_payload : PayloadPart → PayloadPart → PayloadPart
merge_payload part existing = record {
  id = or_else part.id existing.id;
  kind = part.kind;
  title = part.title;
  text = or_else part.text existing.text;
  payload = or_else part.payload existing.payload;
}

pub replace_payload : PayloadPart → Part → Part
unfolding merge_payload
replace_payload part (payload existing) = payload (merge_payload part existing)
replace_payload part _ = payload part

put_payload : Option ℕ → List Part → PayloadPart → List Part
unfolding replace_payload
put_payload none parts part = parts ++ payload part ∷ []
put_payload (some i) parts part = modify i (replace_payload part) parts

-- `upsertPayloadPart`
pub upsert_payload_part : List Part → PayloadPart → List Part
unfolding put_payload is_same_payload
upsert_payload_part parts part = put_payload (find_index (is_same_payload part) parts) parts part

-- `createFleetReasoningPart`
unfoldable pub create_fleet_reasoning_part : String → ReasoningPresentation → ToolPart
create_fleet_reasoning_part message_id presentation = record {
  name = "FleetReasoning";
  category = none;
  tool_name = none;
  server_name = none;
  tool_call_id = some (message_id <> "-reasoning");
  state = some (if presentation.streaming then "input-streaming" else "output-available");
  input = some presentation.json;
  args = none;
  id = none;
  output = none;
  result = none;
  background_output = none;
  duration_ms = none;
  error = none;
}

-- The messages with the given id, changed by a function of their parts.
unfoldable pub update_parts : (List Part → List Part) → String → List ChatMessage → List ChatMessage
update_parts f id = map λ m. if m.id == id then record m { parts = f m.parts } else m

unfoldable pub append_assistant_delta : List ChatMessage → String → String → List ChatMessage
unfolding update_parts
append_assistant_delta messages id added =
    update_parts (λ parts. append_text_part parts added) id messages

unfoldable pub upsert_assistant_tool_part : List ChatMessage → String → ToolPart → List ChatMessage
unfolding update_parts
upsert_assistant_tool_part messages id part =
    update_parts (λ parts. upsert_tool_part parts part) id messages

unfoldable pub upsert_assistant_payload_part :
    List ChatMessage → String → PayloadPart → List ChatMessage
unfolding update_parts
upsert_assistant_payload_part messages id part =
    update_parts (λ parts. upsert_payload_part parts part) id messages

unfoldable pub upsert_assistant_reasoning_presentation :
    List ChatMessage → String → ReasoningPresentation → List ChatMessage
unfolding upsert_assistant_tool_part create_fleet_reasoning_part
upsert_assistant_reasoning_presentation messages id presentation =
    upsert_assistant_tool_part messages id (create_fleet_reasoning_part id presentation)

-- `stripLegacyThinkingParts`; where nothing is removed the message is returned as it is.
pub is_legacy_thinking : Part → Bool
is_legacy_thinking (tool t) = t.name == "Thinking"
is_legacy_thinking _ = false

unfoldable pub strip_as : Role → ChatMessage → ChatMessage
unfolding is_legacy_thinking
strip_as user message = message
strip_as assistant message = record message {
  parts = filter (λ part. not (is_legacy_thinking part)) message.parts;
}

unfoldable pub strip_legacy_thinking_parts : ChatMessage → ChatMessage
unfolding strip_as
strip_legacy_thinking_parts message = strip_as message.role message
