-- ===== src/EventMapper/Core.antt =====
-- web/server/src/event-mapper.ts: the frames of an event of the agent loop (mapCoreAgentEvent), and the
-- state that a new run starts from (resetRun).
use fleet_prime_agent.Prelude.{
  ℕ, suc, String, Bool, true, false, List, [], ◌∷◌, ◌++◌, Option, none, some, or_else, get_or,
  if◌then◌else◌, length, any,
}
use fleet_prime_agent.Prelude.Text.{◌<>◌, decimal, truthy?}
use fleet_prime_agent.Prelude.Json.{Value}
use fleet_prime_agent.Chat
use fleet_prime_agent.Chat.{Event, Part, PayloadPart, ChatMessage, Role}
use fleet_prime_agent.EventMapper.{
  MapperState, Phase, AssistantMessage, AgentMessage, AgentEvent, StreamEvent, Hydrator, UserBlock,
  UserContent,
}
use fleet_prime_agent.EventMapper.Episodes.{name_message, close_active_reasoning_episodes}
use fleet_prime_agent.EventMapper.Tools.{on_execution_start, on_execution_update, on_execution_end}
use fleet_prime_agent.EventMapper.Remember.{
  remember_assistant_message, image_part, is_image, is_error,
}
use fleet_prime_agent.EventMapper.Finalize.{finalize_assistant_message}
use fleet_prime_agent.EventMapper.Stream.{reasoning_frame, map_assistant_stream_event}

-- `resetRun`, with the id of the new run
unfoldable pub reset_run : MapperState → String → MapperState
reset_run s run_id = record s {
  run_id = run_id;
  message_seq = 0;
  current_message_id = none;
  current_text = "";
  reasoning_text = [];
  claimed = [];
  episode_seq = 0;
  active = [];
  fleet_index = [];
  assistant_message = none;
  images = [];
  errors = [];
  started_at = none;
  steps = [];
  phase = none;
  tool_parts = [];
  tool_names = [];
  tool_call_starts = [];
  user_messages = [];
  in_run = true;
}

user_block_parts : UserBlock → List Part
user_block_parts (UserBlock.bare s) = Part.text s ∷ []
user_block_parts (UserBlock.text (some s)) = Part.text s ∷ []
user_block_parts (UserBlock.image (some bytes) (some mime)) = image_part bytes mime ∷ []
user_block_parts _ = []

user_blocks_parts : List UserBlock → List Part
unfolding user_block_parts
user_blocks_parts [] = []
user_blocks_parts (b ∷ bs) = user_block_parts b ++ user_blocks_parts bs

-- `contentToChatParts`
content_to_chat_parts : UserContent → List Part
unfolding user_blocks_parts
content_to_chat_parts (UserContent.plain s) = Part.text s ∷ []
content_to_chat_parts (UserContent.blocks bs) = user_blocks_parts bs

-- `toChatMessageFromUser`
to_chat_message_from_user : UserContent → Option ℕ → String → ChatMessage
unfolding content_to_chat_parts
to_chat_message_from_user content timestamp id = record {
  id = id;
  role = Role.user;
  parts = content_to_chat_parts content;
  created_at = timestamp;
  local = false;
  optimistic = false;
  attachments = none;
}

pub last_assistant : List AgentMessage → Option AssistantMessage → Option AssistantMessage
last_assistant [] found = found
last_assistant (AgentMessage.assistant m ∷ rest) found = last_assistant rest (some m)
last_assistant (_ ∷ rest) found = last_assistant rest found

join_lines : Option String → String → String
join_lines none t = t
join_lines (some before) t = before <> "\n" <> t

-- `textFromChatParts`: the text parts, a line each, behind the lines before.
chat_text : Option String → List Part → String
unfolding join_lines
chat_text before [] = get_or before ""
chat_text before (Part.text t ∷ rest) = chat_text (some (join_lines before t)) rest
chat_text before (_ ∷ rest) = chat_text before rest

-- A payload part without a text gets that of the message.
with_text : String → PayloadPart → PayloadPart
with_text content part = record part {
  text = or_else (truthy? part.text) (or_else (truthy? (some content)) part.text);
}

unfoldable pub payload_frames_of : Option String → String → List Part → List Event
unfolding with_text
payload_frames_of id content [] = []
payload_frames_of id content (Part.payload part ∷ rest) =
    Event.payload_part (with_text content part) id ∷ payload_frames_of id content rest
payload_frames_of id content (_ ∷ rest) = payload_frames_of id content rest

unfoldable pub frames_of_parts : Option String → Option (List Part) → List Event
unfolding payload_frames_of chat_text
frames_of_parts id none = []
frames_of_parts id (some parts) = payload_frames_of id (chat_text none parts) parts

-- The payload frames of the run's messages, from the one at this index on.
unfoldable pub payload_frames : Hydrator → MapperState → ℕ → List AgentMessage → List Event
payload_frames h s i [] = []
payload_frames h s i (AgentMessage.runtime value ∷ rest) =
    frames_of_parts (truthy? s.current_message_id)
      (h.runtime_parts value (s.run_id <> "-runtime-" <> decimal i))
    ++ payload_frames h s (suc i) rest
payload_frames h s i (_ ∷ rest) = payload_frames h s (suc i) rest

unfoldable pub remember_last : Hydrator → Option AssistantMessage → MapperState → MapperState
remember_last h none s = s
remember_last h (some message) s = (remember_assistant_message h s message).0

unfoldable pub on_agent_start : MapperState → String → ℕ → MapperState × List Event
unfolding reset_run
on_agent_start s run_id now =
    let (s', phase) = reasoning_frame (reset_run s run_id) Phase.waiting true now in
    (s', Event.state "agent_start" ∷ phase ∷ [])

-- The run is over: no call is under way.
unfoldable pub end_run : MapperState → MapperState
end_run s = record s { tool_call_starts = []; in_run = false }

unfoldable pub on_agent_end :
    Hydrator → MapperState → List AgentMessage → ℕ → MapperState × List Event
on_agent_end h s messages now =
    let remembered = remember_last h (last_assistant messages none) s in
    let (finalized, message) = finalize_assistant_message remembered in
    let (s', phase) = reasoning_frame (end_run finalized) Phase.complete false now in
    (
      s',
      payload_frames h remembered 0 messages
          ++ phase
            ∷ Event.state "agent_settled"
            ∷ Event.done (record {
              message = message;
              session_id = s'.session_id;
              session_reset = false;
              presentation = none;
            })
            ∷ [],
    )

unfoldable pub on_message_start : MapperState → AgentMessage → MapperState × List Event
unfolding to_chat_message_from_user
on_message_start s (AgentMessage.user content timestamp) =
    let id = s.run_id <> "-u" <> decimal (length s.user_messages) in
    let message = to_chat_message_from_user content timestamp id in
    (record s { user_messages = s.user_messages ++ message ∷ [] }, Event.message message ∷ [])
on_message_start s (AgentMessage.assistant m) =
    (name_message (record s { assistant_message = some m }), [])
on_message_start s _ = (s, [])

-- An update with no event of the stream is a whole message.
unfoldable pub on_message_update :
    Hydrator → MapperState → AgentMessage → Option StreamEvent → ℕ → MapperState × List Event
on_message_update h s (AgentMessage.assistant m) none now =
    ((remember_assistant_message h (record s { assistant_message = some m }) m).0, [])
on_message_update h s (AgentMessage.assistant m) (some event) now =
    map_assistant_stream_event h (record s { assistant_message = some m }) event now
on_message_update h s _ event now = (s, [])

pub is_notable : Part → Bool
unfolding is_image is_error
is_notable part = if is_image part then true else is_error part

unfoldable pub on_message_end : Hydrator → MapperState → AgentMessage → MapperState × List Event
unfolding is_notable
on_message_end h s (AgentMessage.assistant m) =
    let (s', message) = remember_assistant_message h s m in
    (s', if any is_notable message.parts then Event.message message ∷ [] else [])
on_message_end h s _ = (s, [])

unfoldable pub on_tool_start :
    Hydrator → MapperState → String → Option String → Option Value → ℕ → MapperState × List Event
on_tool_start h s id name args now =
    let (s₁, closed) = close_active_reasoning_episodes s in
    let (s₂, part) = on_execution_start h s₁ id name args in
    let (s₃, phase) = reasoning_frame s₂ Phase.executing true now in
    (s₃, closed ++ phase ∷ Event.tool_part part s₃.current_message_id ∷ [])

unfoldable pub tool_frame : MapperState × Chat.ToolPart → MapperState × List Event
tool_frame (s, part) = (s, Event.tool_part part s.current_message_id ∷ [])

-- `mapCoreAgentEvent`
unfoldable pub map_core_agent_event :
    Hydrator → MapperState → AgentEvent → ℕ → MapperState × List Event
unfolding on_agent_start on_agent_end on_message_start on_message_update on_message_end
    on_tool_start tool_frame
map_core_agent_event h s (AgentEvent.agent_start run_id) now = on_agent_start s run_id now
map_core_agent_event h s (AgentEvent.agent_end messages) now = on_agent_end h s messages now
map_core_agent_event h s AgentEvent.turn_start now =
    let (s', phase) = reasoning_frame s Phase.context true now in
    (s', Event.state "turn_start" ∷ phase ∷ [])
map_core_agent_event h s AgentEvent.turn_end now = (s, Event.state "turn_end" ∷ [])
map_core_agent_event h s (AgentEvent.message_start message) now = on_message_start s message
map_core_agent_event h s (AgentEvent.message_update message event) now =
    on_message_update h s message event now
map_core_agent_event h s (AgentEvent.message_end message) now = on_message_end h s message
map_core_agent_event h s (AgentEvent.tool_execution_start id name args) now =
    on_tool_start h s id name args now
map_core_agent_event h s (AgentEvent.tool_execution_update id name args partial) now =
    tool_frame (on_execution_update h s id name args partial)
map_core_agent_event h s (AgentEvent.tool_execution_end id name is_error result) now =
    tool_frame (on_execution_end h s id name is_error result)

-- The frames of a session's events, each with the time it comes at.
unfoldable pub map_all : Hydrator → MapperState → List (AgentEvent × ℕ) → MapperState × List Event
map_all h s [] = (s, [])
map_all h s ((event, now) ∷ rest) =
    let (s', frames) = map_core_agent_event h s event now in
    let (t, more) = map_all h s' rest in (t, frames ++ more)
