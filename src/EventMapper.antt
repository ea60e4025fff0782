-- ===== src/EventMapper.antt =====
-- web/server/src/event-mapper.ts: the state of a session's mapper, and the agent events that it turns
-- into frames of the stream. A frame is a Chat.Event, which the browser's reducer reads. The helpers of
-- web/server/src/transcript-hydrator.ts that name a tool and word an error are a Hydrator.
pub mod Episodes
pub mod ToolResults
pub mod Tools
pub mod Remember
pub mod Finalize
pub mod Stream
pub mod Core
pub mod Lives
pub mod Rlm
mod Tests
use fleet_prime_agent.Prelude.{ℕ, String, Bool, false, List, [], Option, none}
use fleet_prime_agent.Prelude.Dict.{Dict}
use fleet_prime_agent.Prelude.Json.{Value}
use fleet_prime_agent.Prelude.NatMap.{NatMap}
use fleet_prime_agent.Chat.{ChatMessage, Part, ToolPart}

-- A block of an assistant message's content, by its `type`. A field that is absent is `none`.
pub data Block : Type 0 where
  text : Option String → Block
  thinking : Option String → Block
  image : Option String → Option String → Block
  tool_call : Option String → Option String → Option Value → Block
  other : Block

pub data Content : Type 0 where
  plain : String → Content
  blocks : List Block → Content

pub record AssistantMessage : Type 0 where
  pub content : Content
  pub error_message : Option String
  pub stop_reason : Option String
  pub timestamp : Option ℕ

-- A block of a user message's content.
pub data UserBlock : Type 0 where
  bare : String → UserBlock
  text : Option String → UserBlock
  image : Option String → Option String → UserBlock
  other : UserBlock

pub data UserContent : Type 0 where
  plain : String → UserContent
  blocks : List UserBlock → UserContent

-- A message of the run, by its role: `runtime` is any other role than those named.
pub data AgentMessage : Type 0 where
  assistant : AssistantMessage → AgentMessage
  user : UserContent → Option ℕ → AgentMessage
  tool_result : AgentMessage
  runtime : Value → AgentMessage

-- `AssistantMessageEvent`. `contentIndex` and `partial.content` are there or not.
pub data StreamEvent : Type 0 where
  start : StreamEvent
  text_delta : String → StreamEvent
  thinking_start : Option ℕ → Option (List Block) → StreamEvent
  thinking_delta : Option ℕ → Option (List Block) → String → StreamEvent
  thinking_end : Option ℕ → Option (List Block) → Option String → StreamEvent
  text_start toolcall_start : StreamEvent
  done : AssistantMessage → StreamEvent
  ignored : StreamEvent

-- `AgentEvent`. A start of a run brings the new run's id.
pub data AgentEvent : Type 0 where
  agent_start : String → AgentEvent
  agent_end : List AgentMessage → AgentEvent
  turn_start turn_end : AgentEvent
  message_start : AgentMessage → AgentEvent
  message_update : AgentMessage → Option StreamEvent → AgentEvent
  message_end : AgentMessage → AgentEvent
  tool_execution_start : String → Option String → Option Value → AgentEvent
  tool_execution_update : String → Option String → Option Value → Option Value → AgentEvent
  tool_execution_end : String → Option String → Option Value → Option Value → AgentEvent

pub record ToolCallStart : Type 0 where
  pub tool_name : String
  pub args : Option Value

-- `ChatReasoningPresentation["phase"]`
pub data Phase : Type 0 where
  waiting context planning executing responding recovering complete error : Phase

pub record Step : Type 0 where
  pub id : String
  pub title : String
  pub body : String

-- What the mapper takes from the hydrator: the type, category, name and server of a tool by its raw
-- name, the envelope of an error text, and the parts of a message of the runtime under an id.
pub record Identity : Type 0 where
  pub name : String
  pub category : Option String
  pub tool_name : Option String
  pub server_name : Option String

pub record Hydrator : Type 0 where
  pub identify : String → Identity
  pub error_envelope : String → Value
  pub runtime_parts : Value → String → Option (List Part)

-- The fields of `EventMapperState` that the events of the agent loop read or write.
pub record MapperState : Type 0 where
  pub run_id : String
  pub session_id : String
  pub message_seq : ℕ
  pub current_message_id : Option String
  pub current_text : String
  pub reasoning_text : NatMap String
  pub claimed : List ℕ
  pub episode_seq : ℕ
  pub active : NatMap ℕ
  pub fleet_index : NatMap ℕ
  pub assistant_message : Option AssistantMessage
  pub images : List Part
  pub errors : List Part
  pub started_at : Option ℕ
  pub steps : List Step
  pub phase : Option Phase
  pub tool_parts : List ToolPart
  pub tool_names : Dict String
  pub tool_call_starts : Dict ToolCallStart
  pub user_messages : List ChatMessage
  pub in_run : Bool

-- `createEventMapperState`
unfoldable pub create_event_mapper_state : String → MapperState
create_event_mapper_state session_id = record {
  run_id = "";
  session_id = session_id;
  message_seq = 0;
  current_message_id = none;
  current_text = "";
  reasoning_text = [];
  claimed = [];
  episode_seq = 0;
  active = [];
  fleet_index = [];
  assistant_message = none;
  images = [];
  errors = [];
  started_at = none;
  steps = [];
  phase = none;
  tool_parts = [];
  tool_names = [];
  tool_call_starts = [];
  user_messages = [];
  in_run = false;
}
