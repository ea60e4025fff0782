-- ===== src/Chat.antt =====
-- The transcript that the browser keeps: the types of web/protocol/src/chat-types.ts and of the stream
-- events in web/protocol/src/chat-protocol.ts, as the reducer of
-- web/app/src/components/chat/chat-stream-state.ts reads them. What it only passes on is a JSON value.
pub mod Parts
pub mod Reasoning
pub mod Merge
pub mod InFlight
pub mod Stream
mod Tests
use fleet_prime_agent.Prelude.{ℕ, String, Bool, true, false, List, Option}
use fleet_prime_agent.Prelude.Json.{Value}

pub data ReasoningState : Type 0 where
  streaming complete : ReasoningState

pub record ReasoningPart : Type 0 where
  pub content_index : ℕ
  pub text : String
  pub state : ReasoningState
  pub duration_ms : Option ℕ

pub record PayloadPart : Type 0 where
  pub id : Option String
  pub kind : String
  pub title : String
  pub text : Option String
  pub payload : Option Value

-- The type of a tool part is `tool-` followed by its name.
pub record ToolPart : Type 0 where
  pub name : String
  pub category : Option String
  pub tool_name : Option String
  pub server_name : Option String
  pub tool_call_id : Option String
  pub state : Option String
  pub input : Option Value
  pub args : Option Value
  pub id : Option String
  pub output : Option Value
  pub result : Option Value
  pub background_output : Option String
  pub duration_ms : Option ℕ
  pub error : Option Value

pub data Part : Type 0 where
  text : String → Part
  reasoning : ReasoningPart → Part
  error : Option String → String → Part
  image : String → Option String → Option String → Part
  payload : PayloadPart → Part
  tool : ToolPart → Part

pub data Role : Type 0 where
  user assistant : Role

-- `optimistic` is set where the field is `true`, and `local` where `source` is `"local"`.
pub record ChatMessage : Type 0 where
  pub id : String
  pub role : Role
  pub parts : List Part
  pub created_at : Option ℕ
  pub local : Bool
  pub optimistic : Bool
  pub attachments : Option Value

pub record RlmChild : Type 0 where
  pub id : String
  pub timestamp : ℕ
  pub details : Value

pub record SessionPresentation : Type 0 where
  pub revision : ℕ
  pub rlm_children : List RlmChild
  pub rlm_tree : Option Value
  pub details : Value

-- `json` is the whole presentation, as it is passed on.
pub record ReasoningPresentation : Type 0 where
  pub streaming : Bool
  pub json : Value

pub record Capabilities : Type 0 where
  pub protocol_version : ℕ
  pub schema_revision : ℕ
  pub features : List String

-- `projectId` may be `null`, which the reducer reads as an absent one.
pub record SessionMetadata : Type 0 where
  pub session_id : Option String
  pub project_id : Option String
  pub open_ui : Option Bool

pub record QueueState : Type 0 where
  pub steering : List String
  pub follow_up : List String

pub record Snapshot : Type 0 where
  pub adapter_capabilities : Option Capabilities
  pub activity_label : Option String
  pub messages : List ChatMessage
  pub plan_label : Option String
  pub presentation : Option SessionPresentation
  pub queue : QueueState
  pub session_metadata : SessionMetadata

pub record Transition : Type 0 where
  pub assistant_id : Option String
  pub snapshot : Snapshot

pub data Phase : Type 0 where
  starts delta ends : Phase

pub record ReasoningText : Type 0 where
  pub phase : Phase
  pub content_index : ℕ
  pub text : String
  pub duration_ms : Option ℕ

pub record Start : Type 0 where
  pub id : String
  pub session_id : String
  pub session_reset : Bool
  pub diagnostics : Option (List String)
  pub adapter_capabilities : Option Capabilities

pub record Done : Type 0 where
  pub message : ChatMessage
  pub session_id : String
  pub session_reset : Bool
  pub presentation : Option SessionPresentation

-- The frames of the stream, with the fields that the reducer reads. The `Option String` behind a
-- delta, a tool, a payload and the reasoning frames is `messageId`.
pub data Event : Type 0 where
  session_snapshot : SessionMetadata → List ChatMessage → SessionPresentation → Event
  presentation : SessionPresentation → Event
  rlm : RlmChild → Option Value → Event
  message : ChatMessage → Event
  start : Start → Event
  thinking : Event
  delta_text : String → Option String → Event
  reasoning_text : ReasoningText → Option String → Event
  reasoning_summary : ReasoningPresentation → Option String → Event
  tool_part : ToolPart → Option String → Event
  payload_part : PayloadPart → Option String → Event
  failure : Event
  queue : List String → List String → Event
  plan : Option String → Event
  state : String → Event
  compaction_start compaction_end : Event
  retry_start : ℕ → ℕ → Event
  retry_end : Bool → Event
  done : Done → Event
