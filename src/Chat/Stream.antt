-- ===== src/Chat/Stream.antt =====
-- web/app/src/components/chat/chat-stream-state.ts: the reducer that applies one stream event to the
-- transcript. `now` is what `Date.now` reads when the event makes a message.
pub mod Revisions
pub mod Thinking
pub mod Users
pub mod Finals
pub mod Echo
use fleet_prime_agent.Prelude.{
  ℕ, suc, ◌+◌, String, Bool, true, false, not, ◌&&◌, ◌||◌, List, [], ◌∷◌, ◌++◌, map, Option, none,
  some, ltb, nat_eq, ◌==◌, if◌then◌else◌, or_else, get_or, is_some, filter, any, find, find_index,
  get_elem?, modify,
}
use fleet_prime_agent.Prelude.Text.{◌<>◌, is_blank, trim, or_undefined, truthy?, decimal}
use fleet_prime_agent.Prelude.Json.{Value}
use fleet_prime_agent.Chat.{
  Part, text, Role, user, assistant, ChatMessage, RlmChild, SessionPresentation, Capabilities,
  SessionMetadata, QueueState, Snapshot, Transition, Start, Done, Event, session_snapshot,
  presentation, rlm, message, start, thinking, delta_text, reasoning_text, reasoning_summary,
  tool_part, payload_part, failure, queue, plan, state, compaction_start, compaction_end,
  retry_start, retry_end, done,
}
use fleet_prime_agent.Chat.Parts.{
  create_text_message, append_assistant_delta, upsert_assistant_tool_part,
  upsert_assistant_payload_part, upsert_assistant_reasoning_presentation,
  strip_legacy_thinking_parts,
}
use fleet_prime_agent.Chat.Reasoning.{apply_assistant_reasoning_text}
use fleet_prime_agent.Chat.InFlight.{
  merge_session_metadata, is_assistant, is_user, has_id, is_assistant_with, with_messages,
  reconcile_assistant_id, carry_forward, replace_or_append_in_flight,
}

abbrev pub empty_queue_state : QueueState
empty_queue_state = record { steering = []; follow_up = [] }

-- `presentation?.revision ?? -1`, counted from 0: no presentation is before every revision.
abbrev pub revision_of : Option SessionPresentation → ℕ
revision_of none = 0
revision_of (some p) = p.revision + 1

apply_presentation : Transition → SessionPresentation → Transition
apply_presentation t p =
    if ltb (revision_of t.snapshot.presentation) (p.revision + 1)
    then record t { snapshot = record (t.snapshot) { presentation = some p } }
    else t

abbrev is_newer : Option RlmChild → RlmChild → Bool
is_newer none child = false
is_newer (some old) child = ltb child.timestamp old.timestamp

apply_rlm_to : Transition → Option SessionPresentation → RlmChild → Option Value → Transition
apply_rlm_to t none child tree = t
apply_rlm_to t (some p) child tree =
    if is_newer (find (λ c. c.id == child.id) p.rlm_children) child then t else record t {
      snapshot = record (t.snapshot) {
        presentation = some (record p {
          rlm_children = filter (λ c. not (c.id == child.id)) p.rlm_children ++ child ∷ [];
          rlm_tree = or_else tree p.rlm_tree;
        });
      };
    }

-- The message at an index, replaced by the event's one under the id that the transcript shows.
adopt : ChatMessage → ChatMessage → ChatMessage
adopt next current = record next { id = current.id }

user_at : List ChatMessage → ChatMessage → Option ℕ → List ChatMessage
unfolding adopt
user_at messages next none = messages ++ next ∷ []
user_at messages next (some i) = modify i (adopt next) messages

apply_user_message : List ChatMessage → ChatMessage → List ChatMessage
unfolding user_at
apply_user_message messages next = user_at messages next (
    or_else (find_index (has_id next.id) messages)
      (find_index (λ m. is_user m && m.optimistic) messages))

apply_assistant_message : Transition → ChatMessage → Transition
unfolding replace_or_append_in_flight
apply_assistant_message t next = record t {
  snapshot =
      with_messages t.snapshot
        (replace_or_append_in_flight t.snapshot.messages next t.assistant_id);
}

apply_message_as : Role → Transition → ChatMessage → ℕ → Transition
unfolding apply_user_message apply_assistant_message
apply_message_as user t next now = record t {
  snapshot = with_messages t.snapshot (apply_user_message t.snapshot.messages next);
}
apply_message_as assistant t next now =
    apply_assistant_message (reconcile_assistant_id t (some next.id) now) next

apply_message : Transition → ChatMessage → ℕ → Transition
unfolding apply_message_as
apply_message t next now = apply_message_as next.role t next now

abbrev first_of_list : Option (List String) → Option String
first_of_list (some (d ∷ ds)) = some d
first_of_list _ = none

apply_start : Transition → Start → ℕ → Transition
unfolding merge_session_metadata
apply_start t e now = record {
  assistant_id = some e.id;
  snapshot = record (t.snapshot) {
    adapter_capabilities = e.adapter_capabilities;
    activity_label =
        if e.session_reset then some "Started a fresh Pi session" else first_of_list e.diagnostics;
    messages =
        if any (is_assistant_with e.id) t.snapshot.messages
        then t.snapshot.messages
        else t.snapshot.messages ++ create_text_message assistant "" e.id now ∷ [];
    session_metadata = merge_session_metadata t.snapshot.session_metadata e.session_id;
  };
}

-- A frame with content: the bubble is reconciled, and if there is one its messages change.
content_to : Transition → Option String → (String → Snapshot → List ChatMessage) → Transition
content_to t none change = t
content_to t (some id) change = record t {
  snapshot = with_messages t.snapshot (change id t.snapshot);
}

content : Transition → Option String → ℕ → (String → Snapshot → List ChatMessage) → Transition
unfolding content_to reconcile_assistant_id
content t message_id now change =
    let reconciled : Transition = reconcile_assistant_id t message_id now in
    content_to reconciled (truthy? reconciled.assistant_id) change

abbrev has_reasoning_summary : Option Capabilities → Bool
has_reasoning_summary none = false
has_reasoning_summary (some c) = any (λ f. f == "reasoning-summary-v1") c.features

-- `labelForState` of web/app/src/components/chat/chat-fetch.ts
pub label_for_state : String → Option String
label_for_state name =
    if name == "agent_start"
    then some "Working"
    else if name == "turn_start"
    then some "Waiting"
    else if name == "message_start"
    then some "Thinking"
    else if name == "message_end"
    then some "Writing"
    else if name == "tool_start" || name == "tool_execution_start" || name == "tool_execution"
    then some "Executing"
    else if name == "tool_end" || name == "tool_execution_end"
    then some "Writing"
    else if name == "turn_end"
    then some "Turn finished"
    else none

abbrev with_activity : Transition → Option String → Transition
with_activity t label = record t { snapshot = record (t.snapshot) { activity_label = label } }

-- `event.presentation && event.presentation.revision > … ? event.presentation : snapshot.presentation`
abbrev pub newer_presentation :
    Option SessionPresentation → Option SessionPresentation → Option SessionPresentation
newer_presentation none current = current
newer_presentation (some p) current =
    if ltb (revision_of current) (p.revision + 1) then some p else current

-- The transition of a `done` frame whose message has been completed.
settle_turn : Transition → Done → ChatMessage → Transition
unfolding merge_session_metadata
settle_turn t e completed = record {
  assistant_id = none;
  snapshot = record (t.snapshot) {
    activity_label = none;
    messages =
        map strip_legacy_thinking_parts
          (replace_or_append_in_flight t.snapshot.messages completed t.assistant_id);
    queue = empty_queue_state;
    presentation = newer_presentation e.presentation t.snapshot.presentation;
    session_metadata = merge_session_metadata t.snapshot.session_metadata e.session_id;
  };
}

apply_done : Transition → Done → Transition
unfolding settle_turn
apply_done t e =
    if e.session_reset
    then t
    else settle_turn t e
        (carry_forward t.snapshot.messages (strip_legacy_thinking_parts e.message) t.assistant_id)

-- `applyChatStreamEvent`
pub apply_chat_stream_event : Transition → Event → ℕ → Transition
unfolding apply_presentation apply_rlm_to apply_message apply_start content label_for_state
    apply_done
apply_chat_stream_event t (session_snapshot session messages p) now = record {
  assistant_id = none;
  snapshot = record (t.snapshot) {
    activity_label = none;
    messages = messages;
    plan_label = none;
    presentation = some p;
    queue = empty_queue_state;
    session_metadata = session;
  };
}
apply_chat_stream_event t (presentation p) now = apply_presentation t p
apply_chat_stream_event t (rlm child tree) now = apply_rlm_to t t.snapshot.presentation child tree
apply_chat_stream_event t (message next) now = apply_message t next now
apply_chat_stream_event t (start e) now = apply_start t e now
apply_chat_stream_event t thinking now = t
apply_chat_stream_event t (delta_text added id) now =
    content t id now (λ bubble_id s. append_assistant_delta s.messages bubble_id added)
apply_chat_stream_event t (reasoning_text e id) now =
    content t id now (λ bubble_id s. apply_assistant_reasoning_text s.messages bubble_id e)
apply_chat_stream_event t (reasoning_summary p id) now = content t id now (λ bubble_id s.
    if has_reasoning_summary s.adapter_capabilities
    then upsert_assistant_reasoning_presentation s.messages bubble_id p
    else s.messages)
apply_chat_stream_event t (tool_part part id) now =
    content t id now (λ bubble_id s. upsert_assistant_tool_part s.messages bubble_id part)
apply_chat_stream_event t (payload_part part id) now =
    content t id now (λ bubble_id s. upsert_assistant_payload_part s.messages bubble_id part)
apply_chat_stream_event t failure now = t
apply_chat_stream_event t (queue steering follow_up) now = record t {
  snapshot = record (t.snapshot) { queue = record { steering = steering; follow_up = follow_up } };
}
apply_chat_stream_event t (plan label) now = record t {
  snapshot = record (t.snapshot) { plan_label = label };
}
apply_chat_stream_event t (state name) now = with_activity t (label_for_state name)
apply_chat_stream_event t compaction_start now = with_activity t (some "Compacting session")
apply_chat_stream_event t compaction_end now = with_activity t (some "Compaction finished")
apply_chat_stream_event t (retry_start attempt max_attempts) now =
    with_activity t (some ("Retrying request " <> decimal attempt <> "/" <> decimal max_attempts))
apply_chat_stream_event t (retry_end success) now =
    with_activity t (some (if success then "Retry succeeded" else "Retry failed"))
apply_chat_stream_event t (done e) now = apply_done t e

-- The events of a stream, in order.
pub apply_all : Transition → List (Event × ℕ) → Transition
apply_all t [] = t
apply_all t ((event, now) ∷ events) = apply_all (apply_chat_stream_event t event now) events
