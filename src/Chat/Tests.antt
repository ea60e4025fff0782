-- ===== src/Chat/Tests.antt =====
-- A turn in which the assistant thinks, runs a tool and answers.
use fleet_prime_agent.Prelude.{
  ℕ, ◌≤◌, ◌≡◌, refl, String, Bool, true, false, List, [], ◌∷◌, none, some, arith,
}
use fleet_prime_agent.Prelude.Json.{Value}
use fleet_prime_agent.Chat.{
  Part, text, reasoning, tool, payload, ReasoningPart, PayloadPart, ToolPart, streaming, user,
  assistant, ChatMessage, SessionPresentation, Transition, Done, ReasoningText, starts, Event,
  presentation, message, tool_part, done,
}
use fleet_prime_agent.Chat.Parts.{upsert_tool_part, upsert_payload_part}
use fleet_prime_agent.Chat.Parts.Upsert.{upsert_tool_part_idem, upsert_payload_part_idem}
use fleet_prime_agent.Chat.Parts.Delta.{Grows, append_all, joined, append_all-Grows}
use fleet_prime_agent.Chat.Reasoning.{reasoning_parts, is_streaming_at}
use fleet_prime_agent.Chat.Reasoning.Episodes.{live_episodes, reasoning_parts_one_live}
use fleet_prime_agent.Chat.Merge.Woven.{Woven}
use fleet_prime_agent.Chat.Stream.{apply_chat_stream_event, apply_all}
use fleet_prime_agent.Chat.Stream.Revisions.{shown, apply_all-shown_le}
use fleet_prime_agent.Chat.Stream.Users.{of_user, apply-of_user}
use fleet_prime_agent.Chat.Stream.Echo.{Echoed, apply-Echoed}

abbrev tool_named : String → String → ToolPart
tool_named name id = record {
  name = name;
  category = none;
  tool_name = none;
  server_name = none;
  tool_call_id = some id;
  state = some "output-available";
  input = none;
  args = none;
  id = none;
  output = none;
  result = none;
  background_output = none;
  duration_ms = none;
  error = none;
}

abbrev plan_part : PayloadPart
plan_part = record { id = none; kind = "plan"; title = "Plan"; text = some "First"; payload = none }

abbrev thought : ReasoningPart
thought = record { content_index = 0; text = "Look"; state = streaming; duration_ms = none }

abbrev streamed : List Part
streamed = reasoning thought ∷ tool (tool_named "Bash" "t1") ∷ payload plan_part ∷ text "Do" ∷ []

abbrev final : List Part
final = tool (tool_named "Bash" "t1") ∷ text "Done" ∷ []

abbrev said : String → Bool → String → ChatMessage
said id optimistic words = record {
  id = id;
  role = user;
  parts = text words ∷ [];
  created_at = none;
  local = false;
  optimistic = optimistic;
  attachments = none;
}

abbrev answered : String → List Part → ChatMessage
answered id parts = record {
  id = id;
  role = assistant;
  parts = parts;
  created_at = none;
  local = false;
  optimistic = false;
  attachments = none;
}

abbrev shows : ℕ → SessionPresentation
shows revision = record {
  revision = revision;
  rlm_children = [];
  rlm_tree = none;
  details = Value.null;
}

abbrev transition : Transition
transition = record {
  assistant_id = some "a";
  snapshot = record {
    adapter_capabilities = none;
    activity_label = some "Working";
    messages = said "u" true "Run it" ∷ answered "a" streamed ∷ [];
    plan_label = none;
    presentation = some (shows 4);
    queue = record { steering = "Stop" ∷ []; follow_up = [] };
    session_metadata = record { session_id = some "s"; project_id = none; open_ui = none };
  };
}

abbrev begins : ReasoningText
begins = record { phase = starts; content_index = 0; text = "Again"; duration_ms = none }

abbrev finish : Done
finish = record {
  message = answered "a" (tool (tool_named "Thinking" "t0") ∷ final);
  session_id = "s";
  session_reset = false;
  presentation = some (shows 5);
}

upsert_tool_part_idem_example :
    upsert_tool_part (upsert_tool_part streamed (tool_named "Edit" "t2")) (tool_named "Edit" "t2")
    ≡ upsert_tool_part streamed (tool_named "Edit" "t2")
upsert_tool_part_idem_example = upsert_tool_part_idem streamed (tool_named "Edit" "t2")

upsert_payload_part_idem_example :
    upsert_payload_part (upsert_payload_part streamed plan_part) plan_part
    ≡ upsert_payload_part streamed plan_part
upsert_payload_part_idem_example = upsert_payload_part_idem streamed plan_part

append_all-Grows_example :
    Grows streamed (joined ("ne" ∷ "." ∷ [])) (append_all streamed ("ne" ∷ "." ∷ []))
append_all-Grows_example = append_all-Grows streamed "ne" ("." ∷ [])

one_live : live_episodes 0 streamed ≤ 1
unfolding is_streaming_at
one_live = omega arith

reasoning_parts_one_live_example : live_episodes 0 (reasoning_parts begins streamed) ≤ 1
reasoning_parts_one_live_example = reasoning_parts_one_live 0 begins streamed one_live

abbrev stream : List (Event × ℕ)
stream = (presentation (shows 3), 1) ∷ (done finish, 2) ∷ []

apply_all-shown_le_example : shown transition ≤ shown (apply_all transition stream)
apply_all-shown_le_example = apply_all-shown_le transition stream refl

apply-of_user_example :
    of_user
      (apply_chat_stream_event transition
        (tool_part (tool_named "Edit" "t2") (some "b"))
        3).snapshot.messages
    ≡ of_user transition.snapshot.messages
apply-of_user_example =
    apply-of_user transition (tool_part (tool_named "Edit" "t2") (some "b")) 3 (some "b") refl refl

apply-Echoed_example :
    Echoed
      (said "srv" false "Run it")
      transition.snapshot.messages
      (apply_chat_stream_event transition (message (said "srv" false "Run it")) 3).snapshot.messages
apply-Echoed_example = apply-Echoed transition (said "srv" false "Run it") 3 refl
