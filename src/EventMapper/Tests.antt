-- ===== src/EventMapper/Tests.antt =====
-- web/server/src/event-mapper.ts: a run with two thinking episodes under one runtime index, and a
-- chain of three agents.
use fleet_prime_agent.Prelude.{String, Option, ◌≤◌, ℕ, List, [], ◌∷◌, none, some, ◌≡◌, refl}
use fleet_prime_agent.Prelude.Json.{str}
use fleet_prime_agent.Chat
use fleet_prime_agent.Chat.{Event}
use fleet_prime_agent.EventMapper.{
  AgentEvent, AgentMessage, Block, Content, Hydrator, StreamEvent, create_event_mapper_state,
}
use fleet_prime_agent.Prelude.NatMap
use fleet_prime_agent.Prelude.Text.{decimal}
use fleet_prime_agent.Prelude.NatMap.{member, add}
use fleet_prime_agent.EventMapper.Core.{
  map_core_agent_event, map_all, on_agent_start, on_message_update, on_tool_start, on_agent_end,
  remember_last, end_run, payload_frames,
}
use fleet_prime_agent.EventMapper.Finalize.{finalize_assistant_message}
use fleet_prime_agent.EventMapper.Stream.{
  map_assistant_stream_event, on_thinking_start, on_thinking_delta, on_thinking_end, on_text_delta,
  grow_text, write_text, write_final, start_frames, end_previous, reasoning_frame,
}
use fleet_prime_agent.EventMapper.Episodes.{
  reasoning_content_index, begin_reasoning_episode, resolve_active_reasoning_episode,
  close_active_reasoning_episodes, text_frame, forget_active, name_message,
}
use fleet_prime_agent.EventMapper.Tools.{
  on_execution_start, tool_name_for_event, resolve_tool_identity, upsert_current_tool_part,
}
use fleet_prime_agent.Prelude.Dict.{insert, lookup}
use fleet_prime_agent.EventMapper.Rlm.{
  Child, Node, Tree, placed, place_all, place_as, new_nodes, change, contains,
  compute_rlm_execution_tree,
}
use fleet_prime_agent.EventMapper.Rlm.Chains.{Linked, children_of, children_in}
use fleet_prime_agent.EventMapper.Rlm.Trees.{tree_shortest}
use fleet_prime_agent.EventMapper.Lives.{Watch, watch_all, nothing_seen}
use fleet_prime_agent.EventMapper.Lives.Runs.{map_all_lives}

abbrev test_child : String → Option String → Child
test_child id parent = record { id = id; parent_id = parent; details = str id }

abbrev test_children : List Child
test_children =
    test_child "leaf" (some "middle")
    ∷ test_child "middle" (some "top")
    ∷ test_child "top" (some "session")
    ∷ []

test_chain : Linked (placed "session" test_children) 3 "leaf"
unfolding placed place_all place_as new_nodes insert lookup change children_of children_in contains
test_chain = ("middle", ("top", refl, refl), refl)

tree_shortest_example :
    (t : Tree) × (node : Node) × (compute_rlm_execution_tree "session" test_children none ≡ some t)
    × (lookup "leaf" t.nodes ≡ some node)
    × Linked (placed "session" test_children) node.depth "leaf"
    × (node.depth ≤ 3)
tree_shortest_example = tree_shortest "session" test_children none 3 "leaf" test_chain

abbrev test_hydrator : Hydrator
test_hydrator = record {
  identify = λ name. record {
    name = name;
    category = some "custom";
    tool_name = some name;
    server_name = none;
  };
  error_envelope = λ message. str message;
  runtime_parts = λ value id. none;
}

abbrev message_of : List Block → AgentMessage
message_of bs = AgentMessage.assistant (record {
  content = Content.blocks bs;
  error_message = none;
  stop_reason = none;
  timestamp = none;
})

abbrev streams : StreamEvent → AgentEvent
streams event = AgentEvent.message_update (message_of []) (some event)

abbrev test_events : List (AgentEvent × ℕ)
test_events =
    (AgentEvent.agent_start "r", 10)
    ∷ (streams (StreamEvent.thinking_start (some 0) none), 11)
    ∷ (streams (StreamEvent.thinking_delta (some 0) none "why"), 12)
    ∷ (streams (StreamEvent.text_delta "so"), 13)
    ∷ (streams (StreamEvent.thinking_start (some 0) none), 14)
    ∷ (streams (StreamEvent.thinking_end (some 0) none (some "done")), 15)
    ∷ (AgentEvent.tool_execution_start "c" (some "bash") none, 16)
    ∷ (AgentEvent.agent_end [], 17)
    ∷ []

map_all_lives_example :
    (w : Watch) × (watch_all nothing_seen
        (map_all test_hydrator (create_event_mapper_state "s") test_events).1
      ≡ some w)
map_all_lives_example = map_all_lives test_hydrator "s" test_events

-- The indexes of the reasoning texts, by phase.
data Named : Type 0 where
  started continued ended : ℕ → Named

abbrev named_as : Chat.Phase → ℕ → Named
named_as Chat.Phase.starts i = started i
named_as Chat.Phase.delta i = continued i
named_as Chat.Phase.ends i = ended i

abbrev named : List Event → List Named
named [] = []
named (Event.reasoning_text frame id ∷ rest) = named_as frame.phase frame.content_index ∷ named rest
named (_ ∷ rest) = named rest

-- The second episode under the runtime index 0 gets the index 1.
second_episode :
    named (map_all test_hydrator (create_event_mapper_state "s") test_events).1
    ≡ started 0 ∷ continued 0 ∷ ended 0 ∷ started 1 ∷ ended 1 ∷ []
unfolding map_all create_event_mapper_state map_core_agent_event on_agent_start on_message_update
    on_tool_start on_agent_end finalize_assistant_message remember_last end_run payload_frames
    map_assistant_stream_event on_thinking_start on_thinking_delta on_thinking_end on_text_delta
    grow_text write_text write_final start_frames end_previous reasoning_frame
    reasoning_content_index begin_reasoning_episode resolve_active_reasoning_episode
    close_active_reasoning_episodes text_frame forget_active name_message on_execution_start
    tool_name_for_event resolve_tool_identity upsert_current_tool_part NatMap.get NatMap.set
    NatMap.remove NatMap.last_key member add decimal
second_episode = refl
