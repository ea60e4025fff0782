-- ===== src/EventMapper/Lives/Runs.antt =====
-- web/server/src/event-mapper.ts: the frames of every event of the agent loop, and of a session's events.
use fleet_prime_agent.Prelude.{
  ℕ, String, ◌≡◌, refl, true, false, List, [], ◌∷◌, Option, none, some, Bool-cases, inl, inr, any,
}
use fleet_prime_agent.Prelude.Json.{Value}
use fleet_prime_agent.Chat
use fleet_prime_agent.Chat.{Event, Part, ToolPart}
use fleet_prime_agent.EventMapper.{
  MapperState, Phase, Hydrator, StreamEvent, AgentEvent, AgentMessage, AssistantMessage,
  create_event_mapper_state,
}
use fleet_prime_agent.EventMapper.Episodes.{close_active_reasoning_episodes}
use fleet_prime_agent.EventMapper.Tools.{on_execution_start}
use fleet_prime_agent.EventMapper.Remember.{remember_assistant_message}
use fleet_prime_agent.EventMapper.Finalize.{finalize_assistant_message}
use fleet_prime_agent.EventMapper.Stream.{reasoning_frame, map_assistant_stream_event}
use fleet_prime_agent.EventMapper.Core.{
  map_core_agent_event, on_agent_start, on_agent_end, on_message_start, on_message_update,
  on_message_end, on_tool_start, tool_frame, end_run, remember_last, payload_frames, map_all,
  last_assistant, is_notable,
}
use fleet_prime_agent.EventMapper.Lives.{Watch, watch, watch_all, nothing_seen}
use fleet_prime_agent.EventMapper.Lives.Frames.{
  state-Quiet, message-Quiet, tool_part-Quiet, done-Quiet, payload_frames-QuietAll,
}
use fleet_prime_agent.EventMapper.Lives.Kept.{
  Keeps, same, Keeps-refl, Keeps-trans, name_message-Keeps, remember-Keeps,
  on_execution_start-Keeps, on_execution_update-Keeps, on_execution_end-Keeps,
}
use fleet_prime_agent.EventMapper.Lives.Finalized.{finalize-Keeps}
use fleet_prime_agent.EventMapper.Lives.Followed.{
  Tracks-keeps, Follows, Follows-trans, Quiet, silent, quiet,
}
use fleet_prime_agent.EventMapper.Lives.Closing.{
  Follows-keeps, reasoning_frame-Quiet, reasoning_frame-Keeps, after-Quiet, close-Follows,
}
use fleet_prime_agent.EventMapper.Lives.Streamed.{map_assistant_stream_event-Follows}

-- A run that starts has no open episode and no index in use; the watcher begins anew.
on_agent_start-Follows :
    (s : MapperState) (run_id : String) (now : ℕ)
    → Follows s (on_agent_start s run_id now).1 (on_agent_start s run_id now).0
unfolding on_agent_start watch_all watch reasoning_frame
on_agent_start-Follows s run_id now w tracks =
    (nothing_seen, refl, record { named = λ n h. h; within = λ n h. h; opens = tt; apart = tt })

turn-Follows :
    (s : MapperState) (now : ℕ)
    → Follows s
        (Event.state "turn_start" ∷ (reasoning_frame s Phase.context true now).1 ∷ [])
        (reasoning_frame s Phase.context true now).0
turn-Follows s now =
    let (t, phase) = reasoning_frame s Phase.context true now in
    after-Quiet s s t (Event.state "turn_start") (phase ∷ []) (state-Quiet "turn_start" refl)
      (Keeps-refl s)
      (quiet s t phase (reasoning_frame-Quiet s Phase.context true now)
        (reasoning_frame-Keeps s Phase.context true now))

tool_frame-Follows :
    (s : MapperState) (r : MapperState × ToolPart)
    → Keeps s r.0
    → Follows s (tool_frame r).1 (tool_frame r).0
unfolding tool_frame
tool_frame-Follows s (t, part) kept =
    quiet s t (Event.tool_part part t.current_message_id)
      (tool_part-Quiet part t.current_message_id) kept

on_tool_start-Follows :
    (h : Hydrator) (s : MapperState) (id : String) (name : Option String) (args : Option Value)
    (now : ℕ)
    → Follows s (on_tool_start h s id name args now).1 (on_tool_start h s id name args now).0
unfolding on_tool_start
on_tool_start-Follows h s id name args now =
    let (s₁, closed) = close_active_reasoning_episodes s in
    let (s₂, part) = on_execution_start h s₁ id name args in
    let (s₃, phase) = reasoning_frame s₂ Phase.executing true now in
    let frame = Event.tool_part part s₃.current_message_id in
    Follows-trans s s₁ s₃ closed (phase ∷ frame ∷ []) (close-Follows s) (
      after-Quiet s₁ s₃ s₃ phase (frame ∷ []) (reasoning_frame-Quiet s₂ Phase.executing true now)
        (Keeps-trans (on_execution_start-Keeps h s₁ id name args)
          (reasoning_frame-Keeps s₂ Phase.executing true now))
        (quiet s₃ s₃ frame (tool_part-Quiet part s₃.current_message_id) (Keeps-refl s₃)))

remember_last-Keeps :
    (h : Hydrator) (o : Option AssistantMessage) (s : MapperState) → Keeps s (remember_last h o s)
unfolding remember_last
remember_last-Keeps h none s = Keeps-refl s
remember_last-Keeps h (some m) s = remember-Keeps h s m

-- A run that ends: payloads, its phase, and the message that it leaves.
end_frames-Follows :
    (s t : MapperState) (phase : Event) (d : Chat.Done)
    → Quiet phase
    → Keeps s t
    → Follows s (phase ∷ Event.state "agent_settled" ∷ Event.done d ∷ []) t
end_frames-Follows s t phase d q kept =
    after-Quiet s t t phase (Event.state "agent_settled" ∷ Event.done d ∷ []) q kept (
      after-Quiet t t t (Event.state "agent_settled") (Event.done d ∷ [])
        (state-Quiet "agent_settled" refl) (Keeps-refl t)
        (quiet t t (Event.done d) (done-Quiet d) (Keeps-refl t)))

end_run-Keeps : (s : MapperState) → Keeps s (end_run s)
unfolding end_run
end_run-Keeps s = same refl refl

on_agent_end-Follows :
    (h : Hydrator) (s : MapperState) (messages : List AgentMessage) (now : ℕ)
    → Follows s (on_agent_end h s messages now).1 (on_agent_end h s messages now).0
unfolding on_agent_end
on_agent_end-Follows h s messages now =
    let remembered = remember_last h (last_assistant messages none) s in
    let (finalized, message) = finalize_assistant_message remembered in
    let (t, phase) = reasoning_frame (end_run finalized) Phase.complete false now in
    let kept = Keeps-trans (finalize-Keeps remembered) (
      Keeps-trans (end_run-Keeps finalized)
        (reasoning_frame-Keeps (end_run finalized) Phase.complete false now)) in
    Follows-trans s remembered t (payload_frames h remembered 0 messages) _
      (λ w tracks. (
        w,
        payload_frames-QuietAll h remembered 0 messages w,
        Tracks-keeps (remember_last-Keeps h (last_assistant messages none) s) tracks,
      ))
      (end_frames-Follows remembered t phase _
        (reasoning_frame-Quiet (end_run finalized) Phase.complete false now) kept)

on_message_start-Follows :
    (s : MapperState) (m : AgentMessage)
    → Follows s (on_message_start s m).1 (on_message_start s m).0
unfolding on_message_start
on_message_start-Follows s (AgentMessage.user content timestamp) =
    quiet s _ (Event.message _) (message-Quiet _) (same refl refl)
on_message_start-Follows s (AgentMessage.assistant m) =
    let k = name_message-Keeps (record s { assistant_message = some m }) in
    silent s _ (record { claims = k.claims; opens = k.opens })
on_message_start-Follows s AgentMessage.tool_result = silent s s (Keeps-refl s)
on_message_start-Follows s (AgentMessage.runtime value) = silent s s (Keeps-refl s)

on_message_update-Follows :
    (h : Hydrator) (s : MapperState) (m : AgentMessage) (event : Option StreamEvent) (now : ℕ)
    → Follows s (on_message_update h s m event now).1 (on_message_update h s m event now).0
unfolding on_message_update
on_message_update-Follows h s (AgentMessage.assistant m) none now =
    let s' = record s { assistant_message = some m } in
    let k = remember-Keeps h s' m in silent s _ (record { claims = k.claims; opens = k.opens })
on_message_update-Follows h s (AgentMessage.assistant m) (some event) now =
    let s' = record s { assistant_message = some m } in
    let t = (map_assistant_stream_event h s' event now).0 in
    Follows-keeps s s' t t _ (same refl refl) (map_assistant_stream_event-Follows h s' event now)
      (Keeps-refl t)
on_message_update-Follows h s (AgentMessage.user content timestamp) event now =
    silent s s (Keeps-refl s)
on_message_update-Follows h s AgentMessage.tool_result event now = silent s s (Keeps-refl s)
on_message_update-Follows h s (AgentMessage.runtime value) event now = silent s s (Keeps-refl s)

on_message_end-Follows :
    (h : Hydrator) (s : MapperState) (m : AgentMessage)
    → Follows s (on_message_end h s m).1 (on_message_end h s m).0
unfolding on_message_end
on_message_end-Follows h s (AgentMessage.assistant m) =
    let (t, message) = remember_assistant_message h s m in
    let kept = remember-Keeps h s m in
    elim (Bool-cases (any is_notable message.parts)) [
      | inl notable ↦ rw notable (quiet s t (Event.message message) (message-Quiet message) kept)
      | inr plain ↦ rw plain (silent s t kept)
    ]
on_message_end-Follows h s (AgentMessage.user content timestamp) = silent s s (Keeps-refl s)
on_message_end-Follows h s AgentMessage.tool_result = silent s s (Keeps-refl s)
on_message_end-Follows h s (AgentMessage.runtime value) = silent s s (Keeps-refl s)

map_core_agent_event-Follows :
    (h : Hydrator) (s : MapperState) (event : AgentEvent) (now : ℕ)
    → Follows s (map_core_agent_event h s event now).1 (map_core_agent_event h s event now).0
unfolding map_core_agent_event
map_core_agent_event-Follows h s (AgentEvent.agent_start run_id) now =
    on_agent_start-Follows s run_id now
map_core_agent_event-Follows h s (AgentEvent.agent_end messages) now =
    on_agent_end-Follows h s messages now
map_core_agent_event-Follows h s AgentEvent.turn_start now = turn-Follows s now
map_core_agent_event-Follows h s AgentEvent.turn_end now =
    quiet s s (Event.state "turn_end") (state-Quiet "turn_end" refl) (Keeps-refl s)
map_core_agent_event-Follows h s (AgentEvent.message_start m) now = on_message_start-Follows s m
map_core_agent_event-Follows h s (AgentEvent.message_update m event) now =
    on_message_update-Follows h s m event now
map_core_agent_event-Follows h s (AgentEvent.message_end m) now = on_message_end-Follows h s m
map_core_agent_event-Follows h s (AgentEvent.tool_execution_start id name args) now =
    on_tool_start-Follows h s id name args now
map_core_agent_event-Follows h s (AgentEvent.tool_execution_update id name args partial) now =
    tool_frame-Follows s _ (on_execution_update-Keeps h s id name args partial)
map_core_agent_event-Follows h s (AgentEvent.tool_execution_end id name failed result) now =
    tool_frame-Follows s _ (on_execution_end-Keeps h s id name failed result)

map_all-Follows :
    (h : Hydrator) (s : MapperState) (events : List (AgentEvent × ℕ))
    → Follows s (map_all h s events).1 (map_all h s events).0
unfolding map_all
map_all-Follows h s [] = silent s s (Keeps-refl s)
map_all-Follows h s ((event, now) ∷ rest) =
    let (s', frames) = map_core_agent_event h s event now in
    Follows-trans s s' (map_all h s' rest).0 frames (map_all h s' rest).1
      (map_core_agent_event-Follows h s event now) (map_all-Follows h s' rest)

-- Whatever events of the agent loop come, in the frames of a new mapper each content index of a run is
-- started at most once, gets deltas only while it is open, and no frame after its end.
pub map_all_lives :
    (h : Hydrator) (session_id : String) (events : List (AgentEvent × ℕ))
    → (w : Watch) × (watch_all nothing_seen
          (map_all h (create_event_mapper_state session_id) events).1
        ≡ some w)
unfolding create_event_mapper_state
map_all_lives h session_id events =
    let start = create_event_mapper_state session_id in
    let (w, e, _) =
      map_all-Follows h start events nothing_seen
        (record { named = λ n m. m; within = λ n m. m; opens = tt; apart = tt }) in
    (w, e)
