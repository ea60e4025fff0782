-- ===== src/EventMapper/Stream.antt =====
-- web/server/src/event-mapper.ts: the frames of one event of the assistant's stream
-- (mapAssistantStreamEvent), and the frame that tells the run's phase (reasoningFrame).
use fleet_prime_agent.Prelude.{
  ℕ, ◌-◌, String, Bool, true, false, List, [], ◌∷◌, ◌++◌, Option, none, some, or_else, get_or,
  if◌then◌else◌, is_some, length, get_elem?, ◌==◌,
}
use fleet_prime_agent.Prelude.Text.{◌<>◌, decimal, truthy?}
use fleet_prime_agent.Prelude.NatMap
use fleet_prime_agent.Prelude.Json.{Value, str, num, bool, obj, arr, end, field, Items, nil, cons}
use fleet_prime_agent.Chat
use fleet_prime_agent.Chat.{Event, reasoning_summary, delta_text}
use fleet_prime_agent.EventMapper.{
  MapperState, Phase, waiting, context, planning, executing, responding, recovering, complete,
  error, Step, StreamEvent, Block, Hydrator,
}
use fleet_prime_agent.EventMapper.Episodes.{
  name_message, reasoning_content_index, begin_reasoning_episode, resolve_active_reasoning_episode,
  text_frame, text_so_far, forget_active, close_active_reasoning_episodes,
}
use fleet_prime_agent.EventMapper.Remember.{remember_assistant_message}

phase_name : Phase → String
phase_name waiting = "waiting"
phase_name context = "context"
phase_name planning = "planning"
phase_name executing = "executing"
phase_name responding = "responding"
phase_name recovering = "recovering"
phase_name complete = "complete"
phase_name error = "error"

-- `REASONING_COPY`
copy_title : Phase → String
copy_title waiting = "Preparing run"
copy_title context = "Reviewing workspace context"
copy_title planning = "Planning next step"
copy_title executing = "Running selected tools"
copy_title responding = "Writing response"
copy_title recovering = "Recovering after retry"
copy_title complete = "Completed"
copy_title error = "Run needs attention"

copy_body : Phase → String
copy_body waiting = "Setting up the requested task."
copy_body context = "Reviewing the available conversation and project context."
copy_body planning = "Choosing the next safe action."
copy_body executing = "Executing the selected agent actions."
copy_body responding = "Preparing the response."
copy_body recovering = "Recovering the current request."
copy_body complete = "Finished the current run."
copy_body error = "The current run could not continue normally."

resting_label : Phase → String
resting_label waiting = "Prepared run"
resting_label context = "Reviewed context"
resting_label planning = "Prepared next step"
resting_label executing = "Completed selected actions"
resting_label responding = "Response prepared"
resting_label recovering = "Recovery completed"
resting_label complete = "Completed"
resting_label error = "Run needs attention"

is_phase : Option Phase → String → Bool
unfolding phase_name
is_phase none name = false
is_phase (some phase) name = phase_name phase == name

step_for : MapperState → Phase → Step
unfolding copy_title copy_body
step_for s phase = record {
  id = s.run_id <> "-reasoning-" <> decimal (length s.steps);
  title = copy_title phase;
  body = copy_body phase;
}

steps_json : List Step → Items
steps_json [] = nil
steps_json (step ∷ rest) =
    cons
      (obj (
        field "id" (str step.id)
          (field "title" (str step.title) (field "body" (str step.body) end))))
      (steps_json rest)

-- The state of the frame: the run's start and the steps, with one more where the phase is another.
pub enter_phase : MapperState → Phase → ℕ → MapperState
unfolding is_phase step_for
enter_phase s phase now =
    let same = is_phase s.phase (phase_name phase) in
    record s {
      started_at = some (get_or s.started_at now);
      phase = some phase;
      steps = if same then s.steps else s.steps ++ step_for s phase ∷ [];
    }

presentation_json : MapperState → Phase → Bool → ℕ → Value
unfolding steps_json phase_name resting_label
presentation_json s phase streaming now = obj (
    field "runId" (str s.run_id) (
      field "phase" (str (phase_name phase)) (
        field "steps" (arr (steps_json s.steps)) (
          field "visibleSteps" (num (length s.steps)) (
            field "streaming" (bool streaming) (
              field "startedAt" (num (get_or s.started_at now)) (
                field "elapsedMs" (num (now - get_or s.started_at now))
                  (field "restingLabel" (str (resting_label phase)) end))))))))

-- `reasoningFrame` at the time `now`
unfoldable pub reasoning_frame : MapperState → Phase → Bool → ℕ → MapperState × Event
unfolding enter_phase presentation_json
reasoning_frame s phase streaming now =
    let s' = enter_phase s phase now in
    (
      s',
      reasoning_summary
          (record { streaming = streaming; json = presentation_json s' phase streaming now })
          (truthy? s'.current_message_id),
    )

abbrev append_text : MapperState → String → MapperState
append_text s added = record s { current_text = s.current_text <> added }

-- `reasoningTextByContentIndex.set`
unfoldable pub write_text : ℕ → String → MapperState → MapperState
write_text index t s = record s { reasoning_text = NatMap.set index t s.reasoning_text }

unfoldable pub start_frames : Bool → MapperState → ℕ → List Event
start_frames true s index = []
start_frames false s index = text_frame s Chat.Phase.starts index "" ∷ []

unfoldable pub on_text_delta : MapperState → String → ℕ → MapperState × List Event
on_text_delta s added now =
    let (s₁, closed) = close_active_reasoning_episodes s in
    let (s₂, phase) = reasoning_frame (append_text (name_message s₁) added) responding true now in
    (s₂, closed ++ phase ∷ delta_text added s₂.current_message_id ∷ [])

-- The text of the episode grows, and the run is planning.
unfoldable pub grow_text : MapperState → ℕ → String → ℕ → MapperState × Event
grow_text s index added now =
    let named = name_message s in
    reasoning_frame (write_text index (text_so_far named index <> added) named) planning true now

unfoldable pub on_thinking_delta : MapperState → ℕ → String → ℕ → MapperState × List Event
unfolding start_frames
on_thinking_delta s runtime_index added now =
    let had_active = is_some (NatMap.get runtime_index s.active) in
    let (s₁, index) = resolve_active_reasoning_episode s runtime_index in
    let (s₂, phase) = grow_text s₁ index added now in
    (
      s₂,
      phase ∷ start_frames had_active s₂ index ++ text_frame s₂ Chat.Phase.delta index added ∷ [],
    )

-- The open episode of the runtime index, if there is one, ends.
unfoldable pub end_previous : Option ℕ → MapperState → ℕ → MapperState × List Event
end_previous none s runtime_index = (s, [])
end_previous (some index) s runtime_index =
    (forget_active runtime_index s, text_frame s Chat.Phase.ends index (text_so_far s index) ∷ [])

unfoldable pub on_thinking_start : MapperState → ℕ → ℕ → MapperState × List Event
unfolding end_previous
on_thinking_start s runtime_index now =
    let named = name_message s in
    let (s₁, ended) = end_previous (NatMap.get runtime_index named.active) named runtime_index in
    let (s₂, index) = begin_reasoning_episode s₁ runtime_index in
    let (s₃, phase) = reasoning_frame (write_text index "" s₂) planning true now in
    (s₃, ended ++ phase ∷ text_frame s₃ Chat.Phase.starts index "" ∷ [])

block_thought : Option Block → Option String
block_thought (some (Block.thinking t)) = t
block_thought _ = none

thought_in : Option (List Block) → ℕ → Option String
unfolding block_thought
thought_in none i = none
thought_in (some bs) i = block_thought (get_elem? bs i)

unfoldable pub write_final : Option String → ℕ → MapperState → MapperState
unfolding write_text
write_final none index s = s
write_final (some t) index s = write_text index t s

unfoldable pub on_thinking_end : MapperState → ℕ → Option String → MapperState × List Event
on_thinking_end s runtime_index final =
    let (s₁, index) = resolve_active_reasoning_episode s runtime_index in
    let s₂ = forget_active runtime_index (write_final final index s₁) in
    (s₂, text_frame s₂ Chat.Phase.ends index (text_so_far s₂ index) ∷ [])

-- A new message of the assistant: its indexes start afresh, those of the run stay in use.
unfoldable pub on_start : MapperState → MapperState
on_start s = record (name_message s) { reasoning_text = []; active = []; fleet_index = [] }

-- `mapAssistantStreamEvent`
unfoldable pub map_assistant_stream_event :
    Hydrator → MapperState → StreamEvent → ℕ → MapperState × List Event
unfolding thought_in
map_assistant_stream_event h s StreamEvent.start now = (on_start s, [])
map_assistant_stream_event h s (StreamEvent.text_delta added) now = on_text_delta s added now
map_assistant_stream_event h s (StreamEvent.thinking_start index partial) now =
    on_thinking_start s (reasoning_content_index s index partial) now
map_assistant_stream_event h s (StreamEvent.thinking_delta index partial added) now =
    on_thinking_delta s (reasoning_content_index s index partial) added now
map_assistant_stream_event h s (StreamEvent.thinking_end index partial content) now =
    let runtime_index = reasoning_content_index s index partial in
    on_thinking_end s runtime_index (or_else content (thought_in partial runtime_index))
map_assistant_stream_event h s StreamEvent.text_start now = close_active_reasoning_episodes s
map_assistant_stream_event h s StreamEvent.toolcall_start now = close_active_reasoning_episodes s
map_assistant_stream_event h s (StreamEvent.done message) now =
    ((remember_assistant_message h s message).0, [])
map_assistant_stream_event h s StreamEvent.ignored now = (s, [])
