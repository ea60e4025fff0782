-- ===== src/Chat/Reasoning.antt =====
-- `applyAssistantReasoningText` of web/app/src/components/chat/chat-message-helpers.ts: the episodes of
-- streamed reasoning in the parts of a message.
pub mod Episodes
use fleet_prime_agent.Prelude.{
  ℕ, suc, String, Bool, true, false, not, ◌&&◌, ◌||◌, List, [], ◌∷◌, ◌++◌, Option, none, some,
  nat_eq, ◌==◌, if◌then◌else◌, length, get_elem?, modify, find_index, insert_at, is_some,
}
use fleet_prime_agent.Prelude.Text.{◌<>◌, truthy}
use fleet_prime_agent.Chat.{
  Part, text, reasoning, ReasoningPart, ReasoningState, streaming, complete, ReasoningText, Phase,
  starts, delta, ends, ChatMessage,
}
use fleet_prime_agent.Chat.Parts.{update_parts}

abbrev pub is_streaming : ReasoningState → Bool
is_streaming streaming = true
is_streaming complete = false

-- `candidate.type === "reasoning" && candidate.contentIndex === contentIndex`
pub is_reasoning_at : ℕ → Part → Bool
is_reasoning_at content_index (reasoning r) = nat_eq r.content_index content_index
is_reasoning_at content_index _ = false

unfoldable pub is_streaming_at : ℕ → Part → Bool
is_streaming_at content_index (reasoning r) =
    nat_eq r.content_index content_index && is_streaming r.state
is_streaming_at content_index _ = false

-- The last index that passes, as the loop over `message.parts` leaves it.
abbrev last_or : Bool → Option ℕ → Option ℕ
last_or here (some i) = some (suc i)
last_or true none = some 0
last_or false none = none

pub last_index : (Part → Bool) → List Part → Option ℕ
last_index p [] = none
last_index p (x ∷ xs) = last_or (p x) (last_index p xs)

-- `index`: the streaming episode, or else the last one, which a delta does not take.
pub target : Phase → Option ℕ → Option ℕ → Option ℕ
target phase (some i) last = some i
target delta none last = none
target phase none last = last

abbrev reasoning_of : Option Part → Option ReasoningPart
reasoning_of (some (reasoning r)) = some r
reasoning_of _ = none

pub existing_at : List Part → Option ℕ → Option ReasoningPart
existing_at parts none = none
existing_at parts (some i) = reasoning_of (get_elem? parts i)

abbrev is_complete : Option ReasoningPart → Bool
is_complete none = false
is_complete (some r) = not (is_streaming r.state)

-- `openNewEpisode`
pub opens_new_episode : Phase → Option ReasoningPart → Bool
opens_new_episode starts existing = is_complete existing
opens_new_episode _ existing = false

abbrev text_of : Option ReasoningPart → String
text_of none = ""
text_of (some r) = r.text

pub new_text : Phase → String → String → String
new_text starts streamed previous = streamed
new_text delta streamed previous = previous <> streamed
new_text ends streamed previous = if truthy streamed then streamed else previous

pub new_state : Phase → ReasoningState
new_state ends = complete
new_state _ = streaming

pub new_part : ReasoningText → Bool → Option ReasoningPart → ReasoningPart
unfolding new_text new_state
new_part event opens existing = record {
  content_index = event.content_index;
  text = new_text event.phase event.text (if opens then "" else text_of existing);
  state = new_state event.phase;
  duration_ms = event.duration_ms;
}

-- `current.type === "text" && !current.text`
pub is_empty_text : Part → Bool
is_empty_text (text t) = not (truthy t)
is_empty_text _ = false

insert_before : Option ℕ → Part → List Part → List Part
insert_before none part parts = insert_at (length parts) part parts
insert_before (some i) part parts = insert_at i part parts

place : Option ℕ → Bool → Part → List Part → List Part
unfolding insert_before is_empty_text
place (some i) false part parts = modify i (λ _. part) parts
place _ _ part parts = insert_before (find_index is_empty_text parts) part parts

-- An `end` that finds its episode complete.
pub already_ended : Phase → Option ReasoningPart → Option ℕ → Bool
already_ended ends existing none = is_complete existing
already_ended _ existing _ = false

-- The change, once the episode is looked up.
pub reasoning_change :
    ReasoningText → Option ℕ → Option ℕ → Option ReasoningPart → List Part → List Part
unfolding opens_new_episode new_part place already_ended
reasoning_change event live index existing parts =
    let opens : Bool = opens_new_episode event.phase existing in
    if already_ended event.phase existing live
    then parts
    else place index opens (reasoning (new_part event opens existing)) parts

reasoning_at : ReasoningText → Option ℕ → Option ℕ → List Part → List Part
unfolding reasoning_change existing_at
reasoning_at event live index parts =
    reasoning_change event live index (existing_at parts index) parts

pub reasoning_parts : ReasoningText → List Part → List Part
unfolding reasoning_at target last_index is_streaming_at is_reasoning_at
reasoning_parts event parts =
    let live : Option ℕ = last_index (is_streaming_at event.content_index) parts in
    reasoning_at event live
      (target event.phase live (last_index (is_reasoning_at event.content_index) parts)) parts

unfoldable pub apply_assistant_reasoning_text :
    List ChatMessage → String → ReasoningText → List ChatMessage
unfolding update_parts reasoning_parts
apply_assistant_reasoning_text messages id event = update_parts (reasoning_parts event) id messages
