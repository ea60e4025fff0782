-- ===== src/EventMapper/Lives/Frames.antt =====
-- web/server/src/event-mapper.ts: the frames that name no episode, which are quiet to the watcher.
use fleet_prime_agent.Prelude.{
  ℕ, suc, String, ◌≡◌, refl, ◌∙◌, false, List, [], ◌∷◌, ◌++◌, Option, none, some, ◌==◌,
}
use fleet_prime_agent.Prelude.Text.{◌<>◌, truthy?, decimal}
use fleet_prime_agent.Chat
use fleet_prime_agent.Chat.{Event, Part, ToolPart}
use fleet_prime_agent.EventMapper.{MapperState, Hydrator, AgentMessage}
use fleet_prime_agent.EventMapper.Core.{payload_frames, payload_frames_of, frames_of_parts}
use fleet_prime_agent.EventMapper.Lives.{Watch, watch, watch_all}
use fleet_prime_agent.EventMapper.Lives.Followed.{watch_all-append, Quiet}

-- A frame that is quiet by its constructor.
pub state-Quiet : (name : String) → (name == "agent_start") ≡ false → Quiet (Event.state name)
unfolding watch
state-Quiet name e w = rw e refl

pub message-Quiet : (m : Chat.ChatMessage) → Quiet (Event.message m)
unfolding watch
message-Quiet m w = refl

pub tool_part-Quiet : (part : ToolPart) (id : Option String) → Quiet (Event.tool_part part id)
unfolding watch
tool_part-Quiet part id w = refl

pub done-Quiet : (d : Chat.Done) → Quiet (Event.done d)
unfolding watch
done-Quiet d w = refl

-- Frames that are all quiet.
abbrev pub QuietAll : List Event → Type 0
QuietAll fs = (w : Watch) → watch_all w fs ≡ some w

QuietAll-append : (fs gs : List Event) → QuietAll fs → QuietAll gs → QuietAll (fs ++ gs)
QuietAll-append fs gs p q w = watch_all-append w w fs gs (p w) ∙ q w

payload_frames_of-QuietAll :
    (id : Option String) (content : String) (parts : List Part)
    → QuietAll (payload_frames_of id content parts)
unfolding payload_frames_of watch_all watch
payload_frames_of-QuietAll id content [] w = refl
payload_frames_of-QuietAll id content (Part.payload p ∷ rest) w =
    payload_frames_of-QuietAll id content rest w
payload_frames_of-QuietAll id content (Part.text t ∷ rest) w =
    payload_frames_of-QuietAll id content rest w
payload_frames_of-QuietAll id content (Part.reasoning r ∷ rest) w =
    payload_frames_of-QuietAll id content rest w
payload_frames_of-QuietAll id content (Part.error a b ∷ rest) w =
    payload_frames_of-QuietAll id content rest w
payload_frames_of-QuietAll id content (Part.image a b c ∷ rest) w =
    payload_frames_of-QuietAll id content rest w
payload_frames_of-QuietAll id content (Part.tool t ∷ rest) w =
    payload_frames_of-QuietAll id content rest w

frames_of_parts-QuietAll :
    (id : Option String) (o : Option (List Part)) → QuietAll (frames_of_parts id o)
unfolding frames_of_parts watch_all
frames_of_parts-QuietAll id none w = refl
frames_of_parts-QuietAll id (some parts) w = payload_frames_of-QuietAll id _ parts w

pub payload_frames-QuietAll :
    (h : Hydrator) (s : MapperState) (i : ℕ) (ms : List AgentMessage)
    → QuietAll (payload_frames h s i ms)
unfolding payload_frames watch_all
payload_frames-QuietAll h s i [] w = refl
payload_frames-QuietAll h s i (AgentMessage.runtime value ∷ rest) w =
    let id = truthy? s.current_message_id in
    let parts = h.runtime_parts value (s.run_id <> "-runtime-" <> decimal i) in
    QuietAll-append (frames_of_parts id parts) (payload_frames h s (suc i) rest)
      (frames_of_parts-QuietAll id parts) (payload_frames-QuietAll h s (suc i) rest) w
payload_frames-QuietAll h s i (AgentMessage.assistant m ∷ rest) w =
    payload_frames-QuietAll h s (suc i) rest w
payload_frames-QuietAll h s i (AgentMessage.user c t ∷ rest) w =
    payload_frames-QuietAll h s (suc i) rest w
payload_frames-QuietAll h s i (AgentMessage.tool_result ∷ rest) w =
    payload_frames-QuietAll h s (suc i) rest w
