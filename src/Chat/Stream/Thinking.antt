-- ===== src/Chat/Stream/Thinking.antt =====
-- What a turn leaves behind when its `done` frame arrives.
use fleet_prime_agent.Prelude.{◌≡◌, true, none, all, String}
use fleet_prime_agent.Chat.{Transition}
use fleet_prime_agent.Chat.Parts.Legacy.{is_clean}
use fleet_prime_agent.Chat.Stream.Finals.{Shows}
use fleet_prime_agent.Chat.Stream.{empty_queue_state}

-- What the frame leaves: no bubble in flight, no activity, nothing queued, no raw thinking in any message of
-- the assistant, an earlier one or the final one, which is shown, and the messages of the user as they were.
abbrev pub IsSettled : String → Transition → Transition → Type 0
IsSettled id before t =
    (t.assistant_id ≡ none)
    × (t.snapshot.activity_label ≡ none)
    × (t.snapshot.queue ≡ empty_queue_state)
    × (all is_clean t.snapshot.messages ≡ true)
    × Shows id before.snapshot.messages t.snapshot.messages
