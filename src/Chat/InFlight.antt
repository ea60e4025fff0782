-- ===== src/Chat/InFlight.antt =====
-- The turn's bubble in web/app/src/components/chat/chat-stream-state.ts: which message of the transcript
-- a frame goes to, and how a message that arrives replaces it.
use fleet_prime_agent.Prelude.{
  ℕ, String, Bool, true, false, not, ◌&&◌, List, [], ◌∷◌, ◌++◌, map, Option, none, some, ◌==◌,
  if◌then◌else◌, or_else, any, find,
}
use fleet_prime_agent.Prelude.Text.{is_blank, trim, or_undefined, truthy?}
use fleet_prime_agent.Chat.{
  Part, text, user, assistant, ChatMessage, SessionMetadata, Snapshot, Transition,
}
use fleet_prime_agent.Chat.Parts.{create_text_message}
use fleet_prime_agent.Chat.Merge.{has_unmatched_carried_part, merge_streamed_parts_onto_terminal}

abbrev trimmed : Option String → Option String
trimmed none = none
trimmed (some s) = or_undefined (trim s)

-- `normalizeSessionMetadata`
unfoldable pub normalize_session_metadata : SessionMetadata → SessionMetadata
normalize_session_metadata m = record {
  session_id = trimmed m.session_id;
  project_id = trimmed m.project_id;
  open_ui = none;
}

-- `mergeSessionMetadata`, for the incoming session id that the reducer passes.
unfoldable pub merge_session_metadata : SessionMetadata → String → SessionMetadata
merge_session_metadata current session_id = record {
  session_id = truthy? (or_else (or_undefined (trim session_id)) current.session_id);
  project_id = truthy? current.project_id;
  open_ui = none;
}

is_renderable : Part → Bool
is_renderable (text t) = not (is_blank t)
is_renderable _ = true

unfoldable pub has_renderable_parts : ChatMessage → Bool
unfolding is_renderable
has_renderable_parts m = any is_renderable m.parts

abbrev pub is_assistant : ChatMessage → Bool
is_assistant m = elim m.role [ user ↦ false | assistant ↦ true ]

abbrev pub is_user : ChatMessage → Bool
is_user m = elim m.role [ user ↦ true | assistant ↦ false ]

abbrev pub has_id : String → ChatMessage → Bool
has_id id m = m.id == id

abbrev pub is_assistant_with : String → ChatMessage → Bool
is_assistant_with id m = m.id == id && is_assistant m

abbrev pub with_messages : Snapshot → List ChatMessage → Snapshot
with_messages s messages = record s { messages = messages }

-- `reconcileAssistantId`. An empty id counts as none.
unfoldable pub reconcile : Transition → String → Option String → ℕ → Transition
reconcile t id (some current) now = if current == id then t else record {
  assistant_id = some id;
  snapshot = with_messages t.snapshot (
      map (λ m. if is_assistant_with current m then record m { id = id } else m)
        t.snapshot.messages);
}
reconcile t id none now = record {
  assistant_id = some id;
  snapshot =
      with_messages t.snapshot
        (t.snapshot.messages ++ create_text_message assistant "" id now ∷ []);
}

unfoldable pub reconcile_to : Transition → Option String → ℕ → Transition
unfolding reconcile
reconcile_to t none now = t
reconcile_to t (some id) now = reconcile t id (truthy? t.assistant_id) now

unfoldable pub reconcile_assistant_id : Transition → Option String → ℕ → Transition
unfolding reconcile_to
reconcile_assistant_id t message_id now = reconcile_to t (truthy? message_id) now

-- The messages with the id of `next` replaced by it.
abbrev pub replace_message : List ChatMessage → ChatMessage → List ChatMessage
replace_message messages next = map (λ m. if m.id == next.id then next else m) messages

-- `replaceOrAppendMessage`
unfoldable pub replace_or_append_message : List ChatMessage → ChatMessage → List ChatMessage
replace_or_append_message messages next =
    if any (has_id next.id) messages then replace_message messages next else messages ++ next ∷ []

-- The bubble of the turn: `assistantId ? messages.find(…) : undefined`.
abbrev bubble : List ChatMessage → Option String → Option ChatMessage
bubble messages none = none
bubble messages (some id) = find (is_assistant_with id) messages

abbrev pub carry_from : Option ChatMessage → ChatMessage → ChatMessage
carry_from none next = next
carry_from (some donor) next =
    if has_unmatched_carried_part donor.parts next.parts
    then record next { parts = merge_streamed_parts_onto_terminal donor.parts next.parts }
    else next

-- `carryForwardReasoningPresentation`
unfoldable pub carry_forward : List ChatMessage → ChatMessage → Option String → ChatMessage
carry_forward messages next assistant_id =
    carry_from
      (or_else (bubble messages (truthy? assistant_id)) (find (is_assistant_with next.id) messages))
      next

abbrev renderable_only : Option ChatMessage → Option ChatMessage
renderable_only none = none
renderable_only (some m) = if has_renderable_parts m then some m else none

-- The message whose parts an empty one keeps.
unfoldable pub donor_for : List ChatMessage → ChatMessage → Option String → Option ChatMessage
unfolding has_renderable_parts
donor_for messages next assistant_id =
    if has_renderable_parts next
    then none
    else or_else (renderable_only (bubble messages assistant_id))
        (renderable_only (find (is_assistant_with next.id) messages))

-- The end of `replaceOrAppendInFlight`, without a donor.
unfoldable pub place_in_flight : List ChatMessage → ChatMessage → Option String → List ChatMessage
place_in_flight messages next none = messages ++ next ∷ []
place_in_flight messages next (some id) =
    if not (id == next.id) && any (is_assistant_with id) messages
    then map (λ m. if is_assistant_with id m then next else m) messages
    else messages ++ next ∷ []

unfoldable pub in_flight :
    List ChatMessage → ChatMessage → Option String → Option ChatMessage → List ChatMessage
unfolding replace_or_append_message place_in_flight
in_flight messages next assistant_id (some donor) =
    replace_or_append_message messages
      (record next { parts = donor.parts; created_at = or_else next.created_at donor.created_at })
in_flight messages next assistant_id none =
    if any (has_id next.id) messages
    then replace_message messages next
    else place_in_flight messages next assistant_id

-- `replaceOrAppendInFlight`
unfoldable pub replace_or_append_in_flight :
    List ChatMessage → ChatMessage → Option String → List ChatMessage
unfolding in_flight donor_for
replace_or_append_in_flight messages next assistant_id =
    in_flight messages next (truthy? assistant_id) (donor_for messages next (truthy? assistant_id))
