-- ===== src/Chat/Stream/Users.antt =====
-- Which messages a content frame leaves alone, and how the server's copy of a message replaces the
-- optimistic one.
use fleet_prime_agent.Prelude.{
  ℕ, ◌≡◌, refl, ap, ◌∙◌, String, Bool, true, false, ◌&&◌, List, [], ◌∷◌, ◌++◌, map, Option, none,
  some, arith, ◌==◌, ==_iff, ◌⊎◌, if◌then◌else◌, or_else, any, filter, Bool-cases, Option-cases,
  inl, inr,
}
use fleet_prime_agent.Prelude.Text.{truthy?}
use fleet_prime_agent.Chat.{
  Part, Role, user, assistant, ChatMessage, Snapshot, Transition, Event, delta_text, reasoning_text,
  reasoning_summary, tool_part, payload_part,
}
use fleet_prime_agent.Chat.Parts.{
  update_parts, create_text_message, append_assistant_delta, upsert_assistant_tool_part,
  upsert_assistant_payload_part, upsert_assistant_reasoning_presentation,
}
use fleet_prime_agent.Chat.Reasoning.{apply_assistant_reasoning_text}
use fleet_prime_agent.Chat.InFlight.{
  is_user, has_id, is_assistant_with, reconcile, reconcile_to, reconcile_assistant_id,
}
use fleet_prime_agent.Chat.Stream.{
  has_reasoning_summary, content, content_to, apply_chat_stream_event,
}

-- The messages of the user, in order.
abbrev pub of_user : List ChatMessage → List ChatMessage
of_user ms = filter is_user ms

-- No message of the user has the id of the bubble.
abbrev pub Apart : Option String → List ChatMessage → Type 0
Apart none ms = true ≡ true
Apart (some id) ms = any (has_id id) (of_user ms) ≡ false

of_user-update_parts :
    (f : List Part → List Part) (id : String) (ms : List ChatMessage)
    → any (has_id id) (of_user ms) ≡ false
    → of_user (update_parts f id ms) ≡ of_user ms
unfolding update_parts
of_user-update_parts f id [] h = refl
of_user-update_parts f id (m ∷ ms) h = elim (Bool-cases (is_user m)) [
  | inr other ↦ elim (Bool-cases (m.id == id)) [
    | inl at ↦ ground (arith, of_user-update_parts f id ms)
    | inr off ↦ ground (arith, of_user-update_parts f id ms)
  ]
  | inl mine ↦ ground (arith, of_user-update_parts f id ms)
]

and-false : (b : Bool) → (b && false) ≡ false
and-false true = refl
and-false false = refl

pub role_cases : (r : Role) → (r ≡ user) ⊎ (r ≡ assistant)
role_cases user = inl refl
role_cases assistant = inr refl

pub user_or_assistant :
    (current : String) (m : ChatMessage) → is_user m ≡ true → is_assistant_with current m ≡ false
user_or_assistant current m h = elim (role_cases m.role) [
  | inl mine ↦ rw mine (and-false (m.id == current))
  | inr other ↦ absurd (cc)
]

of_user-rename :
    (current id : String) (ms : List ChatMessage)
    → of_user (map (λ m. if is_assistant_with current m then record m { id = id } else m) ms)
      ≡ of_user ms
of_user-rename current id [] = refl
of_user-rename current id (m ∷ ms) = elim (Bool-cases (is_user m)) [
  | inl mine ↦
      rw (user_or_assistant current m mine, mine) (ap (◌∷◌ m) (of_user-rename current id ms))
  | inr other ↦ ground (arith, of_user-rename current id ms)
]

of_user-append :
    (ms : List ChatMessage) (id : String) (now : ℕ)
    → of_user (ms ++ create_text_message assistant "" id now ∷ []) ≡ of_user ms
unfolding create_text_message
of_user-append [] id now = refl
of_user-append (m ∷ ms) id now = ground (arith, of_user-append ms id now)

of_user-reconcile :
    (t : Transition) (id : String) (current : Option String) (now : ℕ)
    → of_user (reconcile t id current now).snapshot.messages ≡ of_user t.snapshot.messages
unfolding reconcile
of_user-reconcile t id none now = of_user-append t.snapshot.messages id now
of_user-reconcile t id (some current) now = elim (Bool-cases (current == id)) [
  | inl same ↦ rw same refl
  | inr other ↦ rw other (of_user-rename current id t.snapshot.messages)
]

of_user-reconcile_to :
    (t : Transition) (message_id : Option String) (now : ℕ)
    → of_user (reconcile_to t message_id now).snapshot.messages ≡ of_user t.snapshot.messages
unfolding reconcile_to
of_user-reconcile_to t none now = refl
of_user-reconcile_to t (some id) now = of_user-reconcile t id (truthy? t.assistant_id) now

-- The bubble that a frame with `message_id` goes to.
abbrev pub addressed : Transition → Option String → Option String
addressed t message_id = or_else (truthy? message_id) (truthy? t.assistant_id)

truthy?-reconcile :
    (t : Transition) (id : String) (current : Option String) (now : ℕ)
    → truthy? (some id) ≡ some id
    → truthy? t.assistant_id ≡ current
    → truthy? (reconcile t id current now).assistant_id ≡ some id
unfolding reconcile
truthy?-reconcile t id none now h e = h
truthy?-reconcile t id (some current) now h e = elim (Bool-cases (current == id)) [
  | inl same ↦ rw same (e ∙ ap some ((==_iff current id).0 same))
  | inr other ↦ rw other h
]

truthy?-some : (o : Option String) (id : String) → truthy? o ≡ some id → truthy? (some id) ≡ some id
truthy?-some none id h = cc
truthy?-some (some s) id h = elim (Bool-cases (s == "")) [
  | inl empty ↦ absurd (ground arith)
  | inr full ↦ let same : s ≡ id = ground arith in rw (← same, full) refl
]

truthy?-reconcile_to :
    (t : Transition) (message_id : Option String) (now : ℕ)
    → truthy? (reconcile_to t (truthy? message_id) now).assistant_id ≡ addressed t message_id
unfolding reconcile_to
truthy?-reconcile_to t message_id now = elim (Option-cases (truthy? message_id)) [
  | inl none_set ↦ rw none_set refl
  | inr (id, set) ↦
      rw set
        (truthy?-reconcile t id (truthy? t.assistant_id) now (truthy?-some message_id id set) refl)
]

some-inj : {a b : Option String} → some a ≡ some b → a ≡ b
some-inj e = cc

-- A change of the parts of one message.
abbrev ByParts : (String → Snapshot → List ChatMessage) → Type 0
ByParts change =
    (id : String) (s : Snapshot)
    → any (has_id id) (of_user s.messages) ≡ false
    → of_user (change id s) ≡ of_user s.messages

of_user-content_to :
    (t : Transition) (bubble : Option String) (change : String → Snapshot → List ChatMessage)
    → ByParts change
    → Apart bubble t.snapshot.messages
    → of_user (content_to t bubble change).snapshot.messages ≡ of_user t.snapshot.messages
unfolding content_to
of_user-content_to t none change by apart = refl
of_user-content_to t (some id) change by apart = by id t.snapshot apart

Apart-of_user :
    (bubble : Option String) (ms ns : List ChatMessage)
    → of_user ms ≡ of_user ns
    → Apart bubble ns
    → Apart bubble ms
Apart-of_user none ms ns e h = refl
Apart-of_user (some id) ms ns e h = rw e h

of_user-content :
    (t : Transition) (message_id : Option String) (now : ℕ)
    (change : String → Snapshot → List ChatMessage)
    → ByParts change
    → Apart (addressed t message_id) t.snapshot.messages
    → of_user (content t message_id now change).snapshot.messages ≡ of_user t.snapshot.messages
unfolding content reconcile_assistant_id
of_user-content t message_id now change by apart =
    let r : Transition = reconcile_to t (truthy? message_id) now in
    let same = of_user-reconcile_to t (truthy? message_id) now in
    of_user-content_to r (truthy? r.assistant_id) change by (
      rw (truthy?-reconcile_to t message_id now)
        (Apart-of_user (addressed t message_id) r.snapshot.messages t.snapshot.messages same apart))
    ∙ same

-- The frames that carry content for a bubble, with their `messageId`.
abbrev pub message_id_of : Event → Option (Option String)
message_id_of (delta_text added id) = some id
message_id_of (reasoning_text e id) = some id
message_id_of (reasoning_summary p id) = some id
message_id_of (tool_part part id) = some id
message_id_of (payload_part part id) = some id
message_id_of _ = none

-- A content frame whose bubble has no message of the user under its id leaves every message of the
-- user as it is, in its order: text, reasoning, tools and payloads only reach the assistant.
pub apply-of_user :
    (t : Transition) (event : Event) (now : ℕ) (message_id : Option String)
    → message_id_of event ≡ some message_id
    → Apart (addressed t message_id) t.snapshot.messages
    → of_user (apply_chat_stream_event t event now).snapshot.messages ≡ of_user t.snapshot.messages
unfolding apply_chat_stream_event append_assistant_delta apply_assistant_reasoning_text
    upsert_assistant_reasoning_presentation upsert_assistant_tool_part upsert_assistant_payload_part
apply-of_user t (delta_text added id) now message_id h apart =
    of_user-content t id now _ (λ b s. of_user-update_parts _ b s.messages) (rw (some-inj h) apart)
apply-of_user t (reasoning_text e id) now message_id h apart =
    of_user-content t id now _ (λ b s. of_user-update_parts _ b s.messages) (rw (some-inj h) apart)
apply-of_user t (reasoning_summary p id) now message_id h apart =
    of_user-content t id now _
      (λ b s a. elim (Bool-cases (has_reasoning_summary s.adapter_capabilities)) [
        | inl shown ↦ rw shown (of_user-update_parts _ b s.messages a)
        | inr hidden ↦ rw hidden refl
      ])
      (rw (some-inj h) apart)
apply-of_user t (tool_part part id) now message_id h apart =
    of_user-content t id now _ (λ b s. of_user-update_parts _ b s.messages) (rw (some-inj h) apart)
apply-of_user t (payload_part part id) now message_id h apart =
    of_user-content t id now _ (λ b s. of_user-update_parts _ b s.messages) (rw (some-inj h) apart)
apply-of_user t _ now message_id h apart = absurd (cc)
