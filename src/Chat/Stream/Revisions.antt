-- ===== src/Chat/Stream/Revisions.antt =====
-- The presentation that a stream shows never goes back to an older revision.
use fleet_prime_agent.Prelude.{
  ℕ, ◌≤◌, ◌≡◌, refl, ap, ◌∙◌, String, Bool, true, false, List, [], ◌∷◌, Option, none, some, arith,
  ◌==◌, not, all, find, Bool-cases, inl, inr,
}
use fleet_prime_agent.Prelude.Text.{truthy?}
use fleet_prime_agent.Prelude.Json.{Value}
use fleet_prime_agent.Chat.{
  Role, user, assistant, ChatMessage, RlmChild, SessionPresentation, Snapshot, Transition, Done,
  Event, session_snapshot, presentation, rlm, message, start, delta_text, reasoning_text,
  reasoning_summary, tool_part, payload_part, done,
}
use fleet_prime_agent.Chat.InFlight.{reconcile, reconcile_to, reconcile_assistant_id}
use fleet_prime_agent.Chat.Stream.{
  revision_of, apply_presentation, is_newer, apply_rlm_to, apply_message, apply_message_as,
  settle_turn, apply_assistant_message, content_to, content, newer_presentation, apply_start,
  apply_done, apply_chat_stream_event, apply_all,
}

-- The revision that the browser shows.
abbrev pub shown : Transition → ℕ
shown t = revision_of t.snapshot.presentation

-- A snapshot of the session restarts the count.
abbrev pub is_session_snapshot : Event → Bool
is_session_snapshot (session_snapshot session messages p) = true
is_session_snapshot _ = false

presentation-reconcile :
    (t : Transition) (id : String) (current : Option String) (now : ℕ)
    → (reconcile t id current now).snapshot.presentation ≡ t.snapshot.presentation
unfolding reconcile
presentation-reconcile t id none now = refl
presentation-reconcile t id (some current) now = ground arith

presentation-reconcile_to :
    (t : Transition) (message_id : Option String) (now : ℕ)
    → (reconcile_to t message_id now).snapshot.presentation ≡ t.snapshot.presentation
unfolding reconcile_to
presentation-reconcile_to t none now = refl
presentation-reconcile_to t (some id) now = presentation-reconcile t id (truthy? t.assistant_id) now

presentation-content_to :
    (t : Transition) (bubble : Option String) (change : String → Snapshot → List ChatMessage)
    → (content_to t bubble change).snapshot.presentation ≡ t.snapshot.presentation
unfolding content_to
presentation-content_to t none change = refl
presentation-content_to t (some id) change = refl

presentation-content :
    (t : Transition) (message_id : Option String) (now : ℕ)
    (change : String → Snapshot → List ChatMessage)
    → (content t message_id now change).snapshot.presentation ≡ t.snapshot.presentation
unfolding content reconcile_assistant_id
presentation-content t message_id now change =
    let r : Transition = reconcile_to t (truthy? message_id) now in
    presentation-content_to r (truthy? r.assistant_id) change
    ∙ presentation-reconcile_to t (truthy? message_id) now

presentation-apply_message_as :
    (role : Role) (t : Transition) (next : ChatMessage) (now : ℕ)
    → (apply_message_as role t next now).snapshot.presentation ≡ t.snapshot.presentation
unfolding apply_message_as apply_assistant_message reconcile_assistant_id
presentation-apply_message_as user t next now = refl
presentation-apply_message_as assistant t next now =
    presentation-reconcile_to t (truthy? (some next.id)) now

shown-apply_rlm_to :
    (t : Transition) (p : Option SessionPresentation) (child : RlmChild) (tree : Option Value)
    → t.snapshot.presentation ≡ p
    → shown (apply_rlm_to t p child tree) ≡ shown t
unfolding apply_rlm_to
shown-apply_rlm_to t none child tree e = refl
shown-apply_rlm_to t (some p) child tree e =
    elim (Bool-cases (is_newer (find (λ c. c.id == child.id) p.rlm_children) child)) [
      | inl stale ↦ rw stale refl
      | inr fresh ↦ rw (fresh, e) refl
    ]

newer_presentation-le :
    (p current : Option SessionPresentation)
    → revision_of current ≤ revision_of (newer_presentation p current)
newer_presentation-le none current = omega arith
newer_presentation-le (some p) current = ground arith

shown-apply_done : (t : Transition) (e : Done) → shown t ≤ shown (apply_done t e)
unfolding apply_done settle_turn
shown-apply_done t e = elim (Bool-cases e.session_reset) [
  | inl reset ↦ rw reset (omega arith)
  | inr real ↦ rw real (newer_presentation-le e.presentation t.snapshot.presentation)
]

same_le : (a b : ℕ) → b ≡ a → a ≤ b
same_le a b e = omega arith

-- No frame but a snapshot of the session takes the presentation back to an older revision.
pub apply-shown_le :
    (t : Transition) (event : Event) (now : ℕ)
    → is_session_snapshot event ≡ false
    → shown t ≤ shown (apply_chat_stream_event t event now)
unfolding apply_chat_stream_event apply_presentation apply_message apply_start
apply-shown_le t (session_snapshot session messages p) now h = absurd (cc)
apply-shown_le t (presentation p) now h = ground arith
apply-shown_le t (rlm child tree) now h =
    same_le _ _ (shown-apply_rlm_to t t.snapshot.presentation child tree refl)
apply-shown_le t (message next) now h =
    same_le _ _ (ap revision_of (presentation-apply_message_as next.role t next now))
apply-shown_le t (delta_text added id) now h =
    same_le _ _ (ap revision_of (presentation-content t id now _))
apply-shown_le t (reasoning_text e id) now h =
    same_le _ _ (ap revision_of (presentation-content t id now _))
apply-shown_le t (reasoning_summary p id) now h =
    same_le _ _ (ap revision_of (presentation-content t id now _))
apply-shown_le t (tool_part part id) now h =
    same_le _ _ (ap revision_of (presentation-content t id now _))
apply-shown_le t (payload_part part id) now h =
    same_le _ _ (ap revision_of (presentation-content t id now _))
apply-shown_le t (done e) now h = shown-apply_done t e
apply-shown_le t (start e) now h = omega arith
apply-shown_le t _ now h = omega arith

-- Over a whole stream without a snapshot of the session, every revision shown is at least the one
-- shown before it.
pub apply_all-shown_le :
    (t : Transition) (events : List (Event × ℕ))
    → all (λ e. not (is_session_snapshot e.0)) events ≡ true
    → shown t ≤ shown (apply_all t events)
unfolding apply_all
apply_all-shown_le t [] h = omega arith
apply_all-shown_le t ((event, now) ∷ events) h = omega (
  arith,
  apply-shown_le t event now (ground arith),
  apply_all-shown_le (apply_chat_stream_event t event now) events (ground arith),
)
