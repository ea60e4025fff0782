-- ===== src/SequenceGap/Updates.antt =====
-- web/server/src/daemon-sequence-gap.ts: how a frame is told to be the update of a message.
use fleet_prime_agent.Prelude.{
  Bool-cases, if◌then◌else◌, or_else, Option, none, ◌&&◌, ◌≡◌, refl, String, Bool, true, false,
  some, ◌==◌, inl, inr, Option-cases,
}
use fleet_prime_agent.Prelude.Json.{
  null, bool, num, str, obj, arr, number_of, Value, Fields, field_of, record_of, string_of,
}
use mathlib.Core.Path.{subst}
use fleet_prime_agent.SequenceGap.{
  is_text, meta_position, cursor_of, baseline_view, set_baseline, binding_view, event_view,
  response_view, attaches, attached_view, meta_view, is_update, record_view, Position, View,
  ignored, event, view,
}

-- The `type` of a record is this text.
abbrev type_is : String → Option Fields → Bool
type_is text none = false
type_is text (some fields) = elim (string_of (field_of fields "type")) [
  | none ↦ false
  | some s ↦ s == text
]

abbrev event_in : Option Fields → Option Fields
event_in none = none
event_in (some fields) = record_of (field_of fields "event")

-- The frame is the update of a message of a session.
abbrev pub is_message_update : Value → Bool
is_message_update frame =
    type_is "session_event" (record_of (some frame))
    && type_is "message_update" (event_in (record_of (some frame)))

-- A view that marks its frame an update exactly where it is one.
Marks : Bool → View → Type 0
Marks b (event s c closes u) = u ≡ b
Marks b _ = Unit {0}

baseline-Marks : (b : Bool) (s : Option String) (p : Option Position) → Marks b (baseline_view s p)
unfolding baseline_view Marks
baseline-Marks b none none = tt
baseline-Marks b none (some p) = tt
baseline-Marks b (some s) none = tt
baseline-Marks b (some s) (some p) = tt

set_baseline-Marks : (b : Bool) (s n c : Option Value) → Marks b (set_baseline s n c)
unfolding set_baseline
set_baseline-Marks b s n c = baseline-Marks b (string_of s) _

binding-Marks : (b : Bool) (s : Option String) → Marks b (binding_view s)
unfolding binding_view Marks
binding-Marks b none = tt
binding-Marks b (some s) = tt

event-Marks :
    (b : Bool) (s : Option String) (p : Option Position) (closes : Bool)
    → Marks b (event_view s p closes b)
unfolding event_view Marks
event-Marks b none none closes = tt
event-Marks b none (some p) closes = tt
event-Marks b (some s) none closes = tt
event-Marks b (some s) (some p) closes = elim (Bool-cases (s == "")) [
  | inl empty ↦ rw empty tt
  | inr named ↦ rw named refl
]

ignored-Marks : (b : Bool) → Marks b ignored
unfolding Marks
ignored-Marks b = tt

if-Marks : (b c : Bool) (v : View) → Marks b v → Marks b (if c then v else ignored)
unfolding Marks
if-Marks b true v h = h
if-Marks b false v h = tt

attached-Marks : (b : Bool) (d : Fields) → Marks b (attached_view d)
unfolding attached_view set_baseline
attached-Marks b d = baseline-Marks b (string_of (field_of d "activeSessionId")) _

response-Marks : (b : Bool) (f : Fields) (d : Option Fields) → Marks b (response_view f d)
unfolding response_view
response-Marks b f none = ignored-Marks b
response-Marks b f (some d) = if-Marks b (attaches f) (attached_view d) (attached-Marks b d)

meta-Marks : (f : Fields) (m : Option Fields) → Marks (is_update f) (meta_view f m)
unfolding meta_view
meta-Marks f none = ignored-Marks (is_update f)
meta-Marks f (some m) =
    event-Marks (is_update f)
      (or_else (string_of (field_of f "activeSessionId"))
        (string_of (field_of m "activeSessionId")))
      (meta_position (cursor_of (field_of m "cursor")) (string_of (field_of m "generation"))
        (number_of (field_of m "sequence")))
      (is_text (field_of f "type") "session_closed")

is_update-frame : (f : Fields) → is_update f ≡ is_message_update (obj f)
unfolding is_update
is_update-frame f = elim (Option-cases (record_of (field_of f "event"))) [
  | inl missing ↦ rw missing refl
  | inr (e, found) ↦ rw found refl
]

record-Marks : (f : Fields) → Marks (is_update f) (record_view (some f))
unfolding record_view
record-Marks f = elim (Bool-cases (is_text (field_of f "type") "session_binding")) [
  | inl binds ↦
      rw binds (binding-Marks (is_update f) (string_of (field_of f "previousActiveSessionId")))
  | inr b ↦ elim (Bool-cases (is_text (field_of f "type") "session_snapshot_end")) [
    | inl ends ↦
        rw (b, ends)
          (set_baseline-Marks (is_update f) (field_of f "activeSessionId")
            (field_of f "lastEventSequence") (field_of f "lastEventCursor"))
    | inr s ↦ elim (Bool-cases (is_text (field_of f "type") "response")) [
      | inl answers ↦
          rw (b, s, answers) (response-Marks (is_update f) f (record_of (field_of f "data")))
      | inr r ↦ rw (b, s, r) (meta-Marks f (record_of (field_of f "meta")))
    ]
  ]
]

view-Marks : (frame : Value) → Marks (is_message_update frame) (view frame)
unfolding view record_view Marks
view-Marks (obj f) =
    subst (λ (b : Bool). Marks b (record_view (some f))) (is_update-frame f) (record-Marks f)
view-Marks null = tt
view-Marks (bool b) = tt
view-Marks (num n) = tt
view-Marks (str s) = tt
view-Marks (arr items) = tt

pub view-update :
    (frame : Value) (s : String) (c : Position) (closes u : Bool)
    → view frame ≡ event s c closes u
    → u ≡ is_message_update frame
unfolding Marks
view-update frame s c closes u e = subst (Marks (is_message_update frame)) e (view-Marks frame)
