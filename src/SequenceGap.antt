-- ===== src/SequenceGap.antt =====
-- web/server/src/daemon-sequence-gap.ts: the tracker that notices daemon frames lost on the way.
-- A frame is a JSON value; its sequence numbers are natural and do not wrap. `onGap` is called with
-- the gap that `observe` returns, so the model returns it only.
pub mod Accounting
pub mod Isolation
pub mod Updates
pub mod Reports
mod Tests
use fleet_prime_agent.Prelude.{
  ℕ, ◌+◌, ◌-◌, String, Bool, true, false, not, ◌&&◌, ◌||◌, List, [], ◌∷◌, Option, none, some, ltb,
  leb, ◌==◌, if◌then◌else◌, or_else, get_or,
}
use fleet_prime_agent.Prelude.Dict.{Dict, lookup, insert, delete}
use fleet_prime_agent.Prelude.Json.{
  Value, obj, bool, Fields, end, field_of, record_of, string_of, number_of, or_value,
}

pub record Position : Type 0 where
  pub generation : Option String
  pub sequence : ℕ

pub record DaemonSequenceGap : Type 0 where
  pub active_session_id : String
  pub generation : Option String
  pub last_sequence : ℕ
  pub received_sequence : ℕ
  pub missing : ℕ

abbrev pub Positions : Type 0
Positions = Dict Position

-- What a frame asks of the tracker, once its fields are read.
pub data View : Type 0 where
  ignored : View
  unbinds : String → View
  rebases : String → Position → View
  -- The session, its position, and whether the frame closes it or is a `message_update`.
  event : String → Position → Bool → Bool → View

abbrev pub is_text : Option Value → String → Bool
is_text v text = elim (string_of v) [ none ↦ false | some s ↦ s == text ]

-- `cursorOf`
cursor_at : Option ℕ → Option Value → Option Position
cursor_at none generation = none
cursor_at (some sequence) generation =
    some (record { generation = string_of generation; sequence = sequence })

cursor_of : Option Value → Option Position
unfolding cursor_at
cursor_of v = elim (record_of v) [
  | none ↦ none
  | some fs ↦ cursor_at (number_of (field_of fs "sequence")) (field_of fs "generation")
]

-- The baseline of `setBaseline`: the cursor, or else the bare sequence.
bare_position : Option ℕ → Option Position
bare_position none = none
bare_position (some n) = some (record { generation = none; sequence = n })

unfoldable baseline_view : Option String → Option Position → View
baseline_view (some session) (some position) = rebases session position
baseline_view _ _ = ignored

unfoldable set_baseline : Option Value → Option Value → Option Value → View
unfolding cursor_of bare_position baseline_view
set_baseline session sequence cursor =
    baseline_view (string_of session)
      (or_else (cursor_of cursor) (bare_position (number_of sequence)))

-- `case "session_binding"`
unfoldable binding_view : Option String → View
binding_view none = ignored
binding_view (some previous) = unbinds previous

-- `isRecord(data.snapshot) ? data.snapshot : {}`
snapshot_fields : Fields → Fields
snapshot_fields data_fields = get_or (record_of (field_of data_fields "snapshot")) end

-- `frame.command === "attach" && frame.success === true`
unfoldable attaches : Fields → Bool
attaches f =
    is_text (field_of f "command") "attach"
    && (elim (field_of f "success") [ some (bool true) ↦ true | _ ↦ false ])

attached_view : Fields → View
unfolding set_baseline snapshot_fields
attached_view d =
    set_baseline (field_of d "activeSessionId")
      (or_value (field_of d "lastEventSequence") (field_of (snapshot_fields d) "lastEventSequence"))
      (or_value (field_of d "lastEventCursor") (field_of (snapshot_fields d) "lastEventCursor"))

-- `case "response"`
unfoldable response_view : Fields → Option Fields → View
unfolding attached_view attaches
response_view f none = ignored
response_view f (some d) = if attaches f then attached_view d else ignored

-- The position of a frame: `{ ...fromCursor, generation: fromCursor.generation ?? metaGeneration }`,
-- or the bare sequence under the generation of `meta`.
unfoldable meta_position : Option Position → Option String → Option ℕ → Option Position
meta_position (some c) generation sequence =
    some (record { generation = or_else c.generation generation; sequence = c.sequence })
meta_position none generation (some n) = some (record { generation = generation; sequence = n })
meta_position none generation none = none

unfoldable event_view : Option String → Option Position → Bool → Bool → View
event_view (some session) (some current) closes update =
    if session == "" then ignored else event session current closes update
event_view _ _ closes update = ignored

-- `frame.type === "session_event" && isRecord(frame.event) && frame.event.type === "message_update"`
unfoldable is_update : Fields → Bool
is_update f =
    is_text (field_of f "type") "session_event" && (elim (record_of (field_of f "event")) [
      | none ↦ false
      | some e ↦ is_text (field_of e "type") "message_update"
    ])

-- The frames with no case of their own.
unfoldable meta_view : Fields → Option Fields → View
unfolding cursor_of meta_position event_view is_update
meta_view f none = ignored
meta_view f (some meta) =
    event_view
      (or_else (string_of (field_of f "activeSessionId"))
        (string_of (field_of meta "activeSessionId")))
      (meta_position (cursor_of (field_of meta "cursor")) (string_of (field_of meta "generation"))
        (number_of (field_of meta "sequence")))
      (is_text (field_of f "type") "session_closed") (is_update f)

unfoldable record_view : Option Fields → View
unfolding set_baseline binding_view response_view meta_view
record_view none = ignored
record_view (some f) =
    if is_text (field_of f "type") "session_binding"
    then binding_view (string_of (field_of f "previousActiveSessionId"))
    else if is_text (field_of f "type") "session_snapshot_end"
    then set_baseline (field_of f "activeSessionId") (field_of f "lastEventSequence")
        (field_of f "lastEventCursor")
    else if is_text (field_of f "type") "response"
    then response_view f (record_of (field_of f "data"))
    else meta_view f (record_of (field_of f "meta"))

unfoldable pub view : Value → View
unfolding record_view
view frame = record_view (record_of (some frame))

-- Equal generations, or one that is not known.
pub generations_agree : Option String → Option String → Bool
generations_agree (some g) (some h) = g == h
generations_agree _ _ = true

pub same_generation : Option Position → Position → Bool
unfolding generations_agree
same_generation none current = false
same_generation (some previous) current = generations_agree previous.generation current.generation

-- `!previous || !sameGeneration || current.sequence > previous.sequence`
pub moves_on : Option Position → Position → Bool
unfolding same_generation
moves_on none current = true
moves_on (some previous) current =
    not (same_generation (some previous) current) || ltb previous.sequence current.sequence

pub track : Positions → String → Position → Bool → Positions
unfolding moves_on
track positions session current closes =
    if closes
    then delete session positions
    else if moves_on (lookup session positions) current
    then insert session current positions
    else positions

pub gap_after : Option Position → String → Position → Bool → Option DaemonSequenceGap
unfolding same_generation
gap_after none session current update = none
gap_after (some previous) session current update =
    if not (same_generation (some previous) current)
      || leb current.sequence (previous.sequence + 1)
      || update
    then none
    else some (record {
      active_session_id = session;
      generation = or_else current.generation previous.generation;
      last_sequence = previous.sequence;
      received_sequence = current.sequence;
      missing = current.sequence - previous.sequence - 1;
    })

pub handle : Positions → View → Positions × Option DaemonSequenceGap
unfolding track gap_after
handle positions ignored = (positions, none)
handle positions (unbinds previous) = (delete previous positions, none)
handle positions (rebases session position) = (insert session position positions, none)
handle positions (event session current closes update) = (
  track positions session current closes,
  gap_after (lookup session positions) session current update,
)

pub observe : Positions → Value → Positions × Option DaemonSequenceGap
unfolding handle
observe positions frame = handle positions (view frame)

-- `reset`
unfoldable pub reset : Positions → Option String → Positions
reset positions none = []
reset positions (some session) = delete session positions

-- A run of frames, with the gaps in order.
pub observe_all : Positions → List Value → Positions × List DaemonSequenceGap
observe_all positions [] = (positions, [])
observe_all positions (frame ∷ frames) =
    let (positions', gap) = observe positions frame in
    let (positions'', gaps) = observe_all positions' frames in
    (positions'', elim gap [ none ↦ gaps | some g ↦ g ∷ gaps ])
