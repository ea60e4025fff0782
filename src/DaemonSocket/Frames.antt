-- ===== src/DaemonSocket/Frames.antt =====
-- web/server/src/daemon-socket-client.ts: the lines that a client reads (#onData, #onLine), with the tests
-- of frames in web/server/src/daemon-protocol.ts. `JSON.parse` is an argument, `none` where it throws.
use fleet_prime_agent.Prelude.{
  ℕ, String, Bool, true, false, ◌&&◌, List, [], ◌∷◌, ◌++◌, Option, none, some, ◌==◌, if◌then◌else◌,
  is_some,
}
use fleet_prime_agent.Prelude.Text.{◌<>◌, trim, truthy?}
use fleet_prime_agent.Prelude.Dict.{lookup, delete}
use fleet_prime_agent.Prelude.Json.{Value, bool, Fields, field_of, record_of, string_of, number_of}
use fleet_prime_agent.DaemonSocket.Lines.{split_lines}
use fleet_prime_agent.DaemonSocket.{
  Session, Client, answered, settle, withdraw, acknowledge_unless_read_only,
}

unfoldable pub respond_unknown : Option String → Session → String → Fields → Session
respond_unknown none s id frame = record s { delivered = s.delivered ++ frame ∷ [] }
respond_unknown (some type) s id frame =
    acknowledge_unless_read_only (record s { unacknowledged = delete id s.unacknowledged }) id type

-- A response goes to its request; else it may settle an outcome that was unknown; else it is a frame
-- for the listeners.
unfoldable pub respond_as : Option String → Session → String → Fields → Session
unfolding respond_unknown settle
respond_as (some type) s id frame =
    settle (acknowledge_unless_read_only (withdraw s id) id type) id (answered frame)
respond_as none s id frame =
    respond_unknown
      (elim (lookup id s.unacknowledged) [ none ↦ none | some type ↦ truthy? (some type) ]) s id
      frame

unfoldable pub greet_all : List ℕ → Option Fields → List (ℕ × Option Fields)
greet_all [] hello = []
greet_all (waiter ∷ waiters) hello = (waiter, hello) ∷ greet_all waiters hello

unfoldable pub greet : Session → Fields → Session
unfolding greet_all
greet s frame = record s {
  hello = some frame;
  greeted = s.greeted ++ greet_all s.hello_waiters (some frame);
  hello_waiters = [];
}

abbrev has_type : Fields → String → Bool
has_type frame type = elim (string_of (field_of frame "type")) [ none ↦ false | some t ↦ t == type ]

abbrev is_bool : Option Value → Bool
is_bool (some (bool b)) = true
is_bool _ = false

unfoldable pub hello_protocol : Option Fields → Bool
hello_protocol none = false
hello_protocol (some protocol) =
    is_some (string_of (field_of protocol "name"))
    && is_some (number_of (field_of protocol "version"))

-- `isDaemonHelloFrame` and `isDaemonResponseFrame`, of a frame that is a record
unfoldable pub is_daemon_hello_frame : Fields → Bool
unfolding hello_protocol
is_daemon_hello_frame frame =
    has_type frame "daemon_hello" && hello_protocol (record_of (field_of frame "protocol"))

unfoldable pub is_daemon_response_frame : Fields → Bool
is_daemon_response_frame frame = has_type frame "response" && is_bool (field_of frame "success")

unfoldable pub response_id : Fields → Option String
unfolding is_daemon_response_frame
response_id frame =
    if is_daemon_response_frame frame then truthy? (string_of (field_of frame "id")) else none

unfoldable pub dispatch_as : Option String → Session → Fields → Session
unfolding respond_as
dispatch_as (some id) s frame = respond_as (lookup id s.pending) s id frame
dispatch_as none s frame = record s { delivered = s.delivered ++ frame ∷ [] }

-- `#onLine` for a frame
unfoldable pub dispatch : Session → Fields → Session
dispatch s frame =
    dispatch_as (response_id frame) (if is_daemon_hello_frame frame then greet s frame else s) frame

unfoldable pub typed_frame : Option Fields → Option Fields
typed_frame none = none
typed_frame (some frame) = if is_some (string_of (field_of frame "type")) then some frame else none

-- `parseDaemonFrameLine`
unfoldable pub parse_daemon_frame_line : (String → Option Value) → String → Option Fields
unfolding typed_frame
parse_daemon_frame_line parse line =
    let trimmed = trim line in
    if trimmed == "" then none else typed_frame (record_of (parse trimmed))

unfoldable pub on_frame : Option Fields → Session → Session
on_frame none s = s
on_frame (some frame) s = dispatch s frame

-- `#onLine`
unfoldable pub on_line : (String → Option Value) → Session → String → Session
on_line parse s line = on_frame (parse_daemon_frame_line parse line) s

unfoldable pub on_lines : (String → Option Value) → Session → List String → Session
on_lines parse s [] = s
on_lines parse s (line ∷ lines) = on_lines parse (on_line parse s line) lines

-- `#onData`
unfoldable pub on_data : (String → Option Value) → Client → String → Client
on_data parse c chunk =
    let split = split_lines (c.buffer <> chunk) in
    record { buffer = split.rest; session = on_lines parse c.session split.lines }
