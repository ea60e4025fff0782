-- ===== src/DaemonSocket/Tests.antt =====
-- web/server/src/daemon-socket-client.ts: a client that sends two commands, gets one answer in two chunks and
-- loses its socket.
use fleet_prime_agent.Prelude.{
  String, true, List, [], ◌∷◌, Option, none, some, ◌≡◌, refl, ◌+◌, ◌≤◌, ◌==◌, if◌then◌else◌, length,
  is_some,
}
use fleet_prime_agent.Prelude.Text.{
  ◌<>◌, decimal, decimal_from, digit, trim, trim_start, trim_end, is_blank,
}
use fleet_prime_agent.Prelude.Json.{Value, str, bool, obj, field, end}
use fleet_prime_agent.Prelude.Dict.{lookup, insert, delete}
use fleet_prime_agent.DaemonSocket.{
  unknown, answered, new, request, can_send, is_connected, usable, is_destroyed, issue, withdraw,
  write_command, settle, is_read_only, acknowledge, acknowledge_unless_read_only,
  remember_unless_read_only, remember_unknown_outcome, evict,
}
use fleet_prime_agent.DaemonSocket.Lines.{split_lines}
use fleet_prime_agent.DaemonSocket.Frames.{
  on_data, on_lines, on_line, on_frame, dispatch, dispatch_as, respond_as, response_id,
  is_daemon_hello_frame, is_daemon_response_frame, hello_protocol, parse_daemon_frame_line,
  typed_frame, greet,
}
use fleet_prime_agent.DaemonSocket.Connection.{
  Step, step, run, requests, receives, opens, connects, loses, open_socket, connected_on,
  is_current, receive, lose, fail, fail_as, fail_open, fail_each,
}
use fleet_prime_agent.DaemonSocket.Counts.{count, times}
use fleet_prime_agent.DaemonSocket.Ended.{run_settles_once}
use fleet_prime_agent.DaemonSocket.Idle.{run-unknowns-le, run_ended_settles}
use fleet_prime_agent.DaemonSocket.Framing.{on_data-append}

abbrev test_answer : Value
test_answer =
    obj
      (field "type" (str "response") (field "id" (str "fleet_1") (field "success" (bool true) end)))

-- A parser that knows one line.
abbrev test_parse : String → Option Value
test_parse line = if line == "answer" then some test_answer else none

abbrev test_steps : List Step
test_steps =
    opens 1
    ∷ connects 1
    ∷ requests "list" true
    ∷ requests "prompt" true
    ∷ receives 1 "ans"
    ∷ receives 1 "wer\nrest"
    ∷ loses 1 "reset"
    ∷ []

run_settles_once_example :
    let s = (run test_parse new test_steps).session in
    (times "fleet_1" s.requested ≤ 1)
    × (count "fleet_1" s.settled + count "fleet_1" s.pending ≡ times "fleet_1" s.requested)
    × (count "fleet_1" s.timers ≡ count "fleet_1" s.pending)
run_settles_once_example = run_settles_once test_parse test_steps "fleet_1"

run-unknowns-le_example : length (run test_parse new test_steps).session.unacknowledged ≤ 256
run-unknowns-le_example = run-unknowns-le test_parse test_steps

on_data-append_example :
    on_data test_parse (on_data test_parse new "ans") "wer\n"
    ≡ on_data test_parse new ("ans" <> "wer\n")
on_data-append_example = on_data-append test_parse new "ans" "wer\n"

-- The read is answered, the prompt's outcome is unknown.
outcomes_of_the_run :
    (run test_parse new test_steps).session.settled
    ≡ (
      "fleet_1",
      answered (
          field "type"
            (str "response")
            (field "id" (str "fleet_1") (field "success" (bool true) end))),
    )
      ∷ ("fleet_2", unknown)
      ∷ []
unfolding run step lose is_current receive request can_send usable is_destroyed issue withdraw
    write_command settle is_read_only acknowledge acknowledge_unless_read_only
    remember_unless_read_only remember_unknown_outcome evict on_data on_lines on_line on_frame
    dispatch dispatch_as respond_as response_id is_daemon_hello_frame is_daemon_response_frame
    hello_protocol parse_daemon_frame_line typed_frame greet open_socket connected_on is_connected
    fail fail_as fail_open fail_each split_lines lookup insert delete trim trim_start trim_end
    is_blank decimal decimal_from digit
outcomes_of_the_run = refl

test_ended : is_some (run test_parse new test_steps).session.closed_error ≡ true
unfolding run step lose is_current receive request can_send usable is_destroyed issue withdraw
    write_command settle is_read_only acknowledge acknowledge_unless_read_only
    remember_unless_read_only remember_unknown_outcome evict on_data on_lines on_line on_frame
    dispatch dispatch_as respond_as response_id is_daemon_hello_frame is_daemon_response_frame
    hello_protocol parse_daemon_frame_line typed_frame greet open_socket connected_on is_connected
    fail fail_as fail_open fail_each split_lines lookup insert delete trim trim_start trim_end
    is_blank decimal decimal_from digit
test_ended = refl

run_ended_settles_example :
    let s = (run test_parse new test_steps).session in
    (count "fleet_2" s.settled ≡ times "fleet_2" s.requested) × (count "fleet_2" s.timers ≡ 0)
run_ended_settles_example = run_ended_settles test_parse test_steps "fleet_2" test_ended
