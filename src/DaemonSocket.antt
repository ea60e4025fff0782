-- ===== src/DaemonSocket.antt =====
-- web/server/src/daemon-socket-client.ts, the class DaemonSocketClient: its requests, the lines that it
-- reads (Frames), and the ends of its socket (Connection). A promise is an entry of a log. The write of a
-- command may throw; that of an acknowledgement is taken not to.
pub mod Lines
pub mod Frames
pub mod Connection
pub mod Counts
pub mod Accounts
pub mod Settled
pub mod Ended
pub mod Unknowns
pub mod Idle
pub mod Framing
mod Tests
use fleet_prime_agent.Prelude.{
  ℕ, suc, String, Bool, true, false, not, ◌&&◌, List, [], ◌∷◌, ◌++◌, Option, none, some, ltb, ◌==◌,
  nat_eq, if◌then◌else◌, length, any, is_some, filter,
}
use fleet_prime_agent.Prelude.Text.{◌<>◌, decimal, trim, truthy?}
use fleet_prime_agent.Prelude.Dict.{Dict, lookup, insert, delete}
use fleet_prime_agent.Prelude.Json.{
  Value, obj, str, bool, num, Fields, field_of, record_of, string_of, number_of,
}
use fleet_prime_agent.DaemonSocket.Lines.{split_lines}

-- How the promise of a request is settled: by its response, by the passing of its time, by the error
-- that the outcome is unknown, or by the error that ended the socket.
pub data Outcome : Type 0 where
  answered : Fields → Outcome
  unanswered unknown : Outcome
  broken : String → Outcome

-- A line that was written: a command under its id, or the acknowledgement of one.
pub data Line : Type 0 where
  command : String → String → Line
  acknowledgement : String → String → Line

-- The fields of the client, and logs: what was written, the ids that `request` has given, the promises
-- that are settled, the frames that went to the listeners and the waiters for a hello that are settled.
-- A running timer holds the command of its request.
pub record Session : Type 0 where
  pub socket : Option ℕ
  pub destroyed : List ℕ
  pub connected : Bool
  pub hello : Option Fields
  pub hello_waiters : List ℕ
  pub pending : Dict String
  pub timers : Dict String
  pub unacknowledged : Dict String
  pub next_id : ℕ
  pub closed_error : Option String
  pub permanently_closed : Bool
  pub written : List Line
  pub requested : List String
  pub settled : List (String × Outcome)
  pub delivered : List Fields
  pub greeted : List (ℕ × Option Fields)

pub record Client : Type 0 where
  pub buffer : String
  pub session : Session

abbrev pub new : Client
new = record {
  buffer = "";
  session = record {
    socket = none;
    destroyed = [];
    connected = false;
    hello = none;
    hello_waiters = [];
    pending = [];
    timers = [];
    unacknowledged = [];
    next_id = 0;
    closed_error = none;
    permanently_closed = false;
    written = [];
    requested = [];
    settled = [];
    delivered = [];
    greeted = [];
  };
}

-- `READ_ONLY_DAEMON_COMMANDS`
read_only_commands : List String
read_only_commands =
    "ack_result" ∷ "list" ∷ "list_saved_sessions" ∷ "list_agent_peers"
    ∷ "get_direct_worker_transport" ∷ "attach" ∷ "reattach" ∷ "roster_subscribe"
    ∷ "roster_unsubscribe" ∷ "agent_messages_status" ∷ "wait_for_idle" ∷ "get_session_header"
    ∷ "get_state" ∷ "get_connection_state" ∷ "get_messages" ∷ "get_rlm_children"
    ∷ "get_session_stats" ∷ "get_context_tree" ∷ "get_commands" ∷ "get_resource_snapshot"
    ∷ "get_model_catalog" ∷ "get_available_models" ∷ "get_queue" ∷ "cron_list" ∷ "heartbeats_list"
    ∷ "heartbeat_get" ∷ "get_session_context" ∷ "get_session_tree" ∷ "get_user_messages_for_forking"
    ∷ "get_last_assistant_text" ∷ "get_system_prompt" ∷ "get_rlm_max_depth_status"
    ∷ "get_tool_definition" ∷ "get_mcp_connections" ∷ []

unfoldable pub is_read_only : String → Bool
unfolding read_only_commands
is_read_only type = any (λ (other : String). other == type) read_only_commands

-- The oldest entries go while there are more than 256.
unfoldable pub evict : Dict String → Dict String
evict [] = []
evict (entry ∷ entries) =
    let rest = evict entries in if ltb 256 (length (entry ∷ entries)) then rest else entry ∷ entries

-- `#rememberUnknownOutcome`
unfoldable pub remember_unknown_outcome : Session → String → String → Session
unfolding evict
remember_unknown_outcome s id type = record s {
  unacknowledged = evict (insert id type s.unacknowledged);
}

-- Only a command that may write is remembered.
unfoldable pub remember_unless_read_only : Session → String → String → Session
remember_unless_read_only s id type =
    if is_read_only type then s else remember_unknown_outcome s id type

unfoldable pub is_destroyed : Session → ℕ → Bool
is_destroyed s n = any (nat_eq n) s.destroyed

unfoldable pub usable : Session → Option ℕ → Bool
unfolding is_destroyed
usable s none = false
usable s (some n) = not (is_destroyed s n)

-- `isConnected`
unfoldable pub is_connected : Session → Bool
unfolding usable
is_connected s = s.connected && usable s s.socket

pub can_send : Session → Bool
unfolding usable
can_send s = usable s s.socket && not (is_some s.closed_error)

abbrev pub request_id : ℕ → String
request_id n = "fleet_" <> decimal n

unfoldable pub settle : Session → String → Outcome → Session
settle s id outcome = record s { settled = s.settled ++ (id, outcome) ∷ [] }

-- The promise of a request: its id, its timer and its entry.
unfoldable pub issue : Session → String → Session
issue s type =
    let id = request_id (suc s.next_id) in
    record s {
      next_id = suc s.next_id;
      requested = s.requested ++ id ∷ [];
      timers = insert id type s.timers;
      pending = insert id type s.pending;
    }

-- The entry and the timer of a request are gone.
unfoldable pub withdraw : Session → String → Session
withdraw s id = record s { timers = delete id s.timers; pending = delete id s.pending }

-- The line is written, or the write throws.
unfoldable pub write_command : Bool → Session → String → String → Session
unfolding settle
write_command true s id type = record s { written = s.written ++ command id type ∷ [] }
write_command false s id type =
    settle (remember_unless_read_only (withdraw s id) id type) id unknown

-- `request`: without a socket in use the promise is rejected, and the client stays as it is. The last
-- argument says whether the write goes through.
unfoldable pub request : Session → String → Bool → Session
request s type writes =
    if can_send s then write_command writes (issue s type) (request_id (suc s.next_id)) type else s

unfoldable pub expire_as : Option String → Session → String → Session
unfolding settle
expire_as none s id = s
expire_as (some type) s id =
    settle (remember_unless_read_only (withdraw s id) id type) id
      (if is_read_only type then unanswered else unknown)

-- The callback of a request's timer, which runs at most once, while the timer does.
unfoldable pub expire : Session → String → Session
unfolding expire_as
expire s id = expire_as (lookup id s.timers) s id

-- `#acknowledge`
unfoldable pub acknowledge : Session → String → Session
unfolding usable
acknowledge s id =
    if usable s s.socket
    then record s {
      next_id = suc s.next_id;
      written = s.written ++ acknowledgement ("fleet_ack_" <> decimal (suc s.next_id)) id ∷ [];
    }
    else s

unfoldable pub acknowledge_unless_read_only : Session → String → String → Session
acknowledge_unless_read_only s id type = if is_read_only type then s else acknowledge s id
