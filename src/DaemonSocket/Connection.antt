-- ===== src/DaemonSocket/Connection.antt =====
-- web/server/src/daemon-socket-client.ts: the ends of a socket (#fail, close), connections, the waiters for
-- a hello, and the steps of a client.
use fleet_prime_agent.Prelude.{
  ℕ, String, Bool, true, false, not, List, [], ◌∷◌, ◌++◌, Option, none, some, nat_eq, if◌then◌else◌,
  any, is_some, filter,
}
use fleet_prime_agent.Prelude.Dict.{Dict, delete}
use fleet_prime_agent.Prelude.Json.{Value, Fields}
use fleet_prime_agent.DaemonSocket.{
  Session, Client, unknown, broken, settle, is_connected, remember_unless_read_only, is_read_only,
  request, expire,
}
use fleet_prime_agent.DaemonSocket.Frames.{greet_all, on_data}

-- The loop of `#fail` over the requests that wait; the map is cleared behind it.
unfoldable pub fail_each : String → Dict String → Session → Session
unfolding settle
fail_each error [] s = record s { pending = [] }
fail_each error ((id, type) ∷ rest) s =
    let s' = record s { timers = delete id s.timers } in
    fail_each error rest (
      settle (remember_unless_read_only s' id type) id
        (if is_read_only type then broken error else unknown))

unfoldable pub fail_open : String → Session → Session
unfolding greet_all
fail_open error s = fail_each error s.pending (record s {
  closed_error = some error;
  greeted = s.greeted ++ greet_all s.hello_waiters none;
  hello_waiters = [];
})

unfoldable pub fail_as : Option String → String → Session → Session
unfolding fail_open
fail_as (some before) error s = s
fail_as none error s = fail_open error s

-- `#fail`
unfoldable pub fail : Session → String → Session
unfolding fail_as
fail s error = fail_as s.closed_error error s

unfoldable pub is_current : Option ℕ → ℕ → Bool
is_current none n = false
is_current (some m) n = nat_eq m n

-- A socket's `error` or `close` event; `none` of the socket is left.
unfoldable pub lose : Session → ℕ → String → Session
lose s n error =
    if is_current s.socket n then fail (record s { socket = none; connected = false }) error else s

unfoldable pub destroy : Option ℕ → Session → Session
destroy none s = s
destroy (some n) s = record s { destroyed = n ∷ s.destroyed }

-- The time of a connection attempt has passed.
unfoldable pub time_out : Session → ℕ → String → Session
time_out s n error =
    destroy (some n) (if is_current s.socket n then fail (record s { socket = none }) error else s)

-- A socket's `connect` event
unfoldable pub connected_on : Session → ℕ → Session
connected_on s n = if is_current s.socket n then record s { connected = true } else s

-- `connect` where it opens a socket: not closed, not connected, and no attempt under way.
unfoldable pub open_socket : Session → ℕ → Session
open_socket s n =
    if s.permanently_closed
    then s
    else if is_connected s
    then s
    else if is_some s.closed_error
    then s
    else record s { socket = some n }

-- The client without its socket, as `reconnect` leaves it before it connects.
unfoldable pub unlinked : Session → Session
unlinked s = record s { socket = none; connected = false; hello = none; closed_error = none }

unfoldable pub restart_as : Bool → Bool → Client → ℕ → Client
restart_as true connected c n = c
restart_as false true c n = c
restart_as false false c n = record {
  buffer = "";
  session = open_socket (destroy c.session.socket (unlinked c.session)) n;
}

-- `reconnect` where no socket is connected and no attempt is under way, to where it connects
unfoldable pub restart : Client → ℕ → Client
restart c n = restart_as c.session.permanently_closed (is_connected c.session) c n

-- `close`
unfoldable pub close : Session → Session
close s =
    if s.permanently_closed
    then s
    else let failed =
        fail (record s { permanently_closed = true }) "The Prime Agent daemon client was closed" in
      destroy failed.socket (record failed { socket = none; connected = false })

unfoldable pub wait_as : Option Fields → Option String → Session → ℕ → Session
wait_as (some hello) error s waiter = record s { greeted = s.greeted ++ (waiter, some hello) ∷ [] }
wait_as none (some error) s waiter = record s { greeted = s.greeted ++ (waiter, none) ∷ [] }
wait_as none none s waiter = record s { hello_waiters = s.hello_waiters ++ waiter ∷ [] }

-- `waitForHello`, for a new waiter
unfoldable pub wait_for_hello : Session → ℕ → Session
unfolding wait_as
wait_for_hello s waiter = wait_as s.hello s.closed_error s waiter

-- The time of a waiter has passed.
unfoldable pub give_up : Session → ℕ → Session
give_up s waiter =
    if any (nat_eq waiter) s.hello_waiters
    then record s {
      hello_waiters = filter (λ other. not (nat_eq other waiter)) s.hello_waiters;
      greeted = s.greeted ++ (waiter, none) ∷ [];
    }
    else s

-- A socket's `data` event
unfoldable pub receive : (String → Option Value) → Client → ℕ → String → Client
receive parse c n chunk = if is_current c.session.socket n then on_data parse c chunk else c

pub data Step : Type 0 where
  requests : String → Bool → Step
  expires : String → Step
  receives : ℕ → String → Step
  opens restarts connects : ℕ → Step
  loses times_out : ℕ → String → Step
  closes : Step
  waits gives_up : ℕ → Step

abbrev on_session : Client → (Session → Session) → Client
on_session c f = record c { session = f c.session }

-- One call of the client, or one callback.
unfoldable pub step : (String → Option Value) → Client → Step → Client
step parse c (requests type writes) = on_session c (λ s. request s type writes)
step parse c (expires id) = on_session c (λ s. expire s id)
step parse c (receives n chunk) = receive parse c n chunk
step parse c (opens n) = on_session c (λ s. open_socket s n)
step parse c (restarts n) = restart c n
step parse c (connects n) = on_session c (λ s. connected_on s n)
step parse c (loses n error) = on_session c (λ s. lose s n error)
step parse c (times_out n error) = on_session c (λ s. time_out s n error)
step parse c closes = on_session c close
step parse c (waits waiter) = on_session c (λ s. wait_for_hello s waiter)
step parse c (gives_up waiter) = on_session c (λ s. give_up s waiter)

unfoldable pub run : (String → Option Value) → Client → List Step → Client
run parse c [] = c
run parse c (next ∷ steps) = run parse (step parse c next) steps
