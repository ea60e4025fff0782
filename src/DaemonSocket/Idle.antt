-- ===== src/DaemonSocket/Idle.antt =====
-- web/server/src/daemon-socket-client.ts: the ends of a socket leave no request that waits, and no more
-- than 256 outcomes that are unknown.
use fleet_prime_agent.Prelude.{
  ℕ, ◌≤◌, ◌≡◌, refl, ap, String, Bool, true, false, List, [], ◌∷◌, Option, none, some, arith,
  Bool-cases, inl, inr, is_some, length, any, nat_eq, any, nat_eq,
}
use fleet_prime_agent.Prelude.Dict.{Dict, lookup, delete}
use fleet_prime_agent.Prelude.Json.{Value, Fields}
use fleet_prime_agent.DaemonSocket.Counts.{count, times}
use fleet_prime_agent.DaemonSocket.Ended.{run_settles_once}
use fleet_prime_agent.DaemonSocket.{Session, Client, settle, new, is_connected, expire}
use fleet_prime_agent.DaemonSocket.Frames.{on_data}
use fleet_prime_agent.DaemonSocket.Connection.{
  fail, fail_as, fail_open, fail_each, is_current, lose, destroy, time_out, connected_on,
  open_socket, unlinked, restart_as, restart, close, wait_for_hello, wait_as, give_up, receive,
  Step, step, run, requests, expires, receives, opens, restarts, connects, loses, times_out, closes,
  waits, gives_up,
}
use fleet_prime_agent.DaemonSocket.Unknowns.{
  IsTidy, remember-le, request-IsTidy, expire_as-IsTidy, on_lines-IsTidy,
}

-- The loop of `fail` leaves no request, and remembers no more than fit.
fail_each-IsTidy :
    (error : String) (entries : Dict String) (s : Session)
    → length s.unacknowledged ≤ 256
    → IsTidy (fail_each error entries s)
unfolding fail_each settle
fail_each-IsTidy error [] s le = record { bounded = le; idle = λ ended. refl }
fail_each-IsTidy error ((id, type) ∷ rest) s le =
    fail_each-IsTidy error rest _
      (remember-le (record s { timers = delete id s.timers }) id type le)

fail_as-IsTidy :
    (o : Option String) (error : String) (s : Session) → IsTidy s → IsTidy (fail_as o error s)
unfolding fail_as fail_open
fail_as-IsTidy (some before) error s h = h
fail_as-IsTidy none error s h = fail_each-IsTidy error s.pending _ h.bounded

fail-IsTidy : (s : Session) (error : String) → IsTidy s → IsTidy (fail s error)
unfolding fail
fail-IsTidy s error h = fail_as-IsTidy s.closed_error error s h

destroy-IsTidy : (o : Option ℕ) (s : Session) → IsTidy s → IsTidy (destroy o s)
unfolding destroy
destroy-IsTidy none s h = h
destroy-IsTidy (some n) s h = record { bounded = h.bounded; idle = h.idle }

lose-IsTidy : (s : Session) (n : ℕ) (error : String) → IsTidy s → IsTidy (lose s n error)
unfolding lose
lose-IsTidy s n error h = elim (Bool-cases (is_current s.socket n)) [
  | inl current ↦ rw current (
      fail-IsTidy (record s { socket = none; connected = false }) error
        (record { bounded = h.bounded; idle = h.idle }))
  | inr other ↦ rw other h
]

time_out-IsTidy : (s : Session) (n : ℕ) (error : String) → IsTidy s → IsTidy (time_out s n error)
unfolding time_out
time_out-IsTidy s n error h = elim (Bool-cases (is_current s.socket n)) [
  | inl current ↦ rw current (
      destroy-IsTidy (some n) (fail (record s { socket = none }) error) (
        fail-IsTidy (record s { socket = none }) error
          (record { bounded = h.bounded; idle = h.idle })))
  | inr other ↦ rw other (destroy-IsTidy (some n) s h)
]

connected_on-IsTidy : (s : Session) (n : ℕ) → IsTidy s → IsTidy (connected_on s n)
unfolding connected_on
connected_on-IsTidy s n h = elim (Bool-cases (is_current s.socket n)) [
  | inl current ↦ rw current (record { bounded = h.bounded; idle = h.idle })
  | inr other ↦ rw other h
]

open_socket-IsTidy : (s : Session) (n : ℕ) → IsTidy s → IsTidy (open_socket s n)
unfolding open_socket
open_socket-IsTidy s n h = ground arith

restart_as-IsTidy :
    (closed connected : Bool) (c : Client) (n : ℕ)
    → IsTidy c.session
    → IsTidy (restart_as closed connected c n).session
unfolding restart_as unlinked
restart_as-IsTidy true connected c n h = h
restart_as-IsTidy false true c n h = h
restart_as-IsTidy false false c n h =
    open_socket-IsTidy (destroy c.session.socket (unlinked c.session)) n (
      destroy-IsTidy c.session.socket (unlinked c.session)
        (record { bounded = h.bounded; idle = λ ended. absurd (cc) }))

close-IsTidy : (s : Session) → IsTidy s → IsTidy (close s)
unfolding close
close-IsTidy s h = elim (Bool-cases s.permanently_closed) [
  | inl closed ↦ rw closed (record { bounded = h.bounded; idle = h.idle })
  | inr free ↦
      let closing = record s { permanently_closed = true } in
      let failed = fail closing "The Prime Agent daemon client was closed" in
      let kept : IsTidy failed =
        fail-IsTidy closing "The Prime Agent daemon client was closed"
          (record { bounded = h.bounded; idle = h.idle }) in
      rw free (
        destroy-IsTidy failed.socket (record failed { socket = none; connected = false })
          (record { bounded = kept.bounded; idle = kept.idle }))
]

wait_as-IsTidy :
    (o : Option Fields) (e : Option String) (s : Session) (waiter : ℕ)
    → IsTidy s
    → IsTidy (wait_as o e s waiter)
unfolding wait_as
wait_as-IsTidy (some hello) e s waiter h = record { bounded = h.bounded; idle = h.idle }
wait_as-IsTidy none (some error) s waiter h = record { bounded = h.bounded; idle = h.idle }
wait_as-IsTidy none none s waiter h = record { bounded = h.bounded; idle = h.idle }

give_up-IsTidy : (s : Session) (waiter : ℕ) → IsTidy s → IsTidy (give_up s waiter)
unfolding give_up
give_up-IsTidy s waiter h = elim (Bool-cases (any (nat_eq waiter) s.hello_waiters)) [
  | inl there ↦ rw there (record { bounded = h.bounded; idle = h.idle })
  | inr gone ↦ rw gone h
]

receive-IsTidy :
    (parse : String → Option Value) (c : Client) (n : ℕ) (chunk : String)
    → IsTidy c.session
    → IsTidy (receive parse c n chunk).session
unfolding receive on_data
receive-IsTidy parse c n chunk h = elim (Bool-cases (is_current c.session.socket n)) [
  | inl current ↦ rw current (on_lines-IsTidy parse c.session _ h)
  | inr other ↦ rw other h
]

step-IsTidy :
    (parse : String → Option Value) (c : Client) (next : Step)
    → IsTidy c.session
    → IsTidy (step parse c next).session
unfolding step wait_for_hello restart expire
step-IsTidy parse c (requests type writes) h = request-IsTidy c.session type writes h
step-IsTidy parse c (expires id) h = expire_as-IsTidy (lookup id c.session.timers) c.session id h
step-IsTidy parse c (receives n chunk) h = receive-IsTidy parse c n chunk h
step-IsTidy parse c (opens n) h = open_socket-IsTidy c.session n h
step-IsTidy parse c (restarts n) h =
    restart_as-IsTidy c.session.permanently_closed (is_connected c.session) c n h
step-IsTidy parse c (connects n) h = connected_on-IsTidy c.session n h
step-IsTidy parse c (loses n error) h = lose-IsTidy c.session n error h
step-IsTidy parse c (times_out n error) h = time_out-IsTidy c.session n error h
step-IsTidy parse c closes h = close-IsTidy c.session h
step-IsTidy parse c (waits waiter) h =
    wait_as-IsTidy c.session.hello c.session.closed_error c.session waiter h
step-IsTidy parse c (gives_up waiter) h = give_up-IsTidy c.session waiter h

run-IsTidy :
    (parse : String → Option Value) (c : Client) (steps : List Step)
    → IsTidy c.session
    → IsTidy (run parse c steps).session
unfolding run
run-IsTidy parse c [] h = h
run-IsTidy parse c (next ∷ steps) h =
    run-IsTidy parse (step parse c next) steps (step-IsTidy parse c next h)

new-IsTidy : IsTidy new.session
new-IsTidy = record { bounded = omega arith; idle = λ ended. refl }

-- In every run of a new client, at most 256 commands whose outcome is unknown are remembered.
pub run-unknowns-le :
    (parse : String → Option Value) (steps : List Step)
    → length (run parse new steps).session.unacknowledged ≤ 256
run-unknowns-le parse steps = (run-IsTidy parse new steps new-IsTidy).bounded

-- Where a run of a new client has left its socket ended by an error, a close or a timeout, the promise of
-- every request is settled: each id was settled as often as it was given, and no timer of one runs.
pub run_ended_settles :
    (parse : String → Option Value) (steps : List Step) (id : String)
    → is_some (run parse new steps).session.closed_error ≡ true
    → let s = (run parse new steps).session in
      (count id s.settled ≡ times id s.requested) × (count id s.timers ≡ 0)
unfolding count
run_ended_settles parse steps id ended =
    let s = (run parse new steps).session in
    let none_waits : count id s.pending ≡ 0 =
      ap (count id) ((run-IsTidy parse new steps new-IsTidy).idle ended) in
    let (_, accounts, timed) = run_settles_once parse steps id in
    (omega (arith, accounts, none_waits), omega (arith, timed, none_waits))
