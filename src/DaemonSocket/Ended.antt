-- ===== src/DaemonSocket/Ended.antt =====
-- web/server/src/daemon-socket-client.ts: a socket that ends settles all that waits, and a run of steps keeps
-- the account of the requests.
use fleet_prime_agent.Prelude.{
  ℕ, ◌+◌, ◌≤◌, ◌≡◌, refl, sym, String, Bool, true, false, List, [], ◌∷◌, ◌++◌, Option, none, some,
  arith, ◌==◌, ==_iff, if◌then◌else◌, bit, Bool-cases, inl, inr, is_some, any, nat_eq,
}
use fleet_prime_agent.Prelude.Dict.{Dict, delete}
use fleet_prime_agent.Prelude.Json.{Value, Fields}
use mathlib.Core.Path.{subst}
use fleet_prime_agent.DaemonSocket.{
  Session, Client, Outcome, unknown, broken, settle, remember_unless_read_only, is_read_only, new,
  is_connected,
}
use fleet_prime_agent.DaemonSocket.Frames.{on_data}
use fleet_prime_agent.DaemonSocket.Connection.{
  fail, fail_as, fail_open, fail_each, is_current, lose, destroy, time_out, connected_on,
  open_socket, unlinked, restart_as, restart, close, wait_for_hello, wait_as, give_up, receive,
  Step, step, run, requests, expires, receives, opens, restarts, connects, loses, times_out, closes,
  waits, gives_up,
}
use fleet_prime_agent.DaemonSocket.Counts.{count, count-append, count-delete, times}
use fleet_prime_agent.DaemonSocket.Accounts.{Account, account_of, IsAccounted, count-one}
use fleet_prime_agent.DaemonSocket.Settled.{
  Accounted, request-Accounted, expire-Accounted, on_lines-Accounted,
  remember_unless_read_only-Level,
}

-- The account while the loop of `fail` has these entries before it.
abbrev Before : Dict String → Session → Type 0
Before entries s = IsAccounted (record (account_of s) { pending = entries })

head_settled :
    (a : Account) (id type : String) (rest : Dict String) (outcome : Outcome)
    → IsAccounted (record a { pending = (id, type) ∷ rest })
    → IsAccounted (record a {
      pending = rest;
      timers = delete id a.timers;
      settled = a.settled ++ (id, outcome) ∷ [];
    })
unfolding count
head_settled a id type rest outcome h = record {
  settles = λ other. rw (count-append, count-one) (omega (arith, h.settles other));
  once = h.once;
  timed = λ other. rw count-delete (elim (Bool-cases (id == other)) [
    | inl same ↦
        let equal : id ≡ other = (==_iff id other).0 same in
        let one : bit (id == other) ≡ 1 = rw same refl in
        rw same (omega (arith, h.settles other, h.once other, one))
    | inr apart ↦
        let zero_here : bit (id == other) ≡ 0 = rw apart refl in
        rw apart (omega (arith, h.timed other, zero_here))
  ]);
  fresh = h.fresh;
}

fail_each-Accounted :
    (error : String) (entries : Dict String) (s : Session)
    → Before entries s
    → Accounted (fail_each error entries s)
unfolding fail_each settle
fail_each-Accounted error [] s h = h
fail_each-Accounted error ((id, type) ∷ rest) s h =
    let s' = record s { timers = delete id s.timers } in
    let outcome = if is_read_only type then broken error else unknown in
    fail_each-Accounted error rest (settle (remember_unless_read_only s' id type) id outcome) (
      subst
        (λ (a : Account).
          IsAccounted (record a { pending = rest; settled = a.settled ++ (id, outcome) ∷ [] }))
        (sym (remember_unless_read_only-Level s' id type))
        (head_settled (account_of s) id type rest outcome h))

fail_as-Accounted :
    (o : Option String) (error : String) (s : Session) → Accounted s → Accounted (fail_as o error s)
unfolding fail_as fail_open
fail_as-Accounted (some before) error s h = h
fail_as-Accounted none error s h = fail_each-Accounted error s.pending _ h

fail-Accounted : (s : Session) (error : String) → Accounted s → Accounted (fail s error)
unfolding fail
fail-Accounted s error h = fail_as-Accounted s.closed_error error s h

lose-Accounted : (s : Session) (n : ℕ) (error : String) → Accounted s → Accounted (lose s n error)
unfolding lose
lose-Accounted s n error h = elim (Bool-cases (is_current s.socket n)) [
  | inl current ↦
      rw current (fail-Accounted (record s { socket = none; connected = false }) error h)
  | inr other ↦ rw other h
]

destroy-Accounted : (o : Option ℕ) (s : Session) → Accounted s → Accounted (destroy o s)
unfolding destroy
destroy-Accounted none s h = h
destroy-Accounted (some n) s h = h

time_out-Accounted :
    (s : Session) (n : ℕ) (error : String) → Accounted s → Accounted (time_out s n error)
unfolding time_out
time_out-Accounted s n error h = elim (Bool-cases (is_current s.socket n)) [
  | inl current ↦ rw current (
      destroy-Accounted (some n) (fail (record s { socket = none }) error)
        (fail-Accounted (record s { socket = none }) error h))
  | inr other ↦ rw other (destroy-Accounted (some n) s h)
]

connected_on-Accounted : (s : Session) (n : ℕ) → Accounted s → Accounted (connected_on s n)
unfolding connected_on
connected_on-Accounted s n h = elim (Bool-cases (is_current s.socket n)) [
  | inl current ↦ rw current h
  | inr other ↦ rw other h
]

open_socket-Accounted : (s : Session) (n : ℕ) → Accounted s → Accounted (open_socket s n)
unfolding open_socket is_connected
open_socket-Accounted s n h = elim (Bool-cases s.permanently_closed) [
  | inl closed ↦ rw closed h
  | inr free ↦ elim (Bool-cases (is_connected s)) [
    | inl connected ↦ rw (free, connected) h
    | inr apart ↦ elim (Bool-cases (is_some s.closed_error)) [
      | inl ended ↦ rw (free, apart, ended) h
      | inr ready ↦ rw (free, apart, ready) h
    ]
  ]
]

restart_as-Accounted :
    (closed connected : Bool) (c : Client) (n : ℕ)
    → Accounted c.session
    → Accounted (restart_as closed connected c n).session
unfolding restart_as unlinked
restart_as-Accounted true connected c n h = h
restart_as-Accounted false true c n h = h
restart_as-Accounted false false c n h =
    open_socket-Accounted (destroy c.session.socket (unlinked c.session)) n
      (destroy-Accounted c.session.socket (unlinked c.session) h)

restart-Accounted : (c : Client) (n : ℕ) → Accounted c.session → Accounted (restart c n).session
unfolding restart
restart-Accounted c n h =
    restart_as-Accounted c.session.permanently_closed (is_connected c.session) c n h

close-Accounted : (s : Session) → Accounted s → Accounted (close s)
unfolding close
close-Accounted s h = elim (Bool-cases s.permanently_closed) [
  | inl closed ↦ rw closed h
  | inr free ↦
      let failed =
        fail (record s { permanently_closed = true }) "The Prime Agent daemon client was closed" in
      let kept : Accounted failed =
        fail-Accounted (record s { permanently_closed = true })
          "The Prime Agent daemon client was closed" h in
      rw free
        (destroy-Accounted failed.socket (record failed { socket = none; connected = false }) kept)
]

wait_as-Accounted :
    (o : Option Fields) (e : Option String) (s : Session) (waiter : ℕ)
    → Accounted s
    → Accounted (wait_as o e s waiter)
unfolding wait_as
wait_as-Accounted (some hello) e s waiter h = h
wait_as-Accounted none (some error) s waiter h = h
wait_as-Accounted none none s waiter h = h

give_up-Accounted : (s : Session) (waiter : ℕ) → Accounted s → Accounted (give_up s waiter)
unfolding give_up
give_up-Accounted s waiter h = elim (Bool-cases (any (nat_eq waiter) s.hello_waiters)) [
  | inl there ↦ rw there h
  | inr gone ↦ rw gone h
]

receive-Accounted :
    (parse : String → Option Value) (c : Client) (n : ℕ) (chunk : String)
    → Accounted c.session
    → Accounted (receive parse c n chunk).session
unfolding receive on_data
receive-Accounted parse c n chunk h = elim (Bool-cases (is_current c.session.socket n)) [
  | inl current ↦ rw current (on_lines-Accounted parse c.session _ h)
  | inr other ↦ rw other h
]

step-Accounted :
    (parse : String → Option Value) (c : Client) (next : Step)
    → Accounted c.session
    → Accounted (step parse c next).session
unfolding step wait_for_hello
step-Accounted parse c (requests type writes) h = request-Accounted c.session type writes h
step-Accounted parse c (expires id) h = expire-Accounted c.session id h
step-Accounted parse c (receives n chunk) h = receive-Accounted parse c n chunk h
step-Accounted parse c (opens n) h = open_socket-Accounted c.session n h
step-Accounted parse c (restarts n) h = restart-Accounted c n h
step-Accounted parse c (connects n) h = connected_on-Accounted c.session n h
step-Accounted parse c (loses n error) h = lose-Accounted c.session n error h
step-Accounted parse c (times_out n error) h = time_out-Accounted c.session n error h
step-Accounted parse c closes h = close-Accounted c.session h
step-Accounted parse c (waits waiter) h =
    wait_as-Accounted c.session.hello c.session.closed_error c.session waiter h
step-Accounted parse c (gives_up waiter) h = give_up-Accounted c.session waiter h

run-Accounted :
    (parse : String → Option Value) (c : Client) (steps : List Step)
    → Accounted c.session
    → Accounted (run parse c steps).session
unfolding run
run-Accounted parse c [] h = h
run-Accounted parse c (next ∷ steps) h =
    run-Accounted parse (step parse c next) steps (step-Accounted parse c next h)

pub new-Accounted : Accounted new.session
unfolding count times
new-Accounted = record {
  settles = λ id. refl;
  once = λ id. omega arith;
  timed = λ id. refl;
  fresh = λ n lt. refl;
}

-- In every run of a new client, whatever the daemon sends and in whatever order timers run, writes fail
-- and sockets end: an id is given to one request at most, the promise of a request that has the id is
-- settled once or waits with one entry, and as many timers run for it as entries wait.
pub run_settles_once :
    (parse : String → Option Value) (steps : List Step) (id : String)
    → let s = (run parse new steps).session in
      (times id s.requested ≤ 1)
      × (count id s.settled + count id s.pending ≡ times id s.requested)
      × (count id s.timers ≡ count id s.pending)
run_settles_once parse steps id =
    let h = run-Accounted parse new steps new-Accounted in (h.once id, h.settles id, h.timed id)
