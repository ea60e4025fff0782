-- ===== src/DaemonSocket/Settled.antt =====
-- web/server/src/daemon-socket-client.ts: every step keeps the account of the requests.
use fleet_prime_agent.Prelude.{
  ℕ, suc, ◌≤◌, ◌≡◌, refl, sym, ap, String, Bool, true, false, List, [], ◌∷◌, ◌++◌, Option, none,
  some, arith, ==_refl, if◌then◌else◌, bit, Bool-cases, inl, inr,
}
use fleet_prime_agent.Prelude.Dict.{lookup, delete}
use fleet_prime_agent.Prelude.Json.{Value, Fields}
use mathlib.Core.Path.{subst}
use fleet_prime_agent.DaemonSocket.{
  Session, Outcome, unknown, unanswered, answered, settle, withdraw, usable, can_send,
  remember_unless_read_only, remember_unknown_outcome, is_read_only, acknowledge,
  acknowledge_unless_read_only, request, write_command, issue, request_id, expire, expire_as,
}
use fleet_prime_agent.DaemonSocket.Frames.{
  dispatch, dispatch_as, respond_as, respond_unknown, greet, on_line, on_lines, on_frame,
  response_id, is_daemon_hello_frame, parse_daemon_frame_line,
}
use fleet_prime_agent.DaemonSocket.Counts.{count, count-insert, lookup-counted}
use fleet_prime_agent.DaemonSocket.Accounts.{
  Account, account_of, IsAccounted, later, issued, issued-IsAccounted, settled_as,
  settled_as-IsAccounted, new_pending,
}

abbrev pub Accounted : Session → Type 0
Accounted s = IsAccounted (account_of s)

-- Sessions with the same account.
abbrev Level : Session → Session → Type 0
Level s t = account_of t ≡ account_of s

moved : (s t : Session) → Level s t → Accounted s → Accounted t
moved s t e h = rw e h

pub remember_unless_read_only-Level :
    (s : Session) (id type : String) → Level s (remember_unless_read_only s id type)
unfolding remember_unless_read_only remember_unknown_outcome
remember_unless_read_only-Level s id type = elim (Bool-cases (is_read_only type)) [
  | inl reads ↦ rw reads refl
  | inr writes ↦ rw writes refl
]

-- A promise that waiting is settled, in whatever way.
settle-Accounted :
    (s t : Session) (id : String) (outcome : Outcome)
    → Level (withdraw s id) t
    → 1 ≤ count id s.pending
    → Accounted s
    → Accounted (settle t id outcome)
unfolding withdraw settle settled_as
settle-Accounted s t id outcome level waiting h =
    subst (λ (a : Account). IsAccounted (record a { settled = a.settled ++ (id, outcome) ∷ [] }))
      (sym level) (settled_as-IsAccounted (account_of s) id outcome waiting h)

-- So too where an acknowledgement took a number in between.
answer-Accounted :
    (s t : Session) (id : String) (outcome : Outcome) (n : ℕ)
    → s.next_id ≤ n
    → account_of t ≡ record (account_of (withdraw s id)) { next_id = n }
    → 1 ≤ count id s.pending
    → Accounted s
    → Accounted (settle t id outcome)
unfolding withdraw settle settled_as
answer-Accounted s t id outcome n le level waiting h =
    subst (λ (a : Account). IsAccounted (record a { settled = a.settled ++ (id, outcome) ∷ [] }))
      (sym level)
      (later (settled_as (account_of s) id outcome) n le
        (settled_as-IsAccounted (account_of s) id outcome waiting h))

issue-Accounted : (s : Session) (type : String) → Accounted s → Accounted (issue s type)
unfolding issue issued
issue-Accounted s type h = issued-IsAccounted (account_of s) type h

issue_waits :
    (s : Session) (type : String)
    → Accounted s
    → 1 ≤ count (request_id (suc s.next_id)) (issue s type).pending
unfolding issue
issue_waits s type h =
    let id = request_id (suc s.next_id) in
    omega (
      arith,
      count-insert id id type s.pending (new_pending (account_of s) type h),
      ap bit (==_refl id),
    )

write_command-Accounted :
    (writes : Bool) (s : Session) (id type : String)
    → 1 ≤ count id s.pending
    → Accounted s
    → Accounted (write_command writes s id type)
unfolding write_command
write_command-Accounted true s id type waiting h = h
write_command-Accounted false s id type waiting h =
    settle-Accounted s (remember_unless_read_only (withdraw s id) id type) id unknown
      (remember_unless_read_only-Level (withdraw s id) id type) waiting h

pub request-Accounted :
    (s : Session) (type : String) (writes : Bool) → Accounted s → Accounted (request s type writes)
unfolding request
request-Accounted s type writes h = elim (Bool-cases (can_send s)) [
  | inl sends ↦ rw sends (
      write_command-Accounted writes (issue s type) (request_id (suc s.next_id)) type
        (issue_waits s type h) (issue-Accounted s type h))
  | inr refuses ↦ rw refuses h
]

expire_as-Accounted :
    (o : Option String) (s : Session) (id : String)
    → lookup id s.timers ≡ o
    → Accounted s
    → Accounted (expire_as o s id)
unfolding expire_as
expire_as-Accounted none s id e h = h
expire_as-Accounted (some type) s id e h =
    settle-Accounted s (remember_unless_read_only (withdraw s id) id type) id
      (if is_read_only type then unanswered else unknown)
      (remember_unless_read_only-Level (withdraw s id) id type)
      (omega (arith, lookup-counted id s.timers type e, h.timed id)) h

pub expire-Accounted : (s : Session) (id : String) → Accounted s → Accounted (expire s id)
unfolding expire
expire-Accounted s id h = expire_as-Accounted (lookup id s.timers) s id refl h

-- An acknowledgement takes a number for its own message.
acknowledge-Accounted : (s : Session) (id : String) → Accounted s → Accounted (acknowledge s id)
unfolding acknowledge
acknowledge-Accounted s id h = elim (Bool-cases (usable s s.socket)) [
  | inl reaches ↦ rw reaches (later (account_of s) (suc s.next_id) (omega arith) h)
  | inr lost ↦ rw lost h
]

acknowledge_unless_read_only-Accounted :
    (s : Session) (id type : String)
    → Accounted s
    → Accounted (acknowledge_unless_read_only s id type)
unfolding acknowledge_unless_read_only
acknowledge_unless_read_only-Accounted s id type h = elim (Bool-cases (is_read_only type)) [
  | inl reads ↦ rw reads h
  | inr writes ↦ rw writes (acknowledge-Accounted s id h)
]

-- What an acknowledgement leaves of the account: a later number.
abbrev Bumped : Session → Session → Type 0
Bumped s t = (n : ℕ) × (s.next_id ≤ n) × (account_of t ≡ record (account_of s) { next_id = n })

acknowledge-Bumped : (s : Session) (id : String) → Bumped s (acknowledge s id)
unfolding acknowledge
acknowledge-Bumped s id = elim (Bool-cases (usable s s.socket)) [
  | inl reaches ↦ (suc s.next_id, omega arith, rw reaches refl)
  | inr lost ↦ (s.next_id, omega arith, rw lost refl)
]

acknowledge_unless_read_only-Bumped :
    (s : Session) (id type : String) → Bumped s (acknowledge_unless_read_only s id type)
unfolding acknowledge_unless_read_only
acknowledge_unless_read_only-Bumped s id type = elim (Bool-cases (is_read_only type)) [
  | inl reads ↦ (s.next_id, omega arith, rw reads refl)
  | inr writes ↦ rw writes (acknowledge-Bumped s id)
]

respond_unknown-Accounted :
    (o : Option String) (s : Session) (id : String) (frame : Fields)
    → Accounted s
    → Accounted (respond_unknown o s id frame)
unfolding respond_unknown
respond_unknown-Accounted none s id frame h = h
respond_unknown-Accounted (some type) s id frame h =
    acknowledge_unless_read_only-Accounted
      (record s { unacknowledged = delete id s.unacknowledged }) id type h

respond_as-Accounted :
    (o : Option String) (s : Session) (id : String) (frame : Fields)
    → lookup id s.pending ≡ o
    → Accounted s
    → Accounted (respond_as o s id frame)
unfolding respond_as withdraw
respond_as-Accounted none s id frame e h = respond_unknown-Accounted _ s id frame h
respond_as-Accounted (some type) s id frame e h =
    let (n, le, bumped) = acknowledge_unless_read_only-Bumped (withdraw s id) id type in
    answer-Accounted s (acknowledge_unless_read_only (withdraw s id) id type) id (answered frame) n
      le bumped (lookup-counted id s.pending type e) h

dispatch_as-Accounted :
    (o : Option String) (s : Session) (frame : Fields)
    → Accounted s
    → Accounted (dispatch_as o s frame)
unfolding dispatch_as
dispatch_as-Accounted none s frame h = h
dispatch_as-Accounted (some id) s frame h =
    respond_as-Accounted (lookup id s.pending) s id frame refl h

dispatch-Accounted : (s : Session) (frame : Fields) → Accounted s → Accounted (dispatch s frame)
unfolding dispatch greet
dispatch-Accounted s frame h = elim (Bool-cases (is_daemon_hello_frame frame)) [
  | inl hello ↦ rw hello (dispatch_as-Accounted (response_id frame) (greet s frame) frame h)
  | inr other ↦ rw other (dispatch_as-Accounted (response_id frame) s frame h)
]

on_frame-Accounted : (o : Option Fields) (s : Session) → Accounted s → Accounted (on_frame o s)
unfolding on_frame
on_frame-Accounted none s h = h
on_frame-Accounted (some frame) s h = dispatch-Accounted s frame h

pub on_lines-Accounted :
    (parse : String → Option Value) (s : Session) (lines : List String)
    → Accounted s
    → Accounted (on_lines parse s lines)
unfolding on_lines on_line
on_lines-Accounted parse s [] h = h
on_lines-Accounted parse s (line ∷ lines) h =
    on_lines-Accounted parse (on_line parse s line) lines
      (on_frame-Accounted (parse_daemon_frame_line parse line) s h)
