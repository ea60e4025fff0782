-- ===== src/DaemonSocket/Unknowns.antt =====
-- web/server/src/daemon-socket-client.ts: the commands whose outcome is unknown are at most 256, and an ended
-- socket has no request left that waits.
use fleet_prime_agent.Prelude.{
  suc, ◌≤◌, ◌≡◌, refl, ap, String, Bool, true, false, List, [], ◌∷◌, Option, none, some, arith,
  if◌then◌else◌, Bool-cases, inl, inr, is_some, length,
}
use fleet_prime_agent.Prelude.Dict.{Dict, lookup, insert, delete}
use fleet_prime_agent.Prelude.Json.{Value, Fields}
use fleet_prime_agent.DaemonSocket.{
  evict, Session, Outcome, unknown, unanswered, answered, settle, withdraw, usable, can_send,
  remember_unless_read_only, remember_unknown_outcome, is_read_only, acknowledge,
  acknowledge_unless_read_only, request, write_command, issue, request_id, expire_as,
}
use fleet_prime_agent.DaemonSocket.Frames.{
  dispatch, dispatch_as, respond_as, respond_unknown, greet, on_line, on_lines, on_frame,
  response_id, is_daemon_hello_frame, parse_daemon_frame_line,
}

evict-le : (d : Dict String) → length (evict d) ≤ 256
unfolding evict
evict-le [] = omega arith
evict-le (entry ∷ entries) = ground (arith, evict-le entries)

delete-le : (id : String) (d : Dict String) → length (delete id d) ≤ length d
unfolding delete
delete-le id [] = omega arith
delete-le id ((key, value) ∷ rest) = ground (arith, delete-le id rest)

-- At most 256 outcomes are unknown; and where the socket has ended, no request waits.
pub record IsTidy (s : Session) : Type 0 where
  pub bounded : length s.unacknowledged ≤ 256
  pub idle : is_some s.closed_error ≡ true → s.pending ≡ []

pub remember-le :
    (s : Session) (id type : String)
    → length s.unacknowledged ≤ 256
    → length (remember_unless_read_only s id type).unacknowledged ≤ 256
unfolding remember_unless_read_only remember_unknown_outcome
remember-le s id type h = elim (Bool-cases (is_read_only type)) [
  | inl reads ↦ rw reads h
  | inr writes ↦ rw writes (evict-le (insert id type s.unacknowledged))
]

remember-pending :
    (s : Session) (id type : String)
    → ((remember_unless_read_only s id type).pending ≡ s.pending)
      × ((remember_unless_read_only s id type).closed_error ≡ s.closed_error)
unfolding remember_unless_read_only remember_unknown_outcome
remember-pending s id type = elim (Bool-cases (is_read_only type)) [
  | inl reads ↦ rw reads (refl, refl)
  | inr writes ↦ rw writes (refl, refl)
]

withdraw-IsTidy : (s : Session) (id : String) → IsTidy s → IsTidy (withdraw s id)
unfolding withdraw delete
withdraw-IsTidy s id h = record {
  bounded = h.bounded;
  idle = λ ended. ap (delete id) (h.idle ended);
}

remember-IsTidy :
    (s : Session) (id type : String) → IsTidy s → IsTidy (remember_unless_read_only s id type)
remember-IsTidy s id type h =
    let (pending, closed) = remember-pending s id type in
    record { bounded = remember-le s id type h.bounded; idle = rw (pending, closed) h.idle }

settle-IsTidy :
    (s : Session) (id : String) (outcome : Outcome) → IsTidy s → IsTidy (settle s id outcome)
unfolding settle
settle-IsTidy s id outcome h = record { bounded = h.bounded; idle = h.idle }

write_command-IsTidy :
    (writes : Bool) (s : Session) (id type : String)
    → IsTidy s
    → IsTidy (write_command writes s id type)
unfolding write_command
write_command-IsTidy true s id type h = record { bounded = h.bounded; idle = h.idle }
write_command-IsTidy false s id type h =
    settle-IsTidy (remember_unless_read_only (withdraw s id) id type) id unknown
      (remember-IsTidy (withdraw s id) id type (withdraw-IsTidy s id h))

-- A request is issued while the socket has not ended.
issue-IsTidy : (s : Session) (type : String) → can_send s ≡ true → IsTidy s → IsTidy (issue s type)
unfolding issue can_send
issue-IsTidy s type sends h = record { bounded = h.bounded; idle = λ ended. absurd (ground arith) }

pub request-IsTidy :
    (s : Session) (type : String) (writes : Bool) → IsTidy s → IsTidy (request s type writes)
unfolding request
request-IsTidy s type writes h = elim (Bool-cases (can_send s)) [
  | inl sends ↦ rw sends (
      write_command-IsTidy writes (issue s type) (request_id (suc s.next_id)) type
        (issue-IsTidy s type sends h))
  | inr refuses ↦ rw refuses h
]

pub expire_as-IsTidy :
    (o : Option String) (s : Session) (id : String) → IsTidy s → IsTidy (expire_as o s id)
unfolding expire_as
expire_as-IsTidy none s id h = h
expire_as-IsTidy (some type) s id h =
    settle-IsTidy (remember_unless_read_only (withdraw s id) id type) id
      (if is_read_only type then unanswered else unknown)
      (remember-IsTidy (withdraw s id) id type (withdraw-IsTidy s id h))

acknowledge-IsTidy :
    (s : Session) (id type : String) → IsTidy s → IsTidy (acknowledge_unless_read_only s id type)
unfolding acknowledge_unless_read_only acknowledge
acknowledge-IsTidy s id type h = elim (Bool-cases (is_read_only type)) [
  | inl reads ↦ rw reads h
  | inr writes ↦ rw writes (elim (Bool-cases (usable s s.socket)) [
    | inl reaches ↦ rw reaches (record { bounded = h.bounded; idle = h.idle })
    | inr lost ↦ rw lost h
  ])
]

respond_unknown-IsTidy :
    (o : Option String) (s : Session) (id : String) (frame : Fields)
    → IsTidy s
    → IsTidy (respond_unknown o s id frame)
unfolding respond_unknown
respond_unknown-IsTidy none s id frame h = record { bounded = h.bounded; idle = h.idle }
respond_unknown-IsTidy (some type) s id frame h =
    acknowledge-IsTidy (record s { unacknowledged = delete id s.unacknowledged }) id type
      (record { bounded = omega (arith, delete-le id s.unacknowledged, h.bounded); idle = h.idle })

respond_as-IsTidy :
    (o : Option String) (s : Session) (id : String) (frame : Fields)
    → IsTidy s
    → IsTidy (respond_as o s id frame)
unfolding respond_as
respond_as-IsTidy none s id frame h = respond_unknown-IsTidy _ s id frame h
respond_as-IsTidy (some type) s id frame h =
    settle-IsTidy (acknowledge_unless_read_only (withdraw s id) id type) id (answered frame)
      (acknowledge-IsTidy (withdraw s id) id type (withdraw-IsTidy s id h))

dispatch_as-IsTidy :
    (o : Option String) (s : Session) (frame : Fields) → IsTidy s → IsTidy (dispatch_as o s frame)
unfolding dispatch_as
dispatch_as-IsTidy none s frame h = record { bounded = h.bounded; idle = h.idle }
dispatch_as-IsTidy (some id) s frame h = respond_as-IsTidy (lookup id s.pending) s id frame h

greet-IsTidy : (s : Session) (frame : Fields) → IsTidy s → IsTidy (greet s frame)
unfolding greet
greet-IsTidy s frame h = record { bounded = h.bounded; idle = h.idle }

on_frame-IsTidy : (o : Option Fields) (s : Session) → IsTidy s → IsTidy (on_frame o s)
unfolding on_frame dispatch
on_frame-IsTidy none s h = h
on_frame-IsTidy (some frame) s h = elim (Bool-cases (is_daemon_hello_frame frame)) [
  | inl hello ↦
      rw hello
        (dispatch_as-IsTidy (response_id frame) (greet s frame) frame (greet-IsTidy s frame h))
  | inr other ↦ rw other (dispatch_as-IsTidy (response_id frame) s frame h)
]

pub on_lines-IsTidy :
    (parse : String → Option Value) (s : Session) (lines : List String)
    → IsTidy s
    → IsTidy (on_lines parse s lines)
unfolding on_lines on_line
on_lines-IsTidy parse s [] h = h
on_lines-IsTidy parse s (line ∷ lines) h =
    on_lines-IsTidy parse (on_line parse s line) lines
      (on_frame-IsTidy (parse_daemon_frame_line parse line) s h)
