-- ===== src/DaemonSocket/Accounts.antt =====
-- web/server/src/daemon-socket-client.ts: what becomes of the promise of a request. It waits with one
-- entry and one timer, or it has been settled once.
use fleet_prime_agent.Prelude.{
  ℕ, suc, ◌+◌, ◌≤◌, ◌<◌, ◌≡◌, String, List, [], ◌∷◌, ◌++◌, arith, ◌==◌, ==_iff, bit, Bool-cases,
  inl, inr,
}
use fleet_prime_agent.Prelude.Text.{decimal}
use fleet_prime_agent.Prelude.Text.Decimals.{decimal-injective}
use fleet_prime_agent.Prelude.Dict.{Dict, insert, delete}
use text.Mathlib.TextLemmas.{append_cancel_left}
use fleet_prime_agent.DaemonSocket.{Session, Outcome, request_id}
use fleet_prime_agent.DaemonSocket.Counts.{
  count, count-append, count-insert, count-delete, times, times-append,
}

-- The parts of a session that the account of its requests is of.
pub record Account : Type 0 where
  pub pending : Dict String
  pub timers : Dict String
  pub settled : List (String × Outcome)
  pub requested : List String
  pub next_id : ℕ

abbrev pub account_of : Session → Account
account_of s = record {
  pending = s.pending;
  timers = s.timers;
  settled = s.settled;
  requested = s.requested;
  next_id = s.next_id;
}

-- For each id, `request` has given it at most once, and as often as its promise is settled or waits; it
-- waits with a timer; and no id is given whose number is still to come.
pub record IsAccounted (a : Account) : Type 0 where
  pub settles : (id : String) → count id a.settled + count id a.pending ≡ times id a.requested
  pub once : (id : String) → times id a.requested ≤ 1
  pub timed : (id : String) → count id a.timers ≡ count id a.pending
  pub fresh : (n : ℕ) → a.next_id < n → times (request_id n) a.requested ≡ 0

request_id-injective : (n m : ℕ) → request_id n ≡ request_id m → n ≡ m
request_id-injective n m h =
    decimal-injective n m (append_cancel_left "fleet_" (decimal n) (decimal m) h)

-- Ids that are taken for other messages leave the account.
pub later :
    (a : Account) (n : ℕ) → a.next_id ≤ n → IsAccounted a → IsAccounted (record a { next_id = n })
later a n le h = record {
  settles = h.settles;
  once = h.once;
  timed = h.timed;
  fresh = λ m lt. h.fresh m (omega arith);
}

unfoldable pub issued : Account → String → Account
issued a type =
    let id = request_id (suc a.next_id) in
    record {
      pending = insert id type a.pending;
      timers = insert id type a.timers;
      settled = a.settled;
      requested = a.requested ++ id ∷ [];
      next_id = suc a.next_id;
    }

times-one : (id key : String) → times id (key ∷ []) ≡ bit (key == id)
unfolding times
times-one id key = omega arith

module _ (a : Account) (type : String) (h : IsAccounted a) where
  abbrev pub new_id : String
  new_id = request_id (suc a.next_id)

  new_times : times new_id a.requested ≡ 0
  new_times = h.fresh (suc a.next_id) (omega arith)

  pub new_pending : count new_id a.pending ≡ 0
  new_pending = omega (arith, h.settles new_id, new_times)

  new_timers : count new_id a.timers ≡ 0
  new_timers = omega (arith, h.timed new_id, new_pending)

  times-issued :
      (id : String) → times id (issued a type).requested ≡ times id a.requested + bit (new_id == id)
  unfolding issued
  times-issued id = omega (arith, times-append id a.requested (new_id ∷ []), times-one id new_id)

  once_more : (id : String) → times id (issued a type).requested ≤ 1
  once_more id = elim (Bool-cases (new_id == id)) [
    | inl same ↦
        let equal : new_id ≡ id = (==_iff new_id id).0 same in
        let none_yet : times id a.requested ≡ 0 = rw (← equal) new_times in
        rw (times-issued id, same) (omega (arith, none_yet))
    | inr other ↦ rw (times-issued id, other) (omega (arith, h.once id))
  ]

  still_fresh : (n : ℕ) → suc a.next_id < n → times (request_id n) (issued a type).requested ≡ 0
  still_fresh n lt = elim (Bool-cases (new_id == request_id n)) [
    | inl same ↦
        let equal : suc a.next_id ≡ n =
          request_id-injective (suc a.next_id) n ((==_iff new_id (request_id n)).0 same) in
        absurd (omega arith)
    | inr other ↦ rw (times-issued (request_id n), other) (omega (arith, h.fresh n (omega arith)))
  ]

  pub issued-IsAccounted : IsAccounted (issued a type)
  unfolding issued
  issued-IsAccounted = record {
    settles = λ id. omega (
      arith,
      h.settles id,
      count-insert id new_id type a.pending new_pending,
      times-append id a.requested (new_id ∷ []),
      times-one id new_id,
    );
    once = λ id. once_more id;
    timed = λ id. omega (
      arith,
      h.timed id,
      count-insert id new_id type a.pending new_pending,
      count-insert id new_id type a.timers new_timers,
    );
    fresh = λ n lt. still_fresh n lt;
  }

-- A promise that waits is settled: its entry and its timer go.
unfoldable pub settled_as : Account → String → Outcome → Account
settled_as a id outcome = record a {
  pending = delete id a.pending;
  timers = delete id a.timers;
  settled = a.settled ++ (id, outcome) ∷ [];
}

pub count-one :
    (id key : String) (outcome : Outcome) → count id ((key, outcome) ∷ []) ≡ bit (key == id)
unfolding count
count-one id key outcome = omega arith

settles_after :
    (a : Account) (id : String) (outcome : Outcome)
    → 1 ≤ count id a.pending
    → IsAccounted a
    → (other : String)
    → count other (a.settled ++ (id, outcome) ∷ []) + count other (delete id a.pending)
      ≡ times other a.requested
settles_after a id outcome waits h other =
    rw (count-append, count-delete, count-one)
      (elim (Bool-cases (id == other)) [
        | inl same ↦
            let equal : id ≡ other = (==_iff id other).0 same in
            let waits' : 1 ≤ count other a.pending = rw (← equal) waits in
            rw same (omega (arith, h.settles other, h.once other))
        | inr apart ↦ rw apart (omega (arith, h.settles other))
      ])

pub settled_as-IsAccounted :
    (a : Account) (id : String) (outcome : Outcome)
    → 1 ≤ count id a.pending
    → IsAccounted a
    → IsAccounted (settled_as a id outcome)
unfolding settled_as
settled_as-IsAccounted a id outcome waits h = record {
  settles = λ other. settles_after a id outcome waits h other;
  once = h.once;
  timed = λ other.
      ground
        (arith, h.timed other, count-delete other id a.pending, count-delete other id a.timers);
  fresh = h.fresh;
}
