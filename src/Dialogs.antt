-- ===== src/Dialogs.antt =====
-- web/server/src/pending-dialogs.ts: the questions that an agent run has put to the user and that
-- are not answered yet. The promise and the timer of each `open` live in a store, at the number that
-- the dialog's closures hold; `emitFrame` is the list of frames emitted so far. The type `A` of an
-- answer, `P` of a tool part and `Q` of a clarification question are parameters.
pub mod Table
pub mod Coherence
pub mod Calls
pub mod Removal
pub mod Outcomes
pub mod Traces
mod Tests
use fleet_prime_agent.Prelude.{
  ℕ, String, Bool, true, false, List, [], ◌∷◌, ◌++◌, Option, none, some, length, get_elem?, modify,
  map, get_or, or_else, if◌then◌else◌, ◌==◌, is_some,
}
use fleet_prime_agent.Prelude.Dict.{Dict, lookup, insert, delete, values}

pub data Kind : Type 0 where
  confirm select input questions : Kind

pub data CancelReason : Type 0 where
  user_abort timeout server_shutdown : CancelReason

pub record PendingDialog (Q : Type 0) : Type 0 where
  pub session_id : String
  pub tool_call_id : String
  pub kind : Kind
  pub title : String
  pub message : String
  pub options : Option (List String)
  pub questions : Option (List Q)
  pub placeholder : Option String
  pub created_at : ℕ
  pub timeout_ms : Option ℕ
  pub handle : ℕ

-- The promise of an `open`: `rejected r` is `Error("Question cancelled: r")`.
pub data Outcome (A : Type 0) : Type 0 where
  pending : Outcome A
  resolved : A → Outcome A
  rejected : CancelReason → Outcome A

-- What the closures of one `open` share: the promise, and the timer with the arguments that its
-- callback passes to `cancel`.
pub record Opened (A : Type 0) : Type 0 where
  pub outcome : Outcome A
  pub armed : Bool
  pub delay : ℕ
  pub session_id : String
  pub tool_call_id : String

pub data Frame (P : Type 0) : Type 0 where
  signal : P → Frame P
  cancelled : String → CancelReason → String → Frame P

pub record Registry (A P Q : Type 0) : Type 0 where
  pub by_session : Dict (Dict (PendingDialog Q))
  pub default_timeout_ms : ℕ
  pub opened : List (Opened A)
  pub emitted : List (String × Frame P)

pub record OpenArgs (P Q : Type 0) : Type 0 where
  pub session_id : String
  pub tool_call_id : String
  pub kind : Kind
  pub title : String
  pub message : String
  pub options : Option (List String)
  pub questions : Option (List Q)
  pub placeholder : Option String
  pub timeout_ms : Option ℕ
  pub signal_frame : P

pub record Snapshot (Q : Type 0) : Type 0 where
  pub session_id : String
  pub tool_call_id : String
  pub kind : Kind
  pub title : String
  pub message : Option String
  pub options : Option (List String)
  pub questions : Option (List Q)
  pub placeholder : Option String
  pub created_at : ℕ
  pub timeout_ms : Option ℕ

abbrev pub Table : Type 0 → Type 0
Table Q = Dict (Dict (PendingDialog Q))

-- `this.bySession.get(sessionId)?.get(toolCallId)`
pub find_in : {Q : Type 0} → Option (Dict (PendingDialog Q)) → String → Option (PendingDialog Q)
find_in none tool = none
find_in (some dialogs) tool = lookup tool dialogs

pub find_dialog : {Q : Type 0} → Table Q → String → String → Option (PendingDialog Q)
unfolding find_in
find_dialog table session tool = find_in (lookup session table) tool

-- `this.bySession.get(sessionId)?.delete(toolCallId)`; the inner map is changed in place.
pub forget : {Q : Type 0} → Table Q → String → String → Table Q
forget table session tool = elim (lookup session table) [
  | none ↦ table
  | some dialogs ↦ insert session (delete tool dialogs) table
]

-- `this.forSession(sessionId)` and `map.set(toolCallId, dialog)`
pub put : {Q : Type 0} → Table Q → String → String → PendingDialog Q → Table Q
put table session tool dialog =
    insert session (insert tool dialog (get_or (lookup session table) [])) table

-- A settled promise keeps its outcome (`if (settled) return`).
abbrev pub settled_as : {A : Type 0} → Outcome A → Outcome A → Outcome A
settled_as outcome pending = outcome
settled_as outcome old = old

module _ {A P Q : Type 0} where
  -- The constructor; `options.defaultTimeoutMs ?? DEFAULT_TIMEOUT_MS`.
  pub new : Option ℕ → Registry A P Q
  new default_timeout_ms = record {
    by_session = [];
    default_timeout_ms = get_or default_timeout_ms 60000;
    opened = [];
    emitted = [];
  }

  pub find_open : Registry A P Q → String → String → Option (PendingDialog Q)
  find_open r session tool = find_dialog r.by_session session tool

  -- `list`
  pub list_dialogs : Registry A P Q → String → List (PendingDialog Q)
  list_dialogs r session = elim (lookup session r.by_session) [
    | none ↦ []
    | some dialogs ↦ values dialogs
  ]

  emit : Registry A P Q → String → Frame P → Registry A P Q
  emit r session frame = record r { emitted = r.emitted ++ (session, frame) ∷ [] }

  clear_timeout : Registry A P Q → ℕ → Registry A P Q
  clear_timeout r handle = record r {
    opened = modify handle (λ o. record o { armed = false }) r.opened;
  }

  settle : Registry A P Q → ℕ → Outcome A → Registry A P Q
  settle r handle outcome = record r {
    opened = modify handle (λ o. record o { outcome = settled_as outcome o.outcome }) r.opened;
  }

  drop_dialog : Registry A P Q → String → String → Registry A P Q
  drop_dialog r session tool = record r { by_session = forget r.by_session session tool }

  -- The synchronous part of `open`, at the time `now`: its promise is the one at the new handle.
  pub open_dialog : Registry A P Q → OpenArgs P Q → ℕ → Registry A P Q
  unfolding emit
  open_dialog r args now =
      let duration : ℕ = get_or args.timeout_ms r.default_timeout_ms in
      let dialog : PendingDialog Q = record {
        session_id = args.session_id;
        tool_call_id = args.tool_call_id;
        kind = args.kind;
        title = args.title;
        message = args.message;
        options = args.options;
        questions = args.questions;
        placeholder = args.placeholder;
        created_at = now;
        timeout_ms = some duration;
        handle = length r.opened;
      } in
      let promise : Opened A = record {
        outcome = pending;
        armed = true;
        delay = duration;
        session_id = args.session_id;
        tool_call_id = args.tool_call_id;
      } in
      emit
        (record r {
          by_session = put r.by_session args.session_id args.tool_call_id dialog;
          opened = r.opened ++ promise ∷ [];
        })
        args.session_id (signal args.signal_frame)

  pub answer : Registry A P Q → String → String → A → Registry A P Q × Bool
  unfolding clear_timeout drop_dialog settle
  answer r session tool value = elim (find_open r session tool) [
    | none ↦ (r, false)
    | some dialog ↦ (
      settle (drop_dialog (clear_timeout r dialog.handle) session tool) dialog.handle
          (resolved value),
      true,
    )
  ]

  pub cancel : Registry A P Q → String → String → CancelReason → Registry A P Q × Bool
  unfolding clear_timeout drop_dialog settle emit
  cancel r session tool reason = elim (find_open r session tool) [
    | none ↦ (r, false)
    | some dialog ↦ (
      settle
          (emit (drop_dialog (clear_timeout r dialog.handle) session tool) session
            (cancelled tool reason dialog.title))
          dialog.handle (rejected reason),
      true,
    )
  ]

  -- The loop of `cancelAll` over the dialogs that it listed first.
  pub cancel_each : Registry A P Q → String → List (PendingDialog Q) → CancelReason → Registry A P Q
  cancel_each r session [] reason = r
  cancel_each r session (dialog ∷ dialogs) reason =
      cancel_each
        (if is_some (find_open r session dialog.tool_call_id)
          then (cancel r session dialog.tool_call_id reason).0
          else r)
        session dialogs reason

  pub cancel_all : Registry A P Q → String → CancelReason → Registry A P Q × ℕ
  cancel_all r session reason =
      let pending_dialogs : List (PendingDialog Q) = list_dialogs r session in
      (cancel_each r session pending_dialogs reason, length pending_dialogs)

  -- The callback of the timer at `handle`. A timer that is cleared or has run does not run.
  run_timer : Registry A P Q → ℕ → Option (Opened A) → Registry A P Q
  run_timer r handle none = r
  run_timer r handle (some o) =
      let fired : Registry A P Q = clear_timeout r handle in
      let expired : Registry A P Q = (cancel fired o.session_id o.tool_call_id timeout).0 in
      if o.armed then elim o.outcome [ pending ↦ expired | _ ↦ fired ] else r

  pub expire : Registry A P Q → ℕ → Registry A P Q
  unfolding run_timer clear_timeout
  expire r handle = run_timer r handle (get_elem? r.opened handle)

-- `value ? { value } : {}` for a text.
pub non_empty : String → Option String
non_empty text = if text == "" then none else some text

pub non_empty? : Option String → Option String
unfolding non_empty
non_empty? none = none
non_empty? (some text) = non_empty text

-- `snapshot`
pub snapshot_of : {Q : Type 0} → PendingDialog Q → Snapshot Q
unfolding non_empty non_empty?
snapshot_of d = record {
  session_id = d.session_id;
  tool_call_id = d.tool_call_id;
  kind = d.kind;
  title = d.title;
  message = non_empty d.message;
  options = d.options;
  questions = d.questions;
  placeholder = non_empty? d.placeholder;
  created_at = d.created_at;
  timeout_ms = d.timeout_ms;
}

unfoldable pub snapshot : {A P Q : Type 0} → Registry A P Q → String → List (Snapshot Q)
unfolding list_dialogs
snapshot r session = map snapshot_of (list_dialogs r session)
