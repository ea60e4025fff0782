-- ===== src/Dialogs/Outcomes.antt =====
-- What the calls on the registry do to its dialogs and to their promises.
use fleet_prime_agent.Prelude.{
  ℕ, String, ◌≡◌, refl, sym, ap, ◌∙◌, ◌≢◌, true, false, List, [], ◌∷◌, ◌++◌, Option, none, some,
  arith, ◌==◌, ==_iff, ==_refl, ◌&&◌, if◌then◌else◌, Bool-cases, Option-cases, inl, inr, any,
  get_or, get_elem?, modify, is_some, get_elem?-modify_self, get_elem?-modify_ne,
}
use native.Mathlib.Decide.{ℕ_discrete}
use fleet_prime_agent.Dialogs.{
  PendingDialog, Opened, Outcome, pending, resolved, rejected, timeout, Registry, CancelReason,
  cancelled, find_open, answer, cancel, cancel_each, cancel_all, expire, run_timer, list_dialogs,
  settled_as,
}
use fleet_prime_agent.Dialogs.Table.{find_dialog-forget}
use fleet_prime_agent.Dialogs.Coherence.{waiting}
use fleet_prime_agent.Dialogs.Removal.{find_open-cancel, listed}
use fleet_prime_agent.Dialogs.Calls.{
  IsCoherent, cancel-IsCoherent, get_elem?-closed, closed, stopped, settled, modify-stopped_twice,
}

abbrev outcome_of : {A : Type 0} → Option (Opened A) → Option (Outcome A)
outcome_of none = none
outcome_of (some o) = some o.outcome

module _ {A : Type 0} where
  outcome-stopped :
      (h j : ℕ) (opened : List (Opened A))
      → outcome_of (get_elem? (modify h stopped opened) j) ≡ outcome_of (get_elem? opened j)
  outcome-stopped h j opened = elim (ℕ_discrete h j) [
    | yes e ↦
        rw (e, get_elem?-modify_self j stopped opened)
          (elim (Option-cases (get_elem? opened j)) [
            | inl missing ↦ rw missing
            | inr (o, at) ↦ rw at
          ])
    | no ne ↦ rw (get_elem?-modify_ne h j stopped opened ne)
  ]

  outcome-settled :
      (h j : ℕ) (x y : Outcome A) (opened : List (Opened A))
      → outcome_of (get_elem? opened j) ≡ some y
      → y ≢ pending
      → outcome_of (get_elem? (modify h (settled x) opened) j) ≡ some y
  outcome-settled h j x y opened at ne = elim (ℕ_discrete h j) [
    | yes e ↦
        rw (e, get_elem?-modify_self j (settled x) opened)
          (elim (Option-cases (get_elem? opened j)) [
            | inl missing ↦ absurd (ground (arith, missing))
            | inr (o, there) ↦ rw there (kept o.outcome (ground (arith, there)))
          ])
    | no other ↦ rw (get_elem?-modify_ne h j (settled x) opened other) at
  ]
    where
      kept : (old : Outcome A) → old ≡ y → some (settled_as x old) ≡ some y
      kept pending e = absurd (ne (sym e))
      kept (resolved a) e = ap some e
      kept (rejected r) e = ap some e

  -- A settled promise keeps its outcome when a dialog is closed.
  outcome-closed :
      (h j : ℕ) (x y : Outcome A) (opened : List (Opened A))
      → outcome_of (get_elem? opened j) ≡ some y
      → y ≢ pending
      → outcome_of (get_elem? (closed h x opened) j) ≡ some y
  outcome-closed h j x y opened at ne =
      outcome-settled h j x y (modify h stopped opened) (outcome-stopped h j opened ∙ at) ne

module _ {A P Q : Type 0} where
  -- The promise that the dialog with this handle hands to its caller.
  abbrev pub outcome_at : Registry A P Q → ℕ → Option (Outcome A)
  outcome_at r h = outcome_of (get_elem? r.opened h)

  outcome_at-cancel :
      (r : Registry A P Q) (s t : String) (reason : CancelReason) (j : ℕ) (y : Outcome A)
      → outcome_at r j ≡ some y
      → y ≢ pending
      → outcome_at (cancel r s t reason).0 j ≡ some y
  unfolding cancel
  outcome_at-cancel r s t reason j y at ne = elim (Option-cases (find_open r s t)) [
    | inl missing ↦ rw (missing, cancel) at
    | inr (d, found) ↦
        rw (found, cancel) (outcome-closed d.handle j (rejected reason) y r.opened at ne)
  ]

  outcome_at-cancel_each :
      (r : Registry A P Q) (s : String) (ds : List (PendingDialog Q)) (reason : CancelReason)
      (j : ℕ) (y : Outcome A)
      → outcome_at r j ≡ some y
      → y ≢ pending
      → outcome_at (cancel_each r s ds reason) j ≡ some y
  unfolding cancel_each
  outcome_at-cancel_each r s [] reason j y at ne = at
  outcome_at-cancel_each r s (d ∷ ds) reason j y at ne =
      outcome_at-cancel_each
        (if is_some (find_open r s d.tool_call_id) then (cancel r s d.tool_call_id reason).0 else r)
        s ds reason j y
        (elim (Bool-cases (is_some (find_open r s d.tool_call_id))) [
          | inl there ↦ rw there (outcome_at-cancel r s d.tool_call_id reason j y at ne)
          | inr gone ↦ rw gone at
        ])
        ne

  cancelled_outcome :
      (r : Registry A P Q) (s t : String) (reason : CancelReason) (d : PendingDialog Q)
      → IsCoherent r
      → find_open r s t ≡ some d
      → outcome_at (cancel r s t reason).0 d.handle ≡ some (rejected reason)
  unfolding cancel find_open
  cancelled_outcome r s t reason d v found =
      rw (found, cancel)
        (ap outcome_of
          (get_elem?-closed r.opened d.handle (rejected reason) (v.registered s t d found).entry))

  outcome_at-cancel_each_open :
      (r : Registry A P Q) (s : String) (ds : List (PendingDialog Q)) (reason : CancelReason)
      (t : String) (d : PendingDialog Q)
      → IsCoherent r
      → find_open r s t ≡ some d
      → any (λ x. x.tool_call_id == t) ds ≡ true
      → outcome_at (cancel_each r s ds reason) d.handle ≡ some (rejected reason)
  unfolding cancel_each
  outcome_at-cancel_each_open r s [] reason t d v found m = absurd (cc)
  outcome_at-cancel_each_open r s (x ∷ ds) reason t d v found m =
      elim (Bool-cases (x.tool_call_id == t)) [
        | inl here ↦
            let at : find_open r s x.tool_call_id ≡ some d =
              ap (find_open r s) ((==_iff x.tool_call_id t).0 here) ∙ found in
            let there : is_some (find_open r s x.tool_call_id) ≡ true = rw at in
            rw (there, cancel_each)
              (outcome_at-cancel_each (cancel r s x.tool_call_id reason).0 s ds reason d.handle
                (rejected reason) (cancelled_outcome r s x.tool_call_id reason d v at) (λ e. cc))
        | inr later ↦
            outcome_at-cancel_each_open
              (if is_some (find_open r s x.tool_call_id)
                then (cancel r s x.tool_call_id reason).0
                else r)
              s ds reason t d
              (elim (Bool-cases (is_some (find_open r s x.tool_call_id))) [
                | inl there ↦ rw there (cancel-IsCoherent r s x.tool_call_id reason v)
                | inr gone ↦ rw gone v
              ])
              (elim (Bool-cases (is_some (find_open r s x.tool_call_id))) [
                | inl there ↦
                    rw (there, find_open-cancel r s x.tool_call_id s t reason, later, ==_refl s)
                      found
                | inr gone ↦ rw gone found
              ])
              (ground arith)
      ]

  -- In a coherent registry, cancelAll rejects the promise of every open dialog of the session with
  -- the given reason.
  pub cancel_all_rejects :
      (r : Registry A P Q) (s t : String) (reason : CancelReason) (d : PendingDialog Q)
      → IsCoherent r
      → find_open r s t ≡ some d
      → outcome_at (cancel_all r s reason).0 d.handle ≡ some (rejected reason)
  unfolding cancel_all
  cancel_all_rejects r s t reason d v found =
      outcome_at-cancel_each_open r s (list_dialogs r s) reason t d v found (listed r s t d v found)

  -- In a coherent registry an answer to an open dialog is accepted: its promise is resolved with
  -- the answer and its timer stopped, it is open no more, every other dialog is as before and no
  -- frame is emitted.
  pub answer_lem :
      (r : Registry A P Q) (s t s' t' : String) (value : A) (d : PendingDialog Q)
      → IsCoherent r
      → find_open r s t ≡ some d
      → let (r', done) = answer r s t value in
        (done ≡ true)
        × (get_elem? r'.opened d.handle
            ≡ some (record (waiting s t (get_or d.timeout_ms 0)) {
              outcome = resolved value;
              armed = false;
            }))
        × (find_open r' s' t' ≡ (if s == s' && t == t' then none else find_open r s' t'))
        × (r'.emitted ≡ r.emitted)
  unfolding answer find_open
  answer_lem r s t s' t' value d v found =
      rw (found, answer)
        (
          refl,
          get_elem?-closed r.opened d.handle (resolved value) (v.registered s t d found).entry,
          find_dialog-forget r.by_session s t s' t',
          refl,
        )

  -- In a coherent registry, when the timer of an open dialog runs, its promise is rejected with the
  -- timeout, it is open no more, every other dialog is as before, and exactly one cancellation
  -- frame is emitted to its session.
  pub expire_lem :
      (r : Registry A P Q) (s t s' t' : String) (d : PendingDialog Q)
      → IsCoherent r
      → find_open r s t ≡ some d
      → let r' = expire r d.handle in
        (outcome_at r' d.handle ≡ some (rejected timeout))
        × (find_open r' s' t' ≡ (if s == s' && t == t' then none else find_open r s' t'))
        × (r'.emitted ≡ r.emitted ++ (s, cancelled t timeout d.title) ∷ [])
  unfolding expire cancel find_open
  expire_lem r s t s' t' d v found =
      let entry = (v.registered s t d found).entry in
      rw (entry, run_timer, found, cancel)
        (
          rw (modify-stopped_twice d.handle r.opened)
              (ap outcome_of (get_elem?-closed r.opened d.handle (rejected timeout) entry)),
          find_dialog-forget r.by_session s t s' t',
          refl,
        )
