-- ===== src/Dialogs/Coherence.antt =====
-- The registry against the promises and timers that it has handed out.
use fleet_prime_agent.Prelude.{
  ℕ, String, ◌≡◌, sym, ◌∙◌, ◌≢◌, true, false, List, [], ◌∷◌, ◌++◌, none, some, arith, ◌==◌, ==_iff,
  ==_refl, ◌&&◌, get_or, Bool-cases, inl, inr, length, get_elem?, get_elem?-append_end,
  get_elem?-append_ne, get_elem?_end,
}
use native.Mathlib.Decide.{ℕ_discrete}
use fleet_prime_agent.Dialogs.{PendingDialog, Table, Opened, pending, find_dialog, forget, put}
use fleet_prime_agent.Dialogs.Table.{find_dialog-put, find_dialog-forget}

-- What `open` puts in the store.
abbrev pub waiting : {A : Type 0} → String → String → ℕ → Opened A
waiting session tool delay = record {
  outcome = pending;
  armed = true;
  delay = delay;
  session_id = session;
  tool_call_id = tool;
}

-- A registered dialog stands under its own ids, its promise is pending and its timer runs.
pub record Registered {A Q : Type 0} (opened : List (Opened A)) (s t : String) (d : PendingDialog Q)
    : Type 0 where
  pub session : d.session_id ≡ s
  pub tool : d.tool_call_id ≡ t
  pub entry : get_elem? opened d.handle ≡ some (waiting s t (get_or d.timeout_ms 0))

pub record Coherent {A Q : Type 0} (table : Table Q) (opened : List (Opened A)) : Type 0 where
  pub registered :
      (s t : String) (d : PendingDialog Q)
      → find_dialog table s t ≡ some d
      → Registered opened s t d
  -- A pending promise can still be settled: its dialog is registered.
  pub awaited :
      (h : ℕ) (o : Opened A)
      → get_elem? opened h ≡ some o
      → o.outcome ≡ pending
      → (d : PendingDialog Q) × (find_dialog table o.session_id o.tool_call_id ≡ some d)
        × (d.handle ≡ h)
  -- No timer outlives its dialog.
  pub disarmed :
      (h : ℕ) (o : Opened A) → get_elem? opened h ≡ some o → o.armed ≡ true → o.outcome ≡ pending

both_eq : (s t s' t' : String) → (s == s' && t == t') ≡ true → (s ≡ s') × (t ≡ t')
both_eq s t s' t' e = ground (arith, ==_iff s s', ==_iff t t')

both_refl : (s t : String) → (s == s && t == t) ≡ true
both_refl s t = rw (==_refl s, ==_refl t)

module _ {A Q : Type 0} where
  -- A new dialog under an unused id.
  pub put-Coherent :
      (table : Table Q) (opened : List (Opened A)) (s t : String) (d : PendingDialog Q)
      → Coherent table opened
      → find_dialog table s t ≡ none
      → d.session_id ≡ s
      → d.tool_call_id ≡ t
      → d.handle ≡ length opened
      → Coherent (put table s t d) (opened ++ waiting s t (get_or d.timeout_ms 0) ∷ [])
  put-Coherent table opened s t d v fresh es et eh = record {
    registered = λ s' t' d' found. elim (Bool-cases (s == s' && t == t')) [
      | inl same ↦
          let e : d ≡ d' = ground (arith, find_dialog-put table s t s' t' d) in
          let (e₁, e₂) = both_eq s t s' t' same in
          rw (← e, ← e₁, ← e₂)
            (record {
              session = es;
              tool = et;
              entry = rw eh (get_elem?-append_end opened (waiting s t (get_or d.timeout_ms 0)));
            })
      | inr other ↦
          let old = v.registered s' t' d' (ground (arith, find_dialog-put table s t s' t' d)) in
          record {
            session = old.session;
            tool = old.tool;
            entry =
                get_elem?-append_ne opened _ d'.handle
                  (λ e. ground (arith, get_elem?_end opened, old.entry))
                ∙ old.entry;
          }
    ];
    awaited = λ h o at waits. elim (ℕ_discrete h (length opened)) [
      | yes e ↦
          let fresh_o : o ≡ waiting s t (get_or d.timeout_ms 0) =
            ground (arith, get_elem?-append_end opened (waiting s t (get_or d.timeout_ms 0))) in
          (
            d,
            rw fresh_o (ground (arith, find_dialog-put table s t s t d, both_refl s t)),
            eh ∙ sym e,
          )
      | no ne ↦
          let (d', found, eq) =
            v.awaited h o (sym (get_elem?-append_ne opened _ h ne) ∙ at) waits in
          (
            d',
            ground (
              arith,
              find_dialog-put table s t o.session_id o.tool_call_id d,
              both_eq s t o.session_id o.tool_call_id,
            ),
            eq,
          )
    ];
    disarmed = λ h o at arm. elim (ℕ_discrete h (length opened)) [
      | yes e ↦ ground (arith, get_elem?-append_end opened (waiting s t (get_or d.timeout_ms 0)))
      | no ne ↦ v.disarmed h o (sym (get_elem?-append_ne opened _ h ne) ∙ at) arm
    ];
  }

  -- A dialog that is taken out while its promise is settled and its timer stopped.
  pub forget-Coherent :
      (table : Table Q) (opened opened' : List (Opened A)) (s t : String) (d : PendingDialog Q)
      → Coherent table opened
      → find_dialog table s t ≡ some d
      → (o : Opened A) → get_elem? opened' d.handle ≡ some o
      → o.outcome ≢ pending
      → o.armed ≡ false
      → ((j : ℕ) → d.handle ≢ j → get_elem? opened' j ≡ get_elem? opened j)
      → Coherent (forget table s t) opened'
  forget-Coherent table opened opened' s t d v found o at settled off rest = record {
    registered = λ s' t' d' found'.
        let other : (s == s' && t == t') ≡ false =
          ground (arith, find_dialog-forget table s t s' t') in
        let old = v.registered s' t' d' (ground (arith, find_dialog-forget table s t s' t')) in
        record {
          session = old.session;
          tool = old.tool;
          entry =
              rest d'.handle (λ e.
                ground
                  (arith, (v.registered s t d found).entry, old.entry, ==_iff s s', ==_iff t t'))
              ∙ old.entry;
        };
    awaited = λ h o' at' waits. elim (ℕ_discrete d.handle h) [
      | yes e ↦ absurd (settled (ground arith))
      | no ne ↦
          let (d', found', eq) = v.awaited h o' (sym (rest h ne) ∙ at') waits in
          let session : String = o'.session_id in
          let tool : String = o'.tool_call_id in
          (
            d',
            elim (Bool-cases (s == session && t == tool)) [
              | inl same ↦ absurd (ne (ground (arith, both_eq s t session tool)))
              | inr other ↦ ground (arith, find_dialog-forget table s t session tool)
            ],
            eq,
          )
    ];
    disarmed = λ h o' at' arm. elim (ℕ_discrete d.handle h) [
      | yes e ↦ absurd (ground arith)
      | no ne ↦ v.disarmed h o' (sym (rest h ne) ∙ at') arm
    ];
  }
