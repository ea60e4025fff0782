-- ===== src/Dialogs/Calls.antt =====
-- Every call on the registry keeps it coherent.
use fleet_prime_agent.Prelude.{
  is_some, zero, suc, ℕ, String, ◌≡◌, refl, ap, ◌∙◌, ◌≢◌, false, List, [], ◌∷◌, none, some,
  if◌then◌else◌, Bool-cases, Option-cases, inl, inr, get_elem?, modify, get_elem?-modify_self,
  get_elem?-modify_ne,
}
use fleet_prime_agent.Dialogs.{
  PendingDialog, Table, Opened, Outcome, pending, resolved, rejected, timeout, Registry, OpenArgs,
  CancelReason, find_dialog, forget, find_open, open_dialog, answer, cancel, cancel_each,
  cancel_all, expire, settled_as, list_dialogs, run_timer,
}
use fleet_prime_agent.Dialogs.Coherence.{waiting, Coherent, put-Coherent, forget-Coherent}

abbrev pub stopped : {A : Type 0} → Opened A → Opened A
stopped o = record o { armed = false }

abbrev pub settled : {A : Type 0} → Outcome A → Opened A → Opened A
settled outcome o = record o { outcome = settled_as outcome o.outcome }

-- The store after a timer is stopped and a promise settled.
abbrev pub closed : {A : Type 0} → ℕ → Outcome A → List (Opened A) → List (Opened A)
closed h outcome opened = modify h (settled outcome) (modify h stopped opened)

module _ {A : Type 0} where
  pub get_elem?-closed :
      (opened : List (Opened A)) (h : ℕ) (outcome : Outcome A) {s t : String} {delay : ℕ}
      → get_elem? opened h ≡ some (waiting s t delay)
      → get_elem? (closed h outcome opened) h
        ≡ some (record (waiting s t delay) { outcome = outcome; armed = false })
  get_elem?-closed opened h outcome at = rw (
    get_elem?-modify_self h (settled outcome) (modify h stopped opened),
    get_elem?-modify_self h stopped opened,
    at,
  )

  pub get_elem?-closed_ne :
      (opened : List (Opened A)) (h : ℕ) (outcome : Outcome A) (j : ℕ)
      → h ≢ j
      → get_elem? (closed h outcome opened) j ≡ get_elem? opened j
  get_elem?-closed_ne opened h outcome j ne =
      get_elem?-modify_ne h j _ (modify h stopped opened) ne ∙ get_elem?-modify_ne h j _ opened ne

  pub modify-stopped_twice :
      (h : ℕ) (opened : List (Opened A))
      → modify h stopped (modify h stopped opened) ≡ modify h stopped opened
  modify-stopped_twice h [] = refl
  modify-stopped_twice zero (o ∷ os) = refl
  modify-stopped_twice (suc h) (o ∷ os) = ap (◌∷◌ o) (modify-stopped_twice h os)

close-Coherent :
    {A Q : Type 0} (table : Table Q) (opened : List (Opened A)) (s t : String) (d : PendingDialog Q)
    (outcome : Outcome A)
    → Coherent table opened
    → find_dialog table s t ≡ some d
    → outcome ≢ pending
    → Coherent (forget table s t) (closed d.handle outcome opened)
close-Coherent table opened s t d outcome v found ne =
    forget-Coherent table opened (closed d.handle outcome opened) s t d v found _
      (get_elem?-closed opened d.handle outcome (v.registered s t d found).entry) ne refl
      (get_elem?-closed_ne opened d.handle outcome)

-- The same behind the timer's own run, which stops it first.
expired-Coherent :
    {A Q : Type 0} (table : Table Q) (opened : List (Opened A)) (s t : String) (d : PendingDialog Q)
    (h : ℕ)
    → Coherent table opened
    → find_dialog table s t ≡ some d
    → d.handle ≡ h
    → Coherent (forget table s t) (closed d.handle (rejected timeout) (modify h stopped opened))
expired-Coherent table opened s t d h v found eq =
    rw (← eq, modify-stopped_twice d.handle opened)
      (close-Coherent table opened s t d (rejected timeout) v found (λ e. cc))

module _ {A P Q : Type 0} where
  abbrev pub IsCoherent : Registry A P Q → Type 0
  IsCoherent r = Coherent r.by_session r.opened

  pub open_dialog-IsCoherent :
      (r : Registry A P Q) (args : OpenArgs P Q) (now : ℕ)
      → IsCoherent r
      → find_open r args.session_id args.tool_call_id ≡ none
      → IsCoherent (open_dialog r args now)
  unfolding open_dialog find_open
  open_dialog-IsCoherent r args now v fresh =
      put-Coherent r.by_session r.opened args.session_id args.tool_call_id _ v fresh refl refl refl

  pub answer-IsCoherent :
      (r : Registry A P Q) (s t : String) (value : A)
      → IsCoherent r
      → IsCoherent (answer r s t value).0
  unfolding answer find_open
  answer-IsCoherent r s t value v = elim (Option-cases (find_open r s t)) [
    | inl missing ↦ rw (missing, answer) v
    | inr (d, found) ↦
        rw (found, answer)
          (close-Coherent r.by_session r.opened s t d (resolved value) v found (λ e. cc))
  ]

  pub cancel-IsCoherent :
      (r : Registry A P Q) (s t : String) (reason : CancelReason)
      → IsCoherent r
      → IsCoherent (cancel r s t reason).0
  unfolding cancel find_open
  cancel-IsCoherent r s t reason v = elim (Option-cases (find_open r s t)) [
    | inl missing ↦ rw (missing, cancel) v
    | inr (d, found) ↦
        rw (found, cancel)
          (close-Coherent r.by_session r.opened s t d (rejected reason) v found (λ e. cc))
  ]

  cancel_each-IsCoherent :
      (r : Registry A P Q) (s : String) (dialogs : List (PendingDialog Q)) (reason : CancelReason)
      → IsCoherent r
      → IsCoherent (cancel_each r s dialogs reason)
  unfolding cancel_each
  cancel_each-IsCoherent r s [] reason v = v
  cancel_each-IsCoherent r s (d ∷ dialogs) reason v =
      cancel_each-IsCoherent
        (if is_some (find_open r s d.tool_call_id) then (cancel r s d.tool_call_id reason).0 else r)
        s dialogs reason
        (elim (Bool-cases (is_some (find_open r s d.tool_call_id))) [
          | inl there ↦ rw there (cancel-IsCoherent r s d.tool_call_id reason v)
          | inr gone ↦ rw gone v
        ])

  pub cancel_all-IsCoherent :
      (r : Registry A P Q) (s : String) (reason : CancelReason)
      → IsCoherent r
      → IsCoherent (cancel_all r s reason).0
  unfolding cancel_all
  cancel_all-IsCoherent r s reason v = cancel_each-IsCoherent r s (list_dialogs r s) reason v

  pub expire-IsCoherent : (r : Registry A P Q) (h : ℕ) → IsCoherent r → IsCoherent (expire r h)
  unfolding expire cancel find_open
  expire-IsCoherent r h v = elim (Option-cases (get_elem? r.opened h)) [
    | inl missing ↦ rw (missing, run_timer) v
    | inr (o, at) ↦ rw at (elim (Bool-cases o.armed) [
      | inl arm ↦
          let (d, found, eq) = v.awaited h o at (v.disarmed h o at arm) in
          rw (arm, v.disarmed h o at arm, found, cancel)
            (expired-Coherent r.by_session r.opened o.session_id o.tool_call_id d h v found eq)
      | inr off ↦ rw off v
    ])
  ]
