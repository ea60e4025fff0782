-- ===== src/Dialogs/Removal.antt =====
-- Which dialogs a cancellation takes out of the registry.
use fleet_prime_agent.Prelude.{
  String, ◌≡◌, true, List, [], ◌∷◌, none, some, arith, ◌==◌, ==_iff, ==_refl, ◌&&◌, if◌then◌else◌,
  Bool-cases, Option-cases, inl, inr, any, is_some,
}
use fleet_prime_agent.Prelude.Dict.{In, lookup-In, lookup}
use fleet_prime_agent.Dialogs.{
  PendingDialog, Registry, CancelReason, find_dialog, find_open, cancel, cancel_each, cancel_all,
  list_dialogs,
}
use fleet_prime_agent.Dialogs.Table.{find_dialog-forget}
use fleet_prime_agent.Dialogs.Calls.{IsCoherent}

any-In :
    {Q : Type 0} (ds : List (PendingDialog Q)) (d : PendingDialog Q) (t : String)
    → In d ds
    → d.tool_call_id ≡ t
    → any (λ x. x.tool_call_id == t) ds ≡ true
any-In [] d t m e = absurd m
any-In (x ∷ ds) d t (inl here) e = rw (here, e, ==_refl t)
any-In (x ∷ ds) d t (inr there) e = ground (arith, any-In ds d t there e)

module _ {A P Q : Type 0} where
  pub find_open-cancel :
      (r : Registry A P Q) (s t s' t' : String) (reason : CancelReason)
      → find_open (cancel r s t reason).0 s' t'
        ≡ (if s == s' && t == t' then none else find_open r s' t')
  unfolding cancel find_open
  find_open-cancel r s t s' t' reason = elim (Option-cases (find_dialog r.by_session s t)) [
    | inl missing ↦ rw (missing, cancel) (ground (arith, missing, ==_iff s s', ==_iff t t'))
    | inr (d, found) ↦ rw (found, cancel) (find_dialog-forget r.by_session s t s' t')
  ]

  find_open-cancel_each :
      (r : Registry A P Q) (s : String) (ds : List (PendingDialog Q)) (reason : CancelReason)
      (s' t' : String)
      → find_open (cancel_each r s ds reason) s' t'
        ≡ (if s == s' && any (λ d. d.tool_call_id == t') ds then none else find_open r s' t')
  unfolding cancel_each
  find_open-cancel_each r s [] reason s' t' = ground arith
  find_open-cancel_each r s (d ∷ ds) reason s' t' =
      elim (Bool-cases (is_some (find_open r s d.tool_call_id))) [
        | inl there ↦
            rw
              (
                there,
                find_open-cancel_each (cancel r s d.tool_call_id reason).0 s ds reason s' t',
                find_open-cancel r s d.tool_call_id s' t' reason,
              )
              (ground arith)
        | inr gone ↦
            rw (gone, find_open-cancel_each r s ds reason s' t')
              (ground (arith, ==_iff s s', ==_iff d.tool_call_id t'))
      ]

  pub listed :
      (r : Registry A P Q) (s t : String) (d : PendingDialog Q)
      → IsCoherent r
      → find_open r s t ≡ some d
      → any (λ x. x.tool_call_id == t) (list_dialogs r s) ≡ true
  unfolding list_dialogs find_open find_dialog
  listed r s t d v found = elim (Option-cases (lookup s r.by_session)) [
    | inl missing ↦ absurd (ground (arith, missing))
    | inr (dialogs, at) ↦
        rw (at, list_dialogs)
          (any-In _ d t (lookup-In t dialogs (ground (arith, at))) (v.registered s t d found).tool)
  ]

  -- In a coherent registry, after cancelAll no dialog of the session is open, and the dialogs of
  -- every other session are as before.
  pub find_open-cancel_all :
      (r : Registry A P Q) (s : String) (reason : CancelReason) (s' t' : String)
      → IsCoherent r
      → find_open (cancel_all r s reason).0 s' t' ≡ (if s == s' then none else find_open r s' t')
  unfolding cancel_all
  find_open-cancel_all r s reason s' t' v =
      rw (find_open-cancel_each r s (list_dialogs r s) reason s' t')
        (elim (Option-cases (find_open r s' t')) [
          | inl missing ↦ rw missing (ground arith)
          | inr (d, found) ↦ elim (Bool-cases (s == s')) [
            | inl same ↦ rw (same, listed r s t' d v (rw ((==_iff s s').0 same) found))
            | inr other ↦ rw other
          ]
        ])
