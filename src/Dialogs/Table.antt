-- ===== src/Dialogs/Table.antt =====
-- The two-level map of dialogs: what a lookup finds after a write and after a deletion.
use fleet_prime_agent.Prelude.{
  String, ◌≡◌, [], none, some, arith, ◌==◌, ==_iff, Bool-cases, true, ◌&&◌, if◌then◌else◌, get_or,
  Option-cases, inl, inr,
}
use fleet_prime_agent.Prelude.Dict.{lookup, insert, delete, lookup-insert, lookup-delete}
use fleet_prime_agent.Dialogs.{PendingDialog, Table, find_dialog, forget, put}

module _ {Q : Type 0} where
  lookup_inner :
      (table : Table Q) (s s' t : String)
      → (s == s') ≡ true
      → lookup t (get_or (lookup s table) []) ≡ find_dialog table s' t
  unfolding find_dialog lookup
  lookup_inner table s s' t e = rw (← (==_iff s s').0 e) (elim (Option-cases (lookup s table)) [
    | inl missing ↦ rw missing
    | inr (dialogs, found) ↦ rw found
  ])

  pub find_dialog-put :
      (table : Table Q) (s t s' t' : String) (dialog : PendingDialog Q)
      → find_dialog (put table s t dialog) s' t'
        ≡ (if s == s' && t == t' then some dialog else find_dialog table s' t')
  unfolding find_dialog put
  find_dialog-put table s t s' t' dialog =
      rw (lookup-insert s s' (insert t dialog (get_or (lookup s table) [])) table)
        (elim (Bool-cases (s == s')) [
          | inl same ↦ rw (
            same,
            lookup-insert t t' dialog (get_or (lookup s table) []),
            lookup_inner table s s' t' same,
          )
          | inr other ↦ rw other
        ])

  pub find_dialog-forget :
      (table : Table Q) (s t s' t' : String)
      → find_dialog (forget table s t) s' t'
        ≡ (if s == s' && t == t' then none else find_dialog table s' t')
  unfolding find_dialog forget
  find_dialog-forget table s t s' t' = elim (Option-cases (lookup s table)) [
    | inl missing ↦
        rw (missing, forget)
          (elim (Bool-cases (s == s')) [
            | inl same ↦ rw (same, ← (==_iff s s').0 same, missing) (ground arith)
            | inr other ↦ rw other
          ])
    | inr (dialogs, found) ↦
        rw (found, forget, lookup-insert s s' (delete t dialogs) table)
          (elim (Bool-cases (s == s')) [
            | inl same ↦ rw (same, lookup-delete t t' dialogs, ← (==_iff s s').0 same, found)
            | inr other ↦ rw other
          ])
  ]
