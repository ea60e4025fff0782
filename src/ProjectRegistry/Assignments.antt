-- ===== src/ProjectRegistry/Assignments.antt =====
-- What a call leaves of the session assignments.
use fleet_prime_agent.Prelude.{
  String, ◌≡◌, refl, sym, ap, ◌∙◌, Bool, true, false, Option, none, some, ◌==◌, ==_iff,
  if◌then◌else◌, is_some, Option-cases, ==_refl, ◌⊎◌, Bool-cases, inl, inr,
}
use fleet_prime_agent.Prelude.Text.{truthy?}
use fleet_prime_agent.Prelude.Dict.{lookup, lookup-insert, lookup-delete}
use fleet_prime_agent.ProjectRegistry.{
  Registry, unknown_project, not_written, not_a_directory, Result, returns, throws, get,
  set_assignment, try_assign, same_project, assign_known, assign_as, assign_session,
}

-- The project that a session is assigned to.
abbrev pub assigned : Registry → String → Option String
assigned r session_id = lookup session_id r.assignments

assigned-set_assignment :
    (r : Registry) (session_id : String) (project : Option String) (other : String)
    → assigned (set_assignment r session_id project) other
      ≡ (if session_id == other then project else assigned r other)
unfolding set_assignment
assigned-set_assignment r session_id none other = lookup-delete session_id other r.assignments
assigned-set_assignment r session_id (some p) other = lookup-insert session_id other p r.assignments

-- The project is none, or one that is known.
abbrev pub Known : Registry → Option String → Type 0
Known r none = Unit {0}
Known r (some p) = is_some (get r p) ≡ true

abbrev Unchanged : Registry → Registry → Type 0
Unchanged r after = (other : String) → assigned after other ≡ assigned r other

-- The session has the project, where an empty id counts as none, and every other session what it had.
abbrev Moved : Registry → String → Option String → Registry → Type 0
Moved r session_id next after =
    (truthy? (assigned after session_id) ≡ next)
    × ((other : String)
        → (if session_id == other then none else assigned after other)
          ≡ (if session_id == other then none else assigned r other))

-- When an assignment returns, when it throws, and what it leaves.
abbrev pub IsAtomic :
    Registry → String → Option String → Bool → Registry × Result (Option String) → Type 0
IsAtomic r session_id next written (after, returns p) =
    (p ≡ next)
    × Known r next
    × ((written ≡ true) ⊎ (truthy? (assigned r session_id) ≡ next))
    × Moved r session_id next after
IsAtomic r session_id next written (after, throws unknown_project) =
    ((p : String) × (next ≡ some p) × (get r p ≡ none)) × Unchanged r after
IsAtomic r session_id next written (after, throws not_written) =
    Known r next × (written ≡ false) × Unchanged r after
IsAtomic r session_id next written (after, throws not_a_directory) = ⊥

set_assignment-Moved :
    (r : Registry) (session_id : String) (next : Option String)
    → truthy? next ≡ next
    → Moved r session_id next (set_assignment r session_id next)
set_assignment-Moved r session_id next whole = (
  rw (assigned-set_assignment r session_id next session_id, ==_refl session_id) whole,
  λ other. elim (Bool-cases (session_id == other)) [
    | inl same ↦ rw same refl
    | inr apart ↦ rw apart (assigned-set_assignment r session_id next other ∙ rw apart refl)
  ],
)

restored-Unchanged :
    (r : Registry) (session_id : String) (next : Option String)
    → Unchanged r
        (set_assignment (set_assignment r session_id next) session_id (assigned r session_id))
restored-Unchanged r session_id next = λ other. elim (Bool-cases (session_id == other)) [
  | inl same ↦
      assigned-set_assignment (set_assignment r session_id next) session_id (assigned r session_id)
        other
      ∙ rw same (ap (assigned r) ((==_iff session_id other).0 same))
  | inr different ↦
      assigned-set_assignment (set_assignment r session_id next) session_id (assigned r session_id)
        other
      ∙ rw different (assigned-set_assignment r session_id next other ∙ rw different refl)
]

try_assign-IsAtomic :
    (r : Registry) (session_id : String) (next : Option String) (written : Bool)
    → truthy? next ≡ next
    → Known r next
    → IsAtomic r session_id next written
        (try_assign r session_id (assigned r session_id) next written)
unfolding try_assign
try_assign-IsAtomic r session_id next true whole known =
    (refl, known, inl refl, set_assignment-Moved r session_id next whole)
try_assign-IsAtomic r session_id next false whole known =
    (known, refl, restored-Unchanged r session_id next)

same_project-equal : (a b : Option String) → same_project a b ≡ true → a ≡ b
unfolding same_project
same_project-equal none b h = absurd (cc)
same_project-equal (some p) none h = absurd (cc)
same_project-equal (some p) (some q) h = ap some ((==_iff p q).0 h)

truthy?-twice : (o : Option String) → truthy? (truthy? o) ≡ truthy? o
truthy?-twice none = refl
truthy?-twice (some s) = elim (Bool-cases (s == "")) [
  | inl empty ↦ rw empty refl
  | inr apart ↦ rw (apart, apart) refl
]

assign_known-IsAtomic :
    (r : Registry) (session_id : String) (project_id next : Option String) (written : Bool)
    → next ≡ truthy? project_id
    → Known r next
    → IsAtomic r session_id next written (assign_known r session_id project_id next written)
unfolding assign_known
assign_known-IsAtomic r session_id project_id next written e known =
    elim (Bool-cases (same_project (assigned r session_id) project_id)) [
      | inl same ↦
          let there =
            ap truthy? (same_project-equal (assigned r session_id) project_id same) ∙ sym e in
          rw same (refl, known, inr there, (there, λ other. refl))
      | inr different ↦ rw different (
          try_assign-IsAtomic r session_id next written
            (ap truthy? e ∙ truthy?-twice project_id ∙ sym e) known)
    ]

assign_as-IsAtomic :
    (r : Registry) (session_id : String) (project_id next : Option String) (written : Bool)
    → next ≡ truthy? project_id
    → IsAtomic r session_id next written (assign_as r session_id project_id next written)
unfolding assign_as
assign_as-IsAtomic r session_id project_id none written e =
    assign_known-IsAtomic r session_id project_id none written e tt
assign_as-IsAtomic r session_id project_id (some p) written e = elim (Option-cases (get r p)) [
  | inr (found, known) ↦
      let there : is_some (get r p) ≡ true = rw known refl in
      rw there (assign_known-IsAtomic r session_id project_id (some p) written e there)
  | inl unknown ↦
      let gone : is_some (get r p) ≡ false = rw unknown refl in
      rw gone ((p, refl, unknown), λ other. refl)
]

-- An assignment is all or nothing. It throws for an unknown project, and where the file is not written, and
-- then every session has what it had. It returns only where the project is none or known, and the file is
-- written or the session had the project already, and then the session has the project, or none, and every
-- other session what it had.
pub assign_session-IsAtomic :
    (r : Registry) (session_id : String) (project_id : Option String) (written : Bool)
    → IsAtomic r session_id
        (truthy? project_id)
        written
        (assign_session r session_id project_id written)
unfolding assign_session
assign_session-IsAtomic r session_id project_id written =
    assign_as-IsAtomic r session_id project_id (truthy? project_id) written refl
