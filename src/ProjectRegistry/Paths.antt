-- ===== src/ProjectRegistry/Paths.antt =====
-- A directory has one project, and the registry finds it.
use fleet_prime_agent.Prelude.{
  ℕ, String, ◌≡◌, refl, sym, ap, ◌∙◌, Bool, true, List, [], ◌∷◌, Option, none, some, arith, ◌==◌,
  ==_iff, ==_refl, find, Bool-cases, inl, inr,
}
use fleet_prime_agent.Prelude.Text.{truthy, trim}
use fleet_prime_agent.Prelude.Dict.{Dict, lookup, insert, values}
use fleet_prime_agent.ProjectRegistry.{
  ProjectRecord, Registry, has_path, find_by_path, active_only, put_project, renewed, created,
  registered, register_at, register, id_if_active, project_id_at, project_id_for_cwd,
}

-- Each project stands under its own id.
abbrev pub IsKeyed : Dict ProjectRecord → Type 0
IsKeyed [] = Unit
IsKeyed ((id, p) ∷ projects) = (p.project_id ≡ id) × IsKeyed projects

-- The first project of a path, with the id that it stands under.
find-insert_same :
    (path : String) (projects : Dict ProjectRecord) (old p : ProjectRecord)
    → IsKeyed projects
    → find (has_path path) (values projects) ≡ some old
    → p.project_id ≡ old.project_id
    → p.canonical_path ≡ path
    → find (has_path path) (values (insert p.project_id p projects)) ≡ some p
unfolding insert values
find-insert_same path [] old p keyed found same at = absurd (cc)
find-insert_same path ((id, q) ∷ projects) old p (own, keyed) found same at =
    elim (Bool-cases (id == p.project_id)) [
      | inl here ↦ rw (here, at, ==_refl path) refl
      | inr there ↦ elim (Bool-cases (has_path path q)) [
        | inl mine ↦
            let old_is : q ≡ old = ground arith in
            let clash : id ≡ p.project_id = sym own ∙ ap (λ x. x.project_id) old_is ∙ sym same in
            absurd (ground (arith, ==_iff id p.project_id))
        | inr other ↦
            rw (there, other) (find-insert_same path projects old p keyed (ground arith) same at)
      ]
    ]

find-insert_new :
    (path : String) (projects : Dict ProjectRecord) (p : ProjectRecord)
    → find (has_path path) (values projects) ≡ none
    → lookup p.project_id projects ≡ none
    → p.canonical_path ≡ path
    → find (has_path path) (values (insert p.project_id p projects)) ≡ some p
unfolding insert values lookup
find-insert_new path [] p missing fresh at = rw (at, ==_refl path) refl
find-insert_new path ((id, q) ∷ projects) p missing fresh at =
    elim (Bool-cases (id == p.project_id)) [
      | inl here ↦ absurd (ground arith)
      | inr there ↦ elim (Bool-cases (has_path path q)) [
        | inl mine ↦ absurd (ground arith)
        | inr other ↦
            rw (there, other) (find-insert_new path projects p (ground arith) (ground arith) at)
      ]
    ]

find-path :
    (path : String) (ps : List ProjectRecord) (p : ProjectRecord)
    → find (has_path path) ps ≡ some p
    → p.canonical_path ≡ path
find-path path [] p found = absurd (cc)
find-path path (q ∷ ps) p found = elim (Bool-cases (has_path path q)) [
  | inl mine ↦
      let same : q ≡ p = ground arith in rw (← same) ((==_iff q.canonical_path path).0 mine)
  | inr other ↦ find-path path ps p (ground arith)
]

-- The project that a registration of the path gives an id to.
abbrev pub id_for : Option ProjectRecord → String → String
id_for none id = id
id_for (some old) id = old.project_id

registered-Found :
    (r : Registry) (basename : String → String) (id path : String) (requested_name : Option String)
    (now : ℕ) (known : Option ProjectRecord)
    → IsKeyed r.projects
    → lookup id r.projects ≡ none
    → find_by_path r path ≡ known
    → id_if_active
        (find_by_path (put_project r (registered basename id path requested_name now known)) path)
      ≡ some (id_for known id)
unfolding registered renewed created put_project find_by_path id_if_active active_only
registered-Found r basename id path requested_name now none keyed fresh missing =
    rw
      (find-insert_new path r.projects (created basename id path requested_name now) missing fresh
        refl)
      refl
registered-Found r basename id path requested_name now (some old) keyed fresh found =
    rw
      (find-insert_same path r.projects old (renewed old requested_name now) keyed found refl
        (find-path path (values r.projects) old found))
      refl

-- Where each project stands under its own id, the new id is free, and the path resolves to a
-- directory, the directory is found after a registration under an active project: the one that it
-- had, or the new one if it had none, whether or not the file was written.
pub register-Found :
    (canonical : String → Option String) (basename : String → String) (r : Registry)
    (raw_path : String) (requested_name : Option String) (id path : String) (now : ℕ)
    (written : Bool)
    → IsKeyed r.projects
    → lookup id r.projects ≡ none
    → canonical raw_path ≡ some path
    → truthy (trim raw_path) ≡ true
    → project_id_for_cwd canonical
        (register canonical basename r raw_path requested_name id now written).0
        raw_path
      ≡ some (id_for (find_by_path r path) id)
unfolding register register_at project_id_for_cwd project_id_at
register-Found canonical basename r raw_path requested_name id path now written keyed fresh resolves
      given =
    rw (given, resolves)
      (registered-Found r basename id path requested_name now (find_by_path r path) keyed fresh
        refl)
