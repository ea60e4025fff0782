-- ===== src/ProjectRegistry.antt =====
-- web/server/src/project-registry.ts, the class ProjectRegistry after it is loaded: the projects and the
-- sessions assigned to them. A call runs to its end before the next one, so a rollback after a failed write
-- meets no change of a call that overlaps; what it reads of the outside
-- is an argument: the canonical directory of a path (`#canonicalDirectory`, none where it throws), a
-- fresh id, the time, and whether the write of the file succeeds.
pub mod Paths
pub mod Assignments
mod Tests
use fleet_prime_agent.Prelude.{
  ℕ, suc, String, Bool, true, false, not, ◌&&◌, List, [], ◌∷◌, Option, none, some, ◌==◌,
  if◌then◌else◌, get_or, or_else, find, filter, length, is_some,
}
use fleet_prime_agent.Prelude.Text.{truthy, truthy?, or_undefined, trim}
use fleet_prime_agent.Prelude.Dict.{Dict, lookup, insert, delete, values}

pub data Status : Type 0 where
  active unregistered : Status

pub record ProjectRecord : Type 0 where
  pub project_id : String
  pub name : String
  pub canonical_path : String
  pub created_at : ℕ
  pub updated_at : ℕ
  pub status : Status

pub record Registry : Type 0 where
  pub projects : Dict ProjectRecord
  pub assignments : Dict String

pub data Failure : Type 0 where
  unknown_project not_a_directory not_written : Failure

-- What a call returns or throws.
pub data Result (A : Type 0) : Type 0 where
  returns : A → Result A
  throws : Failure → Result A

abbrev pub is_active : ProjectRecord → Bool
is_active p = elim p.status [ active ↦ true | unregistered ↦ false ]

-- `#persist`, for whether the write succeeds.
pub persisted : {A : Type 0} → Bool → A → Result A
persisted true a = returns a
persisted false a = throws not_written

abbrev pub has_path : String → ProjectRecord → Bool
has_path path p = p.canonical_path == path

-- `#findByPath`
unfoldable pub find_by_path : Registry → String → Option ProjectRecord
find_by_path r path = find (has_path path) (values r.projects)

active_only : Option ProjectRecord → Option ProjectRecord
active_only none = none
active_only (some p) = if is_active p then some p else none

-- `get`
pub get : Registry → String → Option ProjectRecord
unfolding active_only
get r project_id = active_only (lookup project_id r.projects)

-- `this.#projects.set`, and a change of a project that the map holds.
pub put_project : Registry → ProjectRecord → Registry
put_project r p = record r { projects = insert p.project_id p r.projects }

-- `requestedName?.trim() || …`
name_or : Option String → String → String
name_or none name = name
name_or (some requested) name = get_or (or_undefined (trim requested)) name

renewed : ProjectRecord → Option String → ℕ → ProjectRecord
unfolding name_or
renewed existing requested_name now = record existing {
  status = active;
  name = name_or requested_name existing.name;
  updated_at = now;
}

-- `basename(canonicalPath) || canonicalPath`
created : (String → String) → String → String → Option String → ℕ → ProjectRecord
unfolding name_or
created basename id path requested_name now = record {
  project_id = id;
  name = name_or requested_name (get_or (or_undefined (basename path)) path);
  canonical_path = path;
  created_at = now;
  updated_at = now;
  status = active;
}

registered :
    (String → String) → String → String → Option String → ℕ → Option ProjectRecord → ProjectRecord
unfolding renewed created
registered basename id path requested_name now (some existing) = renewed existing requested_name now
registered basename id path requested_name now none = created basename id path requested_name now

register_at :
    Registry
    → (String → String)
    → String
    → Option String
    → Option String
    → ℕ
    → Bool
    → Registry × Result ProjectRecord
unfolding registered find_by_path put_project persisted
register_at r basename id none requested_name now written = (r, throws not_a_directory)
register_at r basename id (some path) requested_name now written =
    let p : ProjectRecord = registered basename id path requested_name now (find_by_path r path) in
    (put_project r p, persisted written p)

-- `register`
pub register :
    (String → Option String)
    → (String → String)
    → Registry
    → String
    → Option String
    → String
    → ℕ
    → Bool
    → Registry × Result ProjectRecord
unfolding register_at
register canonical basename r raw_path requested_name id now written =
    register_at r basename id (canonical raw_path) requested_name now written

change_project :
    Registry
    → Option ProjectRecord
    → (ProjectRecord → ProjectRecord)
    → Bool
    → Registry × Result ProjectRecord
unfolding put_project persisted
change_project r none change written = (r, throws unknown_project)
change_project r (some p) change written = (put_project r (change p), persisted written (change p))

-- `rename`
unfoldable pub rename : Registry → String → String → ℕ → Bool → Registry × Result ProjectRecord
unfolding change_project get
rename r project_id name now written =
    change_project r (get r project_id) (λ p. record p { name = trim name; updated_at = now })
      written

-- `unregister`
unfoldable pub unregister : Registry → String → ℕ → Bool → Registry × Result ProjectRecord
unfolding change_project get
unregister r project_id now written =
    change_project r (get r project_id) (λ p. record p { status = unregistered; updated_at = now })
      written

id_if_active : Option ProjectRecord → Option String
unfolding active_only
id_if_active p = elim (active_only p) [ none ↦ none | some q ↦ some q.project_id ]

project_id_at : Registry → Option String → Option String
unfolding find_by_path id_if_active
project_id_at r none = none
project_id_at r (some path) = id_if_active (find_by_path r path)

-- `projectIdForCwd`
pub project_id_for_cwd : (String → Option String) → Registry → String → Option String
unfolding project_id_at
project_id_for_cwd canonical r cwd =
    if truthy (trim cwd) then project_id_at r (canonical cwd) else none

-- `#countSessions`
unfoldable pub count_sessions : Registry → String → ℕ
count_sessions r project_id = length (filter (λ p. p == project_id) (values r.assignments))

-- An assignment written, or put back.
pub set_assignment : Registry → String → Option String → Registry
set_assignment r session_id none = record r { assignments = delete session_id r.assignments }
set_assignment r session_id (some p) = record r { assignments = insert session_id p r.assignments }

-- The two ends of the `try` around `#persist`: a failed write puts the previous assignment back.
pub try_assign :
    Registry → String → Option String → Option String → Bool → Registry × Result (Option String)
unfolding set_assignment
try_assign r session_id previous next true = (set_assignment r session_id next, returns next)
try_assign r session_id previous next false =
    (set_assignment (set_assignment r session_id next) session_id previous, throws not_written)

-- `previousProjectId === projectId`, where an absent one is `undefined` and the argument may be `null`.
same_project : Option String → Option String → Bool
same_project (some p) (some q) = p == q
same_project _ _ = false

-- The argument as it is passed, and as it counts: an empty project id counts as none.
assign_known :
    Registry → String → Option String → Option String → Bool → Registry × Result (Option String)
unfolding same_project try_assign
assign_known r session_id project_id next written =
    let previous : Option String = lookup session_id r.assignments in
    if same_project previous project_id
    then (r, returns next)
    else try_assign r session_id previous next written

assign_as :
    Registry → String → Option String → Option String → Bool → Registry × Result (Option String)
unfolding assign_known get
assign_as r session_id project_id none written = assign_known r session_id project_id none written
assign_as r session_id project_id (some p) written =
    if is_some (get r p)
    then assign_known r session_id project_id (some p) written
    else (r, throws unknown_project)

-- `assignSession`
pub assign_session : Registry → String → Option String → Bool → Registry × Result (Option String)
unfolding assign_as
assign_session r session_id project_id written =
    assign_as r session_id project_id (truthy? project_id) written

-- The assignment that counts: one to an active project.
assigned_active : Registry → Option String → Option String
unfolding get
assigned_active r none = none
assigned_active r (some p) = if is_some (get r p) then some p else none

assign_found : Registry → String → Option String → Bool → Registry × Result (Option String)
unfolding try_assign
assign_found r session_id none written = (r, returns none)
assign_found r session_id (some p) written =
    try_assign r session_id (lookup session_id r.assignments) (some p) written

session_with :
    (String → Option String)
    → Registry
    → String
    → String
    → Option String
    → Bool
    → Registry × Result (Option String)
unfolding assign_found project_id_for_cwd
session_with canonical r session_id cwd (some p) written = (r, returns (some p))
session_with canonical r session_id cwd none written =
    assign_found r session_id (project_id_for_cwd canonical r cwd) written

-- `projectIdForSession`
unfoldable pub project_id_for_session :
    (String → Option String) → Registry → String → String → Bool → Registry × Result (Option String)
unfolding session_with assigned_active
project_id_for_session canonical r session_id cwd written =
    session_with canonical r session_id cwd
      (assigned_active r (truthy? (lookup session_id r.assignments))) written
