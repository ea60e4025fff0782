-- ===== src/ProjectRegistry/Tests.antt =====
-- A registry with one project that is registered again, and a session that moves to it.
use fleet_prime_agent.Prelude.{
  true, String, ◌≡◌, refl, false, [], ◌∷◌, Option, none, some, ◌==◌, if◌then◌else◌,
}
use fleet_prime_agent.Prelude.Text.{truthy, trim}
use fleet_prime_agent.Prelude.Dict.{lookup, values}
use fleet_prime_agent.ProjectRegistry.{
  ProjectRecord, Registry, unregistered, find_by_path, register, project_id_for_cwd, assign_session,
}
use fleet_prime_agent.ProjectRegistry.Paths.{register-Found}
use fleet_prime_agent.ProjectRegistry.Assignments.{IsAtomic, assign_session-IsAtomic}

abbrev project : ProjectRecord
project = record {
  project_id = "p";
  name = "Fleet";
  canonical_path = "/code/fleet";
  created_at = 1;
  updated_at = 2;
  status = unregistered;
}

abbrev registry : Registry
registry = record { projects = ("p", project) ∷ []; assignments = ("s", "q") ∷ [] }

abbrev canonical : String → Option String
canonical path = if path == "/link/fleet" then some "/code/fleet" else none

abbrev basename : String → String
basename path = "fleet"

nothing_new : lookup "n" registry.projects ≡ none
unfolding lookup
nothing_new = refl

given : truthy (trim "/link/fleet") ≡ true
unfolding trim
given = refl

register-Found_example :
    project_id_for_cwd canonical
      (register canonical basename registry "/link/fleet" none "n" 3 false).0
      "/link/fleet"
    ≡ some "p"
unfolding find_by_path values
register-Found_example =
    register-Found canonical basename registry "/link/fleet" none "n" "/code/fleet" 3 false
      (refl, tt) nothing_new refl given

assign_session-IsAtomic_example :
    IsAtomic registry "s" none false (assign_session registry "s" none false)
assign_session-IsAtomic_example = assign_session-IsAtomic registry "s" none false
