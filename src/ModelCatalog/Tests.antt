-- ===== src/ModelCatalog/Tests.antt =====
-- Two callers share a refresh that an invalidation overtakes. Catalogs are numbers, and the catalog n
-- shows the writes up to the invalidation that began generation n.
use fleet_prime_agent.Prelude.{ℕ, ◌+◌, ◌*◌, ◌≤◌, ◌≡◌, refl, String, List, [], ◌∷◌, some, arith}
use fleet_prime_agent.ModelCatalog.{
  Action, reads, calls, answers, resumes, invalidates, start, step, run,
  read_model_catalog_snapshot,
}
use fleet_prime_agent.ModelCatalog.Waiting.{IsServed, run-IsServed}
use fleet_prime_agent.ModelCatalog.Freshness.{Honest, run-AsOf}
use fleet_prime_agent.ModelCatalog.Retries.{resumptions, left, calls_in, resumptions-le}

abbrev overtaken : List (Action ℕ String × ℕ)
overtaken =
    (calls 5, 0)
    ∷ (calls 5, 1)
    ∷ (invalidates, 2)
    ∷ (answers (reads 0), 3)
    ∷ (resumes 0, 4)
    ∷ (answers (reads 1), 5)
    ∷ (resumes 1, 6)
    ∷ []

run-IsServed_example : IsServed (run start overtaken)
run-IsServed_example = run-IsServed overtaken

overtaken-Honest : Honest ℕ String (λ g c. g ≤ c) start overtaken
unfolding start step
overtaken-Honest = (tt, (tt, (tt, (omega arith, (tt, (omega arith, (tt, tt)))))))

served : read_model_catalog_snapshot (run {E = String} start overtaken).cache 5 7 ≡ some 1
unfolding start run step read_model_catalog_snapshot
served = refl

run-AsOf_example : (run {E = String} start overtaken).cache.generation ≤ 1
run-AsOf_example = run-AsOf ℕ String (λ g c. g ≤ c) overtaken 5 7 1 overtaken-Honest served

resumptions-le_example :
    resumptions start overtaken + left (run start overtaken).callers ≤ 2 * calls_in overtaken
resumptions-le_example = resumptions-le overtaken
