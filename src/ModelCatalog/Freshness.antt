-- ===== src/ModelCatalog/Freshness.antt =====
-- A cached catalog is never older than the last invalidation.
use fleet_prime_agent.Prelude.{
  ℕ, zero, suc, ◌-◌, ◌≡◌, refl, List, [], ◌∷◌, Option, none, some, arith, nat_eq, leb, get_elem?,
  Bool-cases, inl, inr,
}
use fleet_prime_agent.ModelCatalog.{
  Snapshot, Flight, Cache, Answer, reads, refuses, published, discarded, rejected, Stage, ready,
  Caller, System, Action, calls, answers, resumes, invalidates, start, within_age,
  read_model_catalog_snapshot, join, load_from, load, staged, retry, resume_as, resume, publish,
  settle_refresh, invalidate_model_catalog, call_with, answer_with, answer_to, resume_with,
  resume_at, step, run,
}

-- `AsOf g c`: the catalog `c` shows every write up to the invalidation that began generation `g`.
module _ (C : Type 0) (AsOf : ℕ → C → Type 0) where
  abbrev Current : ℕ → Option (Snapshot C) → Type 0
  Current g none = Unit
  Current g (some s) = AsOf g s.catalog

  -- The cached snapshot, whatever its age, shows every write up to the last invalidation.
  abbrev pub IsFresh : Cache C → Type 0
  IsFresh cache = Current cache.generation cache.snapshot

module _ (C E : Type 0) (AsOf : ℕ → C → Type 0) where
  -- The daemon answers a refresh with a catalog that shows what was written before the refresh began.
  abbrev pub Answers : Option Flight → Action C E → Type 0
  Answers (some flight) (answers (reads c)) = AsOf flight.started_at c
  Answers _ _ = Unit

  abbrev pub Honest : System C E → List (Action C E × ℕ) → Type 0
  Honest sys [] = Unit
  Honest sys ((action, now) ∷ actions) =
      Answers sys.cache.in_flight action × Honest (step sys action now) actions

  -- A step of a caller leaves the snapshot and the generation alone.
  abbrev Same : Cache C → Cache C → Type 0
  Same cache next = (next.snapshot ≡ cache.snapshot) × (next.generation ≡ cache.generation)

  IsFresh-Same :
      (cache next : Cache C) → Same cache next → IsFresh C AsOf cache → IsFresh C AsOf next
  IsFresh-Same cache next (same, generation) h = rw (same, generation) h

  join-Same :
      (cache : Cache C) (flight : Option Flight) (next : ℕ)
      → Same cache (join {E = E} cache flight next).0
  unfolding join
  join-Same cache none next = (refl, refl)
  join-Same cache (some flight) next = (refl, refl)

  load_from-Same :
      (cache : Cache C) (cached : Option C) (next : ℕ)
      → Same cache (load_from {E = E} cache cached next).0
  unfolding load_from
  load_from-Same cache none next = join-Same cache cache.in_flight next
  load_from-Same cache (some c) next = (refl, refl)

  retry-Same :
      (cache : Cache C) (max_age attempts next now : ℕ)
      → Same cache (retry {E = E} cache max_age attempts next now).0
  unfolding retry staged load
  retry-Same cache max_age zero next now = (refl, refl)
  retry-Same cache max_age (suc attempts) next now =
      load_from-Same cache (read_model_catalog_snapshot cache max_age now) next

  resume_as-Same :
      (cache : Cache C) (caller : Caller C E) (stage : Stage C E) (next now : ℕ)
      → Same cache (resume_as cache caller stage next now).0
  unfolding resume_as
  resume_as-Same cache caller (ready (published s)) next now = (refl, refl)
  resume_as-Same cache caller (ready (rejected r)) next now = (refl, refl)
  resume_as-Same cache caller (ready discarded) next now =
      retry-Same cache caller.max_age caller.attempts_remaining next now
  resume_as-Same cache caller _ next now = (refl, refl)

  resume_at-IsFresh :
      (sys : System C E) (i : ℕ) (found : Option (Caller C E)) (now : ℕ)
      → IsFresh C AsOf sys.cache
      → IsFresh C AsOf (resume_at sys i found now).cache
  unfolding resume_at resume_with resume
  resume_at-IsFresh sys i none now h = h
  resume_at-IsFresh sys i (some c) now h =
      IsFresh-Same sys.cache (resume sys.cache c sys.next now).0
        (resume_as-Same sys.cache c c.stage sys.next now) h

  settle_refresh-IsFresh :
      (cache : Cache C) (flight : Flight) (answer : Answer C E) (now : ℕ)
      → Answers (some flight) (answers answer)
      → IsFresh C AsOf cache
      → IsFresh C AsOf (settle_refresh cache flight answer now).0
  unfolding settle_refresh publish
  settle_refresh-IsFresh cache flight (refuses e) now honest h = h
  settle_refresh-IsFresh cache flight (reads c) now honest h =
      elim (Bool-cases (nat_eq cache.generation flight.started_at)) [
        | inl same ↦
            let current : flight.started_at ≡ cache.generation = ground arith in
            rw same (rw (← current) honest)
        | inr stale ↦ rw stale h
      ]

  answer_to-IsFresh :
      (sys : System C E) (flight : Option Flight) (answer : Answer C E) (now : ℕ)
      → Answers flight (answers answer)
      → IsFresh C AsOf sys.cache
      → IsFresh C AsOf (answer_to sys flight answer now).cache
  unfolding answer_to answer_with
  answer_to-IsFresh sys none answer now honest h = h
  answer_to-IsFresh sys (some flight) answer now honest h =
      settle_refresh-IsFresh sys.cache flight answer now honest h

  step-IsFresh :
      (sys : System C E) (action : Action C E) (now : ℕ)
      → Answers sys.cache.in_flight action
      → IsFresh C AsOf sys.cache
      → IsFresh C AsOf (step sys action now).cache
  unfolding step call_with staged load invalidate_model_catalog
  step-IsFresh sys (calls max_age) now honest h =
      IsFresh-Same sys.cache
        (load_from {E = E} sys.cache (read_model_catalog_snapshot sys.cache max_age now) sys.next).0
        (load_from-Same sys.cache (read_model_catalog_snapshot sys.cache max_age now) sys.next) h
  step-IsFresh sys (answers answer) now honest h =
      answer_to-IsFresh sys sys.cache.in_flight answer now honest h
  step-IsFresh sys (resumes i) now honest h =
      resume_at-IsFresh sys i (get_elem? sys.callers i) now h
  step-IsFresh sys invalidates now honest h = tt

  run-IsFresh_from :
      (sys : System C E) (actions : List (Action C E × ℕ))
      → Honest sys actions
      → IsFresh C AsOf sys.cache
      → IsFresh C AsOf (run sys actions).cache
  unfolding run
  run-IsFresh_from sys [] honest h = h
  run-IsFresh_from sys ((action, now) ∷ actions) (answered, honest) h =
      run-IsFresh_from (step sys action now) actions honest (step-IsFresh sys action now answered h)

  within_age-Current :
      (g : ℕ) (s : Option (Snapshot C)) (max_age now : ℕ) (c : C)
      → Current C AsOf g s
      → within_age s max_age now ≡ some c
      → AsOf g c
  unfolding within_age
  within_age-Current g none max_age now c h served = absurd (cc)
  within_age-Current g (some s) max_age now c h served =
      elim (Bool-cases (leb (now - s.fetched_at) max_age)) [
        | inl young ↦ let same : s.catalog ≡ c = ground arith in rw (← same) h
        | inr old ↦ absurd (ground arith)
      ]

  -- Where the daemon answers each refresh with a catalog that shows what was written before the refresh
  -- began, a catalog that the cache serves after any run shows every write up to the last
  -- invalidation, whatever refreshes were in flight when it came.
  pub run-AsOf :
      (actions : List (Action C E × ℕ)) (max_age now : ℕ) (c : C)
      → Honest start actions
      → read_model_catalog_snapshot (run start actions).cache max_age now ≡ some c
      → AsOf (run start actions).cache.generation c
  unfolding start read_model_catalog_snapshot
  run-AsOf actions max_age now c honest served =
      within_age-Current (run start actions).cache.generation (run start actions).cache.snapshot
        max_age now c (run-IsFresh_from start actions honest tt) served
