-- ===== src/ModelCatalog.antt =====
-- web/server/src/model-catalog-cache.ts: the cache of the daemon's model catalog, and the callers of
-- `loadModelCatalog` that share one refresh. A promise is a number; a caller runs from one `await` to
-- the next in one step, and what the daemon answers arrives in a step of its own. Where the clock went
-- back, the age of a snapshot is 0, which passes as the negative age does.
pub mod Waiting
pub mod Freshness
pub mod Retries
mod Tests
use fleet_prime_agent.Prelude.{
  ℕ, zero, suc, ◌+◌, ◌-◌, Bool, true, false, List, [], ◌∷◌, ◌++◌, map, Option, none, some, leb,
  nat_eq, if◌then◌else◌, get_elem?, modify,
}

pub record Snapshot (C : Type 0) : Type 0 where
  pub catalog : C
  pub fetched_at : ℕ

-- The promise of a refresh, and the generation that it started in.
pub record Flight : Type 0 where
  pub promise : ℕ
  pub started_at : ℕ

-- `CatalogCacheState`
pub record Cache (C : Type 0) : Type 0 where
  pub snapshot : Option (Snapshot C)
  pub last_good : Option (Snapshot C)
  pub in_flight : Option Flight
  pub generation : ℕ

-- What the daemon answers a refresh.
pub data Answer (C E : Type 0) : Type 0 where
  reads : C → Answer C E
  refuses : E → Answer C E

-- What the promise of a refresh settles to.
pub data Settled (C E : Type 0) : Type 0 where
  published : Snapshot C → Settled C E
  discarded : Settled C E
  rejected : E → Settled C E

-- Where a call of `loadModelCatalog` stands.
pub data Stage (C E : Type 0) : Type 0 where
  awaits : ℕ → Stage C E
  ready : Settled C E → Stage C E
  returned : C → Stage C E
  failed : E → Stage C E
  kept_changing : Stage C E

pub record Caller (C E : Type 0) : Type 0 where
  pub max_age : ℕ
  pub attempts_remaining : ℕ
  pub stage : Stage C E

-- The module's state, its callers, and the number of the next promise.
pub record System (C E : Type 0) : Type 0 where
  pub cache : Cache C
  pub callers : List (Caller C E)
  pub next : ℕ

pub data Action (C E : Type 0) : Type 0 where
  calls : ℕ → Action C E
  answers : Answer C E → Action C E
  resumes : ℕ → Action C E
  invalidates : Action C E

module _ {C : Type 0} where
  within_age : Option (Snapshot C) → ℕ → ℕ → Option C
  within_age none max_age now = none
  within_age (some s) max_age now =
      if leb (now - s.fetched_at) max_age then some s.catalog else none

  -- `readModelCatalogSnapshot`
  unfoldable pub read_model_catalog_snapshot : Cache C → ℕ → ℕ → Option C
  unfolding within_age
  read_model_catalog_snapshot cache max_age now = within_age cache.snapshot max_age now

  -- `invalidateModelCatalog`
  pub invalidate_model_catalog : Cache C → Cache C
  invalidate_model_catalog cache = record cache {
    snapshot = none;
    generation = cache.generation + 1;
  }

module _ {C E : Type 0} where
  unfoldable pub start : System C E
  start = record {
    cache = record { snapshot = none; last_good = none; in_flight = none; generation = 0 };
    callers = [];
    next = 0;
  }

  -- `loadModelCatalog` on a miss, up to its `await`.
  join : Cache C → Option Flight → ℕ → Cache C × Stage C E
  join cache (some flight) next = (cache, awaits flight.promise)
  join cache none next = (
    record cache { in_flight = some (record { promise = next; started_at = cache.generation }) },
    awaits next,
  )

  load_from : Cache C → Option C → ℕ → Cache C × Stage C E
  unfolding join
  load_from cache (some cached) next = (cache, returned cached)
  load_from cache none next = join cache cache.in_flight next

  -- `loadModelCatalog` up to its `await` or its end.
  pub load : Cache C → ℕ → ℕ → ℕ → Cache C × Stage C E
  unfolding load_from read_model_catalog_snapshot
  load cache max_age next now = load_from cache (read_model_catalog_snapshot cache max_age now) next

  -- A caller with its new stage, beside the cache.
  staged : ℕ → ℕ → Cache C × Stage C E → Cache C × Caller C E
  staged max_age attempts (cache, stage) =
      (cache, record { max_age = max_age; attempts_remaining = attempts; stage = stage })

  last_resort : Option (Snapshot C) → Stage C E
  last_resort none = kept_changing
  last_resort (some s) = returned s.catalog

  -- The end of `loadModelCatalog` for a refresh that was discarded.
  retry : Cache C → ℕ → ℕ → ℕ → ℕ → Cache C × Caller C E
  unfolding staged last_resort load
  retry cache max_age zero next now = staged max_age 0 (cache, last_resort cache.last_good)
  retry cache max_age (suc attempts) next now =
      staged max_age attempts (load cache max_age next now)

  -- A caller after its `await`. One that is not ready does not run.
  resume_as : Cache C → Caller C E → Stage C E → ℕ → ℕ → Cache C × Caller C E
  unfolding retry
  resume_as cache caller (ready (published s)) next now =
      (cache, record caller { stage = returned s.catalog })
  resume_as cache caller (ready (rejected e)) next now = (cache, record caller { stage = failed e })
  resume_as cache caller (ready discarded) next now =
      retry cache caller.max_age caller.attempts_remaining next now
  resume_as cache caller _ next now = (cache, caller)

  pub resume : Cache C → Caller C E → ℕ → ℕ → Cache C × Caller C E
  unfolding resume_as
  resume cache caller next now = resume_as cache caller caller.stage next now

  -- The refresh, from the daemon's answer to its `finally`.
  publish : Cache C → Flight → Snapshot C → Cache C × Settled C E
  publish cache flight s =
      if nat_eq cache.generation flight.started_at
      then (record cache { snapshot = some s; last_good = some s; in_flight = none }, published s)
      else (record cache { in_flight = none }, discarded)

  pub settle_refresh : Cache C → Flight → Answer C E → ℕ → Cache C × Settled C E
  unfolding publish
  settle_refresh cache flight (reads catalog) now =
      publish cache flight (record { catalog = catalog; fetched_at = now })
  settle_refresh cache flight (refuses e) now = (record cache { in_flight = none }, rejected e)

  -- The callers that await a promise are ready when it settles.
  wake_stage : ℕ → Settled C E → Stage C E → Stage C E
  wake_stage promise settled (awaits p) = if nat_eq p promise then ready settled else awaits p
  wake_stage promise settled stage = stage

  wake : ℕ → Settled C E → Caller C E → Caller C E
  unfolding wake_stage
  wake promise settled caller = record caller { stage = wake_stage promise settled caller.stage }

  -- One step of the module. An answer without a refresh in flight does not arrive.
  call_with : System C E → Cache C × Caller C E → System C E
  call_with sys (cache, caller) = record {
    cache = cache;
    callers = sys.callers ++ caller ∷ [];
    next = sys.next + 1;
  }

  answer_with : System C E → Flight → Cache C × Settled C E → System C E
  unfolding wake
  answer_with sys flight (cache, settled) = record sys {
    cache = cache;
    callers = map (wake flight.promise settled) sys.callers;
  }

  answer_to : System C E → Option Flight → Answer C E → ℕ → System C E
  unfolding answer_with settle_refresh
  answer_to sys none answer now = sys
  answer_to sys (some flight) answer now =
      answer_with sys flight (settle_refresh sys.cache flight answer now)

  resume_with : System C E → ℕ → Cache C × Caller C E → System C E
  resume_with sys i (cache, caller) = record {
    cache = cache;
    callers = modify i (λ c. caller) sys.callers;
    next = sys.next + 1;
  }

  resume_at : System C E → ℕ → Option (Caller C E) → ℕ → System C E
  unfolding resume_with resume
  resume_at sys i none now = sys
  resume_at sys i (some caller) now = resume_with sys i (resume sys.cache caller sys.next now)

  unfoldable pub step : System C E → Action C E → ℕ → System C E
  unfolding call_with staged load answer_to resume_at invalidate_model_catalog
  step sys (calls max_age) now =
      call_with sys (staged max_age 1 (load sys.cache max_age sys.next now))
  step sys (answers answer) now = answer_to sys sys.cache.in_flight answer now
  step sys (resumes i) now = resume_at sys i (get_elem? sys.callers i) now
  step sys invalidates now = record sys { cache = invalidate_model_catalog sys.cache }

  -- A run: each action with the time of the clock.
  unfoldable pub run : System C E → List (Action C E × ℕ) → System C E
  unfolding step
  run sys [] = sys
  run sys ((action, now) ∷ actions) = run (step sys action now) actions
