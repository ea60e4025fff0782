-- ===== src/ModelCatalog/Retries.antt =====
-- How often the callers of `loadModelCatalog` run again after an `await`.
use fleet_prime_agent.Prelude.{
  ℕ, zero, suc, ◌+◌, ◌*◌, ◌≤◌, ◌≡◌, refl, List, [], ◌∷◌, ◌++◌, map, Option, none, some, arith,
  nat_eq, get_elem?, modify, Bool-cases, inl, inr,
}
use fleet_prime_agent.ModelCatalog.{
  Snapshot, Flight, Cache, Answer, Settled, published, discarded, rejected, Stage, awaits, ready,
  returned, failed, kept_changing, Caller, System, Action, calls, answers, resumes, invalidates,
  start, read_model_catalog_snapshot, join, load_from, load, staged, last_resort, retry, resume_as,
  resume, settle_refresh, wake_stage, wake, call_with, answer_with, answer_to, resume_with,
  resume_at, step, run,
}

module _ {C E : Type 0} where
  -- The runs after an `await` that a caller may still take.
  abbrev pub left_at : ℕ → Stage C E → ℕ
  left_at attempts (awaits p) = attempts + 1
  left_at attempts (ready settled) = attempts + 1
  left_at attempts _ = 0

  abbrev pub left_of : Caller C E → ℕ
  left_of c = left_at c.attempts_remaining c.stage

  abbrev pub left : List (Caller C E) → ℕ
  left [] = 0
  left (c ∷ callers) = left_of c + left callers

  -- The action runs a caller that is ready.
  abbrev runs_stage : Stage C E → ℕ
  runs_stage (ready settled) = 1
  runs_stage _ = 0

  abbrev runs_caller : Option (Caller C E) → ℕ
  runs_caller none = 0
  runs_caller (some c) = runs_stage c.stage

  abbrev pub runs : System C E → Action C E → ℕ
  runs sys (resumes i) = runs_caller (get_elem? sys.callers i)
  runs sys _ = 0

  abbrev pub resumptions : System C E → List (Action C E × ℕ) → ℕ
  resumptions sys [] = 0
  resumptions sys ((action, now) ∷ actions) =
      runs sys action + resumptions (step sys action now) actions

  abbrev pub is_call : Action C E → ℕ
  is_call (calls max_age) = 1
  is_call _ = 0

  abbrev pub calls_in : List (Action C E × ℕ) → ℕ
  calls_in [] = 0
  calls_in ((action, now) ∷ actions) = is_call action + calls_in actions

  left-append :
      (callers : List (Caller C E)) (c : Caller C E)
      → left (callers ++ c ∷ []) ≡ left callers + left_of c
  left-append [] c = omega arith
  left-append (d ∷ callers) c = omega (arith, left-append callers c)

  left-modify :
      (i : ℕ) (callers : List (Caller C E)) (c d : Caller C E)
      → get_elem? callers i ≡ some d
      → left (modify i (λ e. c) callers) + left_of d ≡ left callers + left_of c
  left-modify i [] c d at = absurd (cc)
  left-modify zero (e ∷ callers) c d at = let same : e ≡ d = cc in rw same (omega arith)
  left-modify (suc i) (e ∷ callers) c d at = omega (arith, left-modify i callers c d at)

  left_at-wake_stage :
      (attempts p : ℕ) (settled : Settled C E) (s : Stage C E)
      → left_at attempts (wake_stage p settled s) ≡ left_at attempts s
  unfolding wake_stage
  left_at-wake_stage attempts p settled (awaits q) = elim (Bool-cases (nat_eq q p)) [
    | inl here ↦ rw here refl
    | inr other ↦ rw other refl
  ]
  left_at-wake_stage attempts p settled _ = refl

  left-wake :
      (p : ℕ) (settled : Settled C E) (callers : List (Caller C E))
      → left (map (wake p settled) callers) ≡ left callers
  unfolding wake
  left-wake p settled [] = refl
  left-wake p settled (c ∷ callers) = omega (
    arith,
    left-wake p settled callers,
    left_at-wake_stage c.attempts_remaining p settled c.stage,
  )

module _ (C E : Type 0) where
  left_at-join :
      (cache : Cache C) (flight : Option Flight) (attempts next : ℕ)
      → left_at attempts (join {E = E} cache flight next).1 ≤ attempts + 1
  unfolding join
  left_at-join cache none attempts next = omega arith
  left_at-join cache (some flight) attempts next = omega arith

  left_at-load_from :
      (cache : Cache C) (cached : Option C) (attempts next : ℕ)
      → left_at attempts (load_from {E = E} cache cached next).1 ≤ attempts + 1
  unfolding load_from
  left_at-load_from cache none attempts next = left_at-join cache cache.in_flight attempts next
  left_at-load_from cache (some c) attempts next = omega arith

  left_at-last_resort :
      (attempts : ℕ) (s : Option (Snapshot C)) → left_at attempts (last_resort {E = E} s) ≡ 0
  unfolding last_resort
  left_at-last_resort attempts none = refl
  left_at-last_resort attempts (some s) = refl

  left-retry :
      (cache : Cache C) (max_age attempts next now : ℕ)
      → left_of (retry {E = E} cache max_age attempts next now).1 ≤ attempts
  unfolding retry staged load
  left-retry cache max_age zero next now = omega (arith, left_at-last_resort 0 cache.last_good)
  left-retry cache max_age (suc attempts) next now =
      omega (
        arith,
        left_at-load_from cache (read_model_catalog_snapshot cache max_age now) attempts next,
      )

module _ {C E : Type 0} where
  -- A caller that runs has one run less.
  left-resume_as :
      (cache : Cache C) (caller : Caller C E) (stage : Stage C E) (next now : ℕ)
      → caller.stage ≡ stage
      → left_of (resume_as cache caller stage next now).1 + runs_stage stage ≤ left_of caller
  unfolding resume_as
  left-resume_as cache caller (ready (published s)) next now e = rw e (omega arith)
  left-resume_as cache caller (ready (rejected r)) next now e = rw e (omega arith)
  left-resume_as cache caller (ready discarded) next now e =
      rw e (omega (arith, left-retry C E cache caller.max_age caller.attempts_remaining next now))
  left-resume_as cache caller (awaits p) next now e = omega arith
  left-resume_as cache caller (returned c) next now e = omega arith
  left-resume_as cache caller (failed r) next now e = omega arith
  left-resume_as cache caller kept_changing next now e = omega arith

  left-resume_at :
      (sys : System C E) (i : ℕ) (found : Option (Caller C E)) (now : ℕ)
      → get_elem? sys.callers i ≡ found
      → left (resume_at sys i found now).callers + runs_caller found ≤ left sys.callers
  unfolding resume_at resume_with resume
  left-resume_at sys i none now at = omega arith
  left-resume_at sys i (some c) now at = omega (
    arith,
    left-modify i sys.callers (resume_as sys.cache c c.stage sys.next now).1 c at,
    left-resume_as sys.cache c c.stage sys.next now refl,
  )

  left-answer_to :
      (sys : System C E) (flight : Option Flight) (answer : Answer C E) (now : ℕ)
      → left (answer_to sys flight answer now).callers ≡ left sys.callers
  unfolding answer_to answer_with
  left-answer_to sys none answer now = refl
  left-answer_to sys (some flight) answer now =
      left-wake flight.promise (settle_refresh sys.cache flight answer now).1 sys.callers

  left-step :
      (sys : System C E) (action : Action C E) (now : ℕ)
      → left (step sys action now).callers + runs sys action ≤ left sys.callers + 2 * is_call action
  unfolding step call_with staged load
  left-step sys (calls max_age) now = omega (
    arith,
    left-append sys.callers _,
    left_at-load_from C E sys.cache (read_model_catalog_snapshot sys.cache max_age now) 1 sys.next,
  )
  left-step sys (answers answer) now =
      omega (arith, left-answer_to sys sys.cache.in_flight answer now)
  left-step sys (resumes i) now =
      omega (arith, left-resume_at sys i (get_elem? sys.callers i) now refl)
  left-step sys invalidates now = omega arith

  left-run :
      (sys : System C E) (actions : List (Action C E × ℕ))
      → resumptions sys actions + left (run sys actions).callers
        ≤ left sys.callers + 2 * calls_in actions
  unfolding run
  left-run sys [] = omega arith
  left-run sys ((action, now) ∷ actions) =
      omega (arith, left-step sys action now, left-run (step sys action now) actions)

  -- However often the catalog is invalidated while it is read, the callers run after an `await` at
  -- most twice for each call, the runs that are still open counted: the retry is bounded.
  pub resumptions-le :
      (actions : List (Action C E × ℕ))
      → resumptions start actions + left (run start actions).callers ≤ 2 * calls_in actions
  unfolding start
  resumptions-le actions = omega (arith, left-run start actions)
