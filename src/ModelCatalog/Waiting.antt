-- ===== src/ModelCatalog/Waiting.antt =====
-- No caller waits for a promise that nothing will settle.
use fleet_prime_agent.Prelude.{
  ℕ, zero, suc, ◌≡◌, refl, Bool, true, false, List, [], ◌∷◌, ◌++◌, map, Option, none, some, arith,
  nat_eq, all, ◌⊎◌, get_elem?, modify, Bool-cases, inl, inr,
}
use fleet_prime_agent.ModelCatalog.{
  Snapshot, Flight, Cache, Answer, reads, refuses, Settled, published, discarded, rejected, Stage,
  awaits, ready, Caller, System, Action, calls, answers, resumes, invalidates, start,
  read_model_catalog_snapshot, join, load_from, load, staged, last_resort, retry, resume_as, resume,
  publish, settle_refresh, wake_stage, wake, invalidate_model_catalog, call_with, answer_with,
  answer_to, resume_with, resume_at, step, run,
}

-- A refresh in flight stays, and one may start where there is none.
abbrev Keeps : Option Flight → Option Flight → Type 0
Keeps before after = (before ≡ after) ⊎ (before ≡ none)

abbrev pub is_promise_of : Option Flight → ℕ → Bool
is_promise_of none p = false
is_promise_of (some flight) p = nat_eq p flight.promise

module _ {C E : Type 0} where
  -- A stage that waits, if it does, for the refresh in flight.
  abbrev pub is_served : Option Flight → Stage C E → Bool
  is_served flight (awaits p) = is_promise_of flight p
  is_served flight _ = true

  abbrev pub all_served : Option Flight → List (Caller C E) → Bool
  all_served flight callers = all (λ c. is_served flight c.stage) callers

  -- Whatever a caller waits for is the refresh in flight, which clears itself when it settles.
  abbrev pub IsServed : System C E → Type 0
  IsServed sys = all_served sys.cache.in_flight sys.callers ≡ true

  is_served-none :
      (f : Option Flight) (s : Stage C E) → is_served none s ≡ true → is_served f s ≡ true
  is_served-none f (awaits p) h = absurd (cc)
  is_served-none f _ h = refl

  is_served-Keeps :
      (before after : Option Flight) (s : Stage C E)
      → Keeps before after
      → is_served before s ≡ true
      → is_served after s ≡ true
  is_served-Keeps before after s (inl same) h = rw (← same) h
  is_served-Keeps before after s (inr idle) h = is_served-none after s (rw (← idle) h)

  all_served-Keeps :
      (before after : Option Flight) (callers : List (Caller C E))
      → Keeps before after
      → all_served before callers ≡ true
      → all_served after callers ≡ true
  all_served-Keeps before after [] keeps h = refl
  all_served-Keeps before after (c ∷ callers) keeps h = ground (
    arith,
    is_served-Keeps before after c.stage keeps (ground arith),
    all_served-Keeps before after callers keeps (ground arith),
  )

  all_served-append :
      (f : Option Flight) (callers : List (Caller C E)) (c : Caller C E)
      → all_served f callers ≡ true
      → is_served f c.stage ≡ true
      → all_served f (callers ++ c ∷ []) ≡ true
  all_served-append f [] c h served = ground arith
  all_served-append f (d ∷ callers) c h served =
      ground (arith, all_served-append f callers c (ground arith) served)

  all_served-modify :
      (f : Option Flight) (i : ℕ) (callers : List (Caller C E)) (c : Caller C E)
      → all_served f callers ≡ true
      → is_served f c.stage ≡ true
      → all_served f (modify i (λ d. c) callers) ≡ true
  all_served-modify f i [] c h served = refl
  all_served-modify f zero (d ∷ callers) c h served = ground arith
  all_served-modify f (suc i) (d ∷ callers) c h served =
      ground (arith, all_served-modify f i callers c (ground arith) served)

  all_served-get :
      (f : Option Flight) (i : ℕ) (callers : List (Caller C E)) (c : Caller C E)
      → all_served f callers ≡ true
      → get_elem? callers i ≡ some c
      → is_served f c.stage ≡ true
  all_served-get f i [] c h at = absurd (cc)
  all_served-get f zero (d ∷ callers) c h at = let same : d ≡ c = cc in rw (← same) (ground arith)
  all_served-get f (suc i) (d ∷ callers) c h at = all_served-get f i callers c (ground arith) at

  -- When the refresh settles, nobody waits any more.
  is_served-wake_stage :
      (flight : Flight) (settled : Settled C E) (s : Stage C E)
      → is_served (some flight) s ≡ true
      → is_served none (wake_stage flight.promise settled s) ≡ true
  unfolding wake_stage
  is_served-wake_stage flight settled (awaits p) h = rw h refl
  is_served-wake_stage flight settled _ h = refl

  all_served-wake :
      (flight : Flight) (settled : Settled C E) (callers : List (Caller C E))
      → all_served (some flight) callers ≡ true
      → all_served none (map (wake flight.promise settled) callers) ≡ true
  unfolding wake
  all_served-wake flight settled [] h = refl
  all_served-wake flight settled (c ∷ callers) h = ground (
    arith,
    is_served-wake_stage flight settled c.stage (ground arith),
    all_served-wake flight settled callers (ground arith),
  )

  settle_refresh-idle :
      (cache : Cache C) (flight : Flight) (answer : Answer C E) (now : ℕ)
      → (settle_refresh cache flight answer now).0.in_flight ≡ none
  unfolding settle_refresh publish
  settle_refresh-idle cache flight (refuses e) now = refl
  settle_refresh-idle cache flight (reads c) now =
      elim (Bool-cases (nat_eq cache.generation flight.started_at)) [
        | inl current ↦ rw current refl
        | inr stale ↦ rw stale refl
      ]

  answer_to-IsServed :
      (sys : System C E) (flight : Option Flight) (answer : Answer C E) (now : ℕ)
      → sys.cache.in_flight ≡ flight
      → IsServed sys
      → IsServed (answer_to sys flight answer now)
  unfolding answer_to answer_with
  answer_to-IsServed sys none answer now e h = h
  answer_to-IsServed sys (some flight) answer now e h =
      rw (settle_refresh-idle sys.cache flight answer now)
        (all_served-wake flight _ sys.callers (rw (← e) h))

-- A cache and a stage after a step of a caller.
module _ (C E : Type 0) where
  abbrev pub Moves : Cache C → Cache C → Stage C E → Type 0
  Moves cache next stage =
      Keeps cache.in_flight next.in_flight × (is_served next.in_flight stage ≡ true)

  join-Moves :
      (cache : Cache C) (flight : Option Flight) (next : ℕ)
      → cache.in_flight ≡ flight
      → Moves cache (join {E = E} cache flight next).0 (join {E = E} cache flight next).1
  unfolding join
  join-Moves cache none next e = (inr e, ground arith)
  join-Moves cache (some flight) next e = (inl refl, rw e (ground arith))

  load_from-Moves :
      (cache : Cache C) (cached : Option C) (next : ℕ)
      → Moves cache (load_from {E = E} cache cached next).0 (load_from {E = E} cache cached next).1
  unfolding load_from
  load_from-Moves cache none next = join-Moves cache cache.in_flight next refl
  load_from-Moves cache (some c) next = (inl refl, refl)

  last_resort-served :
      (f : Option Flight) (s : Option (Snapshot C)) → is_served {E = E} f (last_resort s) ≡ true
  unfolding last_resort
  last_resort-served f none = refl
  last_resort-served f (some s) = refl

  retry-Moves :
      (cache : Cache C) (max_age attempts next now : ℕ)
      → Moves cache
          (retry {E = E} cache max_age attempts next now).0
          (retry {E = E} cache max_age attempts next now).1.stage
  unfolding retry staged load
  retry-Moves cache max_age zero next now =
      (inl refl, last_resort-served cache.in_flight cache.last_good)
  retry-Moves cache max_age (suc attempts) next now =
      load_from-Moves cache (read_model_catalog_snapshot cache max_age now) next

  resume_as-Moves :
      (cache : Cache C) (caller : Caller C E) (stage : Stage C E) (next now : ℕ)
      → caller.stage ≡ stage
      → is_served cache.in_flight stage ≡ true
      → Moves cache
          (resume_as cache caller stage next now).0
          (resume_as cache caller stage next now).1.stage
  unfolding resume_as
  resume_as-Moves cache caller (ready (published s)) next now e h = (inl refl, refl)
  resume_as-Moves cache caller (ready (rejected r)) next now e h = (inl refl, refl)
  resume_as-Moves cache caller (ready discarded) next now e h =
      retry-Moves cache caller.max_age caller.attempts_remaining next now
  resume_as-Moves cache caller _ next now e h = (inl refl, rw e h)

module _ {C E : Type 0} where
  resume_at-IsServed :
      (sys : System C E) (i : ℕ) (found : Option (Caller C E)) (now : ℕ)
      → get_elem? sys.callers i ≡ found
      → IsServed sys
      → IsServed (resume_at sys i found now)
  unfolding resume_at resume_with resume
  resume_at-IsServed sys i none now at h = h
  resume_at-IsServed sys i (some c) now at h =
      let moved =
        resume_as-Moves C E sys.cache c c.stage sys.next now refl
          (all_served-get sys.cache.in_flight i sys.callers c h at) in
      all_served-modify _ i sys.callers _
        (all_served-Keeps sys.cache.in_flight _ sys.callers moved.0 h) moved.1

  step-IsServed :
      (sys : System C E) (action : Action C E) (now : ℕ)
      → IsServed sys
      → IsServed (step sys action now)
  unfolding step call_with staged load invalidate_model_catalog
  step-IsServed sys (calls max_age) now h =
      let moved =
        load_from-Moves C E sys.cache (read_model_catalog_snapshot sys.cache max_age now)
          sys.next in
      all_served-append _ sys.callers _
        (all_served-Keeps sys.cache.in_flight _ sys.callers moved.0 h) moved.1
  step-IsServed sys (answers answer) now h =
      answer_to-IsServed sys sys.cache.in_flight answer now refl h
  step-IsServed sys (resumes i) now h =
      resume_at-IsServed sys i (get_elem? sys.callers i) now refl h
  step-IsServed sys invalidates now h = h

  run-IsServed_from :
      (sys : System C E) (actions : List (Action C E × ℕ))
      → IsServed sys
      → IsServed (run sys actions)
  unfolding run
  run-IsServed_from sys [] h = h
  run-IsServed_from sys ((action, now) ∷ actions) h =
      run-IsServed_from (step sys action now) actions (step-IsServed sys action now h)

  -- In every run of calls, answers, resumptions and invalidations, whatever a caller awaits is the
  -- promise of the one refresh in flight: no caller is left with a promise that nothing settles.
  pub run-IsServed : (actions : List (Action C E × ℕ)) → IsServed (run start actions)
  unfolding start
  run-IsServed actions = run-IsServed_from start actions refl
