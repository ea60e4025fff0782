-- ===== src/RefreshQueue/Exclusion.antt =====
-- One refresh at a time, and no more refreshes than requests.
use fleet_prime_agent.Prelude.{
  ℕ, zero, suc, ◌+◌, ◌≤◌, ◌≡◌, refl, ap, Bool, true, false, bit, not, List, [], ◌∷◌, ◌++◌, Option,
  none, some, arith, nat_eq, get_elem?, modify, all, get_elem?-append_end,
}
use fleet_prime_agent.RefreshQueue.{
  Stage, refreshing, drained, forgotten, Queue, Action, requests, clears, settles, forgets, request,
  request_as, drain, settle_as, delete_run, forget_as, clear, act, act_all,
}

-- A run whose callback has not run.
abbrev pub live_stage : Stage → ℕ
live_stage forgotten = 0
live_stage _ = 1

abbrev pub live : List Stage → ℕ
live [] = 0
live (s ∷ runs) = live_stage s + live runs

abbrev pub refreshing_stage : Stage → ℕ
refreshing_stage refreshing = 1
refreshing_stage _ = 0

abbrev pub refreshing_in : List Stage → ℕ
refreshing_in [] = 0
refreshing_in (s ∷ runs) = refreshing_stage s + refreshing_in runs

abbrev pub is_clear : Action → Bool
is_clear clears = true
is_clear _ = false

abbrev pub request_count : List Action → ℕ
request_count [] = 0
request_count (requests ∷ actions) = 1 + request_count actions
request_count (_ ∷ actions) = request_count actions

-- The run in flight is the one live run.
abbrev pub IsLive : Option ℕ → List Stage → Type 0
IsLive none runs = live runs ≡ 0
IsLive (some i) runs =
    (live runs ≡ 1) × ((s : Stage) × (get_elem? runs i ≡ some s) × (live_stage s ≡ 1))

live-append : (runs : List Stage) (s : Stage) → live (runs ++ s ∷ []) ≡ live runs + live_stage s
live-append [] s = omega arith
live-append (r ∷ runs) s = omega (arith, live-append runs s)

live-modify :
    (i : ℕ) (s t : Stage) (runs : List Stage)
    → get_elem? runs i ≡ some t
    → live (modify i (λ r. s) runs) + live_stage t ≡ live runs + live_stage s
live-modify i s t [] at = absurd (cc)
live-modify zero s t (r ∷ runs) at = let same : r ≡ t = cc in rw same (omega arith)
live-modify (suc i) s t (r ∷ runs) at = omega (arith, live-modify i s t runs at)

live-get :
    (i : ℕ) (s : Stage) (runs : List Stage) → get_elem? runs i ≡ some s → live_stage s ≤ live runs
live-get i s [] at = absurd (cc)
live-get zero s (r ∷ runs) at = let same : r ≡ s = cc in rw same (omega arith)
live-get (suc i) s (r ∷ runs) at = omega (arith, live-get i s runs at)

-- Two live runs are one where only one is live.
live_unique :
    (i j : ℕ) (s t : Stage) (runs : List Stage)
    → get_elem? runs i ≡ some s
    → get_elem? runs j ≡ some t
    → live_stage s ≡ 1
    → live_stage t ≡ 1
    → live runs ≡ 1
    → i ≡ j
live_unique i j s t [] at at' a b one = absurd (cc)
live_unique zero zero s t (r ∷ runs) at at' a b one = refl
live_unique zero (suc j) s t (r ∷ runs) at at' a b one =
    let same : r ≡ s = cc in absurd (omega (arith, live-get j t runs at', ap live_stage same))
live_unique (suc i) zero s t (r ∷ runs) at at' a b one =
    let same : r ≡ t = cc in absurd (omega (arith, live-get i s runs at, ap live_stage same))
live_unique (suc i) (suc j) s t (r ∷ runs) at at' a b one =
    ap suc (live_unique i j s t runs at at' a b (omega (arith, live-get i s runs at)))

pub refreshing-le : (runs : List Stage) → refreshing_in runs ≤ live runs
refreshing-le [] = omega arith
refreshing-le (refreshing ∷ runs) = omega (arith, refreshing-le runs)
refreshing-le (drained ∷ runs) = omega (arith, refreshing-le runs)
refreshing-le (forgotten ∷ runs) = omega (arith, refreshing-le runs)

get-modify :
    (i : ℕ) (s t : Stage) (runs : List Stage)
    → get_elem? runs i ≡ some t
    → get_elem? (modify i (λ r. s) runs) i ≡ some s
get-modify i s t [] at = absurd (cc)
get-modify zero s t (r ∷ runs) at = refl
get-modify (suc i) s t (r ∷ runs) at = get-modify i s t runs at

live-le : (f : Option ℕ) (runs : List Stage) → IsLive f runs → live runs ≤ 1
live-le none runs h = omega arith
live-le (some i) runs h = omega (arith, h.0)

request_as-IsLive :
    (q : Queue) (f : Option ℕ)
    → q.in_flight ≡ f
    → IsLive f q.runs
    → IsLive (request_as q f).in_flight (request_as q f).runs
unfolding request_as
request_as-IsLive q (some i) e h = rw e h
request_as-IsLive q none e h = (
  omega (arith, live-append q.runs refreshing),
  (refreshing, get_elem?-append_end q.runs refreshing, refl),
)

-- The one live run is in flight.
pub in_flight-of :
    (f : Option ℕ) (run : ℕ) (s : Stage) (runs : List Stage)
    → IsLive f runs
    → get_elem? runs run ≡ some s
    → live_stage s ≡ 1
    → f ≡ some run
in_flight-of none run s runs h at alive = absurd (omega (arith, live-get run s runs at))
in_flight-of (some i) run s runs (one, (t, here, alive')) at alive =
    ap some (live_unique i run t s runs here at alive' alive one)

drain-IsLive :
    (q : Queue) (pending : Bool) (run : ℕ)
    → get_elem? q.runs run ≡ some refreshing
    → IsLive q.in_flight q.runs
    → IsLive (drain q pending run).in_flight (drain q pending run).runs
unfolding drain
drain-IsLive q true run at h = h
drain-IsLive q false run at h =
    let e = in_flight-of q.in_flight run refreshing q.runs h at refl in
    rw e (
      omega (
        arith,
        live-modify run drained refreshing q.runs at,
        live-le q.in_flight q.runs h,
        live-get run refreshing q.runs at,
      ),
      (drained, get-modify run drained refreshing q.runs at, refl),
    )

settle_as-IsLive :
    (q : Queue) (run : ℕ) (s : Option Stage)
    → get_elem? q.runs run ≡ s
    → IsLive q.in_flight q.runs
    → IsLive (settle_as q run s).in_flight (settle_as q run s).runs
unfolding settle_as
settle_as-IsLive q run (some refreshing) at h = drain-IsLive q q.pending run at h
settle_as-IsLive q run (some drained) at h = h
settle_as-IsLive q run (some forgotten) at h = h
settle_as-IsLive q run none at h = h

nat_eq_refl : (n : ℕ) → nat_eq n n ≡ true
nat_eq_refl n = ground arith

forget_as-IsLive :
    (q : Queue) (run : ℕ) (s : Option Stage)
    → get_elem? q.runs run ≡ s
    → IsLive q.in_flight q.runs
    → IsLive (forget_as q run s).in_flight (forget_as q run s).runs
unfolding forget_as delete_run
forget_as-IsLive q run (some drained) at h =
    let e = in_flight-of q.in_flight run drained q.runs h at refl in
    rw (e, nat_eq_refl run)
      (omega (arith, live-modify run forgotten drained q.runs at, live-le q.in_flight q.runs h))
forget_as-IsLive q run (some refreshing) at h = h
forget_as-IsLive q run (some forgotten) at h = h
forget_as-IsLive q run none at h = h

pub act-IsLive :
    (q : Queue) (a : Action)
    → is_clear a ≡ false
    → IsLive q.in_flight q.runs
    → IsLive (act q a).in_flight (act q a).runs
unfolding act request
act-IsLive q requests h live = request_as-IsLive q q.in_flight refl live
act-IsLive q clears h live = absurd (cc)
act-IsLive q (settles run) h live = settle_as-IsLive q run (get_elem? q.runs run) refl live
act-IsLive q (forgets run) h live = forget_as-IsLive q run (get_elem? q.runs run) refl live

pub act_all-IsLive :
    (q : Queue) (actions : List Action)
    → all (λ a. not (is_clear a)) actions ≡ true
    → IsLive q.in_flight q.runs
    → live (act_all q actions).runs ≤ 1
unfolding act_all
act_all-IsLive q [] h live = live-le q.in_flight q.runs live
act_all-IsLive q (a ∷ actions) h live =
    act_all-IsLive (act q a) actions (ground arith) (act-IsLive q a (ground arith) live)

-- Each refresh answers a request of its own.
drain-count :
    (q : Queue) (p : Bool) (run : ℕ)
    → q.pending ≡ p
    → (drain q p run).started + bit (drain q p run).pending ≤ q.started + bit q.pending
unfolding drain
drain-count q true run e = omega (arith, ap bit e)
drain-count q false run e = omega (arith, ap bit e)

request_as-count :
    (q : Queue) (f : Option ℕ)
    → (request_as q f).started + bit (request_as q f).pending ≤ q.started + bit q.pending + 1
unfolding request_as
request_as-count q none = omega arith
request_as-count q (some i) = omega arith

settle_as-count :
    (q : Queue) (run : ℕ) (s : Option Stage)
    → (settle_as q run s).started + bit (settle_as q run s).pending ≤ q.started + bit q.pending
unfolding settle_as
settle_as-count q run none = omega arith
settle_as-count q run (some refreshing) = drain-count q q.pending run refl
settle_as-count q run (some drained) = omega arith
settle_as-count q run (some forgotten) = omega arith

forget_as-count :
    (q : Queue) (run : ℕ) (s : Option Stage)
    → (forget_as q run s).started + bit (forget_as q run s).pending ≤ q.started + bit q.pending
unfolding forget_as
forget_as-count q run none = omega arith
forget_as-count q run (some refreshing) = omega arith
forget_as-count q run (some drained) = omega arith
forget_as-count q run (some forgotten) = omega arith

act-count :
    (q : Queue) (a : Action)
    → (act q a).started + bit (act q a).pending ≤ q.started + bit q.pending + request_count (a ∷ [])
unfolding act request clear
act-count q requests = omega (arith, request_as-count q q.in_flight)
act-count q clears = omega arith
act-count q (settles run) = omega (arith, settle_as-count q run (get_elem? q.runs run))
act-count q (forgets run) = omega (arith, forget_as-count q run (get_elem? q.runs run))

request_count-cons :
    (a : Action) (actions : List Action)
    → request_count (a ∷ actions) ≡ request_count (a ∷ []) + request_count actions
request_count-cons requests actions = refl
request_count-cons clears actions = omega arith
request_count-cons (settles run) actions = omega arith
request_count-cons (forgets run) actions = omega arith

pub act_all-count :
    (q : Queue) (actions : List Action)
    → (act_all q actions).started ≤ q.started + bit q.pending + request_count actions
unfolding act_all
act_all-count q [] = omega arith
act_all-count q (a ∷ actions) =
    omega (arith, act-count q a, act_all-count (act q a) actions, request_count-cons a actions)
