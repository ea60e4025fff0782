-- ===== src/RefreshQueue/Service.antt =====
-- A request that waits has a refresh under way that will serve it.
use fleet_prime_agent.Prelude.{
  ℕ, ◌+◌, ◌≡◌, ◌≢◌, ◌⊎◌, refl, sym, ap, ◌∙◌, Bool, true, false, not, ◌&&◌, List, [], ◌∷◌, Option,
  none, some, arith, get_elem?, inl, inr,
}
use fleet_prime_agent.RefreshQueue.{
  Stage, refreshing, drained, forgotten, Queue, Action, requests, clears, settles, forgets, new,
  request, request_as, drain, settle_as, forget_as, act, act_all,
}
use fleet_prime_agent.RefreshQueue.Exclusion.{
  live_stage, is_clear, IsLive, in_flight-of, act-IsLive,
}

-- The loop of the run has ended and its callback has not run.
abbrev pub is_drained : Option Stage → Bool
is_drained (some drained) = true
is_drained _ = false

abbrev pub run_ended : Option ℕ → List Stage → Bool
run_ended none runs = false
run_ended (some i) runs = is_drained (get_elem? runs i)

-- No request comes between the end of a run's loop and its callback, and the queue is not cleared.
abbrev pub timely : Queue → Action → Bool
timely q requests = not (run_ended q.in_flight q.runs)
timely q a = not (is_clear a)

abbrev pub all_timely : Queue → List Action → Bool
all_timely q [] = true
all_timely q (a ∷ actions) = timely q a && all_timely (act q a) actions

-- Nothing waits, or the run in flight is refreshing.
abbrev pub Served : Queue → Type 0
Served q =
    (q.pending ≡ false)
    ⊎ ((run : ℕ) × (q.in_flight ≡ some run) × (get_elem? q.runs run ≡ some refreshing))

-- The live run in flight is refreshing, where its loop has not ended.
refreshing-of :
    (runs : List Stage) (i : ℕ) (s : Stage)
    → get_elem? runs i ≡ some s
    → live_stage s ≡ 1
    → is_drained (get_elem? runs i) ≡ false
    → get_elem? runs i ≡ some refreshing
refreshing-of runs i refreshing at alive h = at
refreshing-of runs i drained at alive h = absurd (ground arith)
refreshing-of runs i forgotten at alive h = absurd (cc)

request_as-Served :
    (q : Queue) (f : Option ℕ)
    → q.in_flight ≡ f
    → run_ended f q.runs ≡ false
    → IsLive f q.runs
    → Served (request_as q f)
unfolding request_as
request_as-Served q none e h live = inl refl
request_as-Served q (some i) e h (one, (s, at, alive)) =
    inr (i, e, refreshing-of q.runs i s at alive h)

drain-Served : (q : Queue) (p : Bool) (run : ℕ) → q.pending ≡ p → Served (drain q p run)
unfolding drain
drain-Served q true run e = inl refl
drain-Served q false run e = inl e

settle_as-Served : (q : Queue) (run : ℕ) (s : Option Stage) → Served q → Served (settle_as q run s)
unfolding settle_as
settle_as-Served q run none h = h
settle_as-Served q run (some refreshing) h = drain-Served q q.pending run refl
settle_as-Served q run (some drained) h = h
settle_as-Served q run (some forgotten) h = h

clash : some refreshing ≢ some drained
clash = λ e. cc

forget_as-Served :
    (q : Queue) (run : ℕ) (s : Option Stage)
    → get_elem? q.runs run ≡ s
    → IsLive q.in_flight q.runs
    → Served q
    → Served (forget_as q run s)
unfolding forget_as
forget_as-Served q run none at live h = h
forget_as-Served q run (some refreshing) at live h = h
forget_as-Served q run (some forgotten) at live h = h
forget_as-Served q run (some drained) at live (inl nothing) = inl nothing
forget_as-Served q run (some drained) at live (inr (i, flight, busy)) =
    let mine : q.in_flight ≡ some run = in_flight-of q.in_flight run drained q.runs live at refl in
    let same : i ≡ run = cc in absurd (clash (sym busy ∙ ap (get_elem? q.runs) same ∙ at))

act-Served :
    (q : Queue) (a : Action)
    → timely q a ≡ true
    → IsLive q.in_flight q.runs
    → Served q
    → Served (act q a)
unfolding act request
act-Served q requests t live h = request_as-Served q q.in_flight refl (ground arith) live
act-Served q clears t live h = absurd (cc)
act-Served q (settles run) t live h = settle_as-Served q run (get_elem? q.runs run) h
act-Served q (forgets run) t live h = forget_as-Served q run (get_elem? q.runs run) refl live h

timely-is_clear : (q : Queue) (a : Action) → timely q a ≡ true → is_clear a ≡ false
timely-is_clear q requests t = refl
timely-is_clear q clears t = absurd (cc)
timely-is_clear q (settles run) t = refl
timely-is_clear q (forgets run) t = refl

act_all-Served_from :
    (q : Queue) (actions : List Action)
    → all_timely q actions ≡ true
    → IsLive q.in_flight q.runs
    → Served q
    → Served (act_all q actions)
unfolding act_all
act_all-Served_from q [] t live h = h
act_all-Served_from q (a ∷ actions) t live h =
    let now : timely q a ≡ true = ground arith in
    act_all-Served_from (act q a) actions (ground arith)
      (act-IsLive q a (timely-is_clear q a now) live) (act-Served q a now live h)

settle-starts :
    (q : Queue) (run : ℕ)
    → q.pending ≡ true
    → get_elem? q.runs run ≡ some refreshing
    → (act q (settles run)).started ≡ q.started + 1
unfolding act settle_as drain
settle-starts q run waits busy = rw (busy, waits) refl

-- As long as the queue is not cleared and no request comes between the end of a run's loop and its
-- callback, a request that waits has a refresh under way, and the end of that refresh starts
-- another one for it.
pub act_all-serves :
    (actions : List Action)
    → all_timely new actions ≡ true
    → (act_all new actions).pending ≡ true
    → (run : ℕ) × ((act_all new actions).in_flight ≡ some run)
      × (get_elem? (act_all new actions).runs run ≡ some refreshing)
      × ((act (act_all new actions) (settles run)).started ≡ (act_all new actions).started + 1)
unfolding new
act_all-serves actions t waits = elim (act_all-Served_from new actions t refl (inl refl)) [
  | inl nothing ↦ absurd (cc)
  | inr (run, flight, busy) ↦
      (run, flight, busy, settle-starts (act_all new actions) run waits busy)
]
