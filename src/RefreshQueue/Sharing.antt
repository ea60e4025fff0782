-- ===== src/RefreshQueue/Sharing.antt =====
-- web/server/src/coalescing-refresh-queue.ts: how many refreshes start for the requests that come.
use fleet_prime_agent.Prelude.{
  ℕ, ap, ◌+◌, ◌≤◌, ◌≡◌, refl, Bool, true, false, bit, not, List, [], ◌∷◌, Option, none, some, arith,
  is_some, all, get_elem?,
}
use fleet_prime_agent.RefreshQueue.{
  Stage, refreshing, drained, forgotten, Queue, Action, requests, clears, settles, forgets, new,
  request, request_as, drain, settle_as, delete_run, forget_as, act, act_all,
}
use fleet_prime_agent.RefreshQueue.Exclusion.{
  is_clear, request_count, refreshing_in, refreshing-le, act_all-IsLive, act_all-count, IsLive,
  in_flight-of, act-IsLive,
}

-- The settlings before which a request came since the settling before, and the callbacks. The flag tells
-- whether a request came since the last settling.
abbrev pub rounds : Bool → List Action → ℕ
rounds asked [] = 0
rounds asked (requests ∷ actions) = rounds true actions
rounds asked (clears ∷ actions) = rounds asked actions
rounds asked (settles run ∷ actions) = bit asked + rounds false actions
rounds asked (forgets run ∷ actions) = 1 + rounds asked actions

bit-le : (b : Bool) → bit b ≤ 1
bit-le true = omega arith
bit-le false = omega arith

-- So many refreshes may have started: one less while none is in flight, and one more that a request of
-- this round waits for.
record Shares (q : Queue) (bound : ℕ) (asked : Bool) : Type 0 where
  idle : q.started + bit (not (is_some q.in_flight)) ≤ bound
  waiting : q.started + bit q.pending ≤ bound + bit asked

idle_bit : (f : Option ℕ) {g : Option ℕ} → f ≡ g → bit (not (is_some f)) ≡ bit (not (is_some g))
idle_bit f e = ap (λ o. bit (not (is_some o))) e

request_as-Shares :
    (q : Queue) (f : Option ℕ) (bound : ℕ) (asked : Bool)
    → q.in_flight ≡ f
    → Shares q bound asked
    → Shares (request_as q f) bound true
unfolding request_as
request_as-Shares q none bound asked e h = record {
  idle = omega (arith, h.idle, idle_bit q.in_flight e);
  waiting = omega (arith, h.idle, idle_bit q.in_flight e);
}
request_as-Shares q (some run) bound asked e h = record {
  idle = h.idle;
  waiting = omega (arith, h.idle);
}

-- The run of the settling is the one in flight.
drain-Shares :
    (q : Queue) (p : Bool) (run bound : ℕ) (asked : Bool)
    → q.pending ≡ p
    → q.in_flight ≡ some run
    → Shares q bound asked
    → Shares (drain q p run) (bound + bit asked) false
unfolding drain
drain-Shares q true run bound asked e i h = record {
  idle = omega (arith, h.waiting, ap bit e, idle_bit q.in_flight i);
  waiting = omega (arith, h.waiting, ap bit e);
}
drain-Shares q false run bound asked e i h = record {
  idle = omega (arith, h.idle);
  waiting = omega (arith, h.waiting);
}

settled_anyway :
    (q : Queue) (bound : ℕ) (asked : Bool)
    → Shares q bound asked
    → Shares q (bound + bit asked) false
settled_anyway q bound asked h = record {
  idle = omega (arith, h.idle);
  waiting = omega (arith, h.waiting);
}

settle_as-Shares :
    (q : Queue) (run bound : ℕ) (asked : Bool) (s : Option Stage)
    → get_elem? q.runs run ≡ s
    → IsLive q.in_flight q.runs
    → Shares q bound asked
    → Shares (settle_as q run s) (bound + bit asked) false
unfolding settle_as
settle_as-Shares q run bound asked (some refreshing) at live h =
    drain-Shares q q.pending run bound asked refl
      (in_flight-of q.in_flight run refreshing q.runs live at refl) h
settle_as-Shares q run bound asked (some drained) at live h = settled_anyway q bound asked h
settle_as-Shares q run bound asked (some forgotten) at live h = settled_anyway q bound asked h
settle_as-Shares q run bound asked none at live h = settled_anyway q bound asked h

forget_as-Shares :
    (q : Queue) (run bound : ℕ) (asked : Bool) (s : Option Stage)
    → Shares q bound asked
    → Shares (forget_as q run s) (bound + 1) asked
unfolding forget_as
forget_as-Shares q run bound asked (some drained) h = record {
  idle = omega (arith, h.idle, bit-le (not (is_some (delete_run q.in_flight run))));
  waiting = omega (arith, h.waiting);
}
forget_as-Shares q run bound asked (some refreshing) h = record {
  idle = omega (arith, h.idle);
  waiting = omega (arith, h.waiting);
}
forget_as-Shares q run bound asked (some forgotten) h = record {
  idle = omega (arith, h.idle);
  waiting = omega (arith, h.waiting);
}
forget_as-Shares q run bound asked none h = record {
  idle = omega (arith, h.idle);
  waiting = omega (arith, h.waiting);
}

act_all-shared :
    (q : Queue) (actions : List Action) (bound : ℕ) (asked : Bool)
    → all (λ a. not (is_clear a)) actions ≡ true
    → IsLive q.in_flight q.runs
    → Shares q bound asked
    → (act_all q actions).started ≤ bound + rounds asked actions
unfolding act_all act request
act_all-shared q [] bound asked c live h = omega (arith, h.idle)
act_all-shared q (requests ∷ actions) bound asked c live h =
    act_all-shared (act q requests) actions bound true (ground arith)
      (act-IsLive q requests refl live) (request_as-Shares q q.in_flight bound asked refl h)
act_all-shared q (clears ∷ actions) bound asked c live h = absurd (cc)
act_all-shared q (settles run ∷ actions) bound asked c live h = omega (
  arith,
  act_all-shared (act q (settles run)) actions (bound + bit asked) false (ground arith)
      (act-IsLive q (settles run) refl live)
      (settle_as-Shares q run bound asked (get_elem? q.runs run) refl live h),
)
act_all-shared q (forgets run ∷ actions) bound asked c live h = omega (
  arith,
  act_all-shared (act q (forgets run)) actions (bound + 1) asked (ground arith)
      (act-IsLive q (forgets run) refl live)
      (forget_as-Shares q run bound asked (get_elem? q.runs run) h),
)

-- As long as the queue is not cleared, at most one refresh of the key is under way at any time, no more
-- refreshes start than requests came, and all requests between two settlings share one: at most one
-- refresh starts at first, one more for each settling before which a request came since the settling
-- before, and one more for each callback that forgets a run.
pub act_all-exclusive :
    (actions : List Action)
    → all (λ a. not (is_clear a)) actions ≡ true
    → (refreshing_in (act_all new actions).runs ≤ 1)
      × ((act_all new actions).started ≤ request_count actions)
      × ((act_all new actions).started ≤ 1 + rounds false actions)
unfolding new
act_all-exclusive actions h =
    let first : Shares new 1 false = record { idle = omega arith; waiting = omega arith } in
    (
      omega (arith, refreshing-le (act_all new actions).runs, act_all-IsLive new actions h refl),
      omega (arith, act_all-count new actions),
      act_all-shared new actions 1 false h refl first,
    )
