-- ===== src/RefreshQueue.antt =====
-- web/server/src/coalescing-refresh-queue.ts, the class CoalescingRefreshQueue, for one key: the keys
-- do not share anything. A run is the async function that drains the requests of the key; it is cut
-- where it awaits a refresh, and the callback of `finally` runs in a step of its own, after the loop
-- has ended. The refresh is an async function.
pub mod Exclusion
pub mod Sharing
pub mod Service
mod Tests
use fleet_prime_agent.Prelude.{
  ℕ, suc, ◌+◌, Bool, true, false, List, [], ◌∷◌, ◌++◌, Option, none, some, nat_eq, if◌then◌else◌,
  length, get_elem?, modify,
}

pub data Stage : Type 0 where
  refreshing drained forgotten : Stage

-- A run is named by its place among the runs; `started` counts the refreshes.
pub record Queue : Type 0 where
  pub pending : Bool
  pub in_flight : Option ℕ
  pub runs : List Stage
  pub started : ℕ

pub data Action : Type 0 where
  requests clears : Action
  settles forgets : ℕ → Action

unfoldable pub new : Queue
new = record { pending = false; in_flight = none; runs = []; started = 0 }

-- `request`: the run's first refresh starts before `request` returns.
request_as : Queue → Option ℕ → Queue
request_as q (some run) = record q { pending = true }
request_as q none = record {
  pending = false;
  in_flight = some (length q.runs);
  runs = q.runs ++ refreshing ∷ [];
  started = q.started + 1;
}

pub request : Queue → Queue
unfolding request_as
request q = request_as q q.in_flight

-- The loop after its `await`, whether the refresh failed or not.
drain : Queue → Bool → ℕ → Queue
drain q true run = record q { pending = false; started = q.started + 1 }
drain q false run = record q { runs = modify run (λ s. drained) q.runs }

settle_as : Queue → ℕ → Option Stage → Queue
unfolding drain
settle_as q run (some refreshing) = drain q q.pending run
settle_as q run _ = q

-- `if (this.#inFlight.get(key) === run) this.#inFlight.delete(key)`
delete_run : Option ℕ → ℕ → Option ℕ
delete_run none run = none
delete_run (some i) run = if nat_eq i run then none else some i

-- The callback of `finally`.
forget_as : Queue → ℕ → Option Stage → Queue
unfolding delete_run
forget_as q run (some drained) = record q {
  in_flight = delete_run q.in_flight run;
  runs = modify run (λ s. forgotten) q.runs;
}
forget_as q run _ = q

pub clear : Queue → Queue
clear q = record q { pending = false; in_flight = none }

unfoldable pub act : Queue → Action → Queue
unfolding request settle_as forget_as clear
act q requests = request q
act q clears = clear q
act q (settles run) = settle_as q run (get_elem? q.runs run)
act q (forgets run) = forget_as q run (get_elem? q.runs run)

unfoldable pub act_all : Queue → List Action → Queue
unfolding act
act_all q [] = q
act_all q (a ∷ actions) = act_all (act q a) actions
