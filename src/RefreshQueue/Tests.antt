-- ===== src/RefreshQueue/Tests.antt =====
-- Requests that come while a refresh is under way, and one that comes too late.
use fleet_prime_agent.Prelude.{
  ℕ, ◌+◌, ◌≤◌, ◌≡◌, refl, true, false, List, [], ◌∷◌, none, some, get_elem?,
}
use fleet_prime_agent.RefreshQueue.{
  Action, requests, settles, forgets, refreshing, new, act, act_all,
}
use fleet_prime_agent.RefreshQueue.Exclusion.{refreshing_in, request_count}
use fleet_prime_agent.RefreshQueue.Sharing.{rounds, act_all-exclusive}
use fleet_prime_agent.RefreshQueue.Service.{all_timely, act_all-serves}

abbrev shared : List Action
shared = requests ∷ requests ∷ requests ∷ settles 0 ∷ requests ∷ []

act_all-exclusive_example :
    (refreshing_in (act_all new shared).runs ≤ 1)
    × ((act_all new shared).started ≤ request_count shared)
    × ((act_all new shared).started ≤ 1 + rounds false shared)
act_all-exclusive_example = act_all-exclusive shared refl

shared_timely : all_timely new shared ≡ true
unfolding new act
shared_timely = refl

shared_waits : (act_all new shared).pending ≡ true
unfolding new act act_all
shared_waits = refl

act_all-serves_example :
    (run : ℕ) × ((act_all new shared).in_flight ≡ some run)
    × (get_elem? (act_all new shared).runs run ≡ some refreshing)
    × ((act (act_all new shared) (settles run)).started ≡ (act_all new shared).started + 1)
act_all-serves_example = act_all-serves shared shared_timely shared_waits

-- A request between the end of the loop and the callback of `finally` waits, with no run in flight.
abbrev late : List Action
late = requests ∷ settles 0 ∷ requests ∷ forgets 0 ∷ []

late_waits :
    ((act_all new late).pending ≡ true)
    × ((act_all new late).in_flight ≡ none)
    × ((act_all new late).started ≡ 1)
unfolding new act act_all
late_waits = (refl, refl, refl)
