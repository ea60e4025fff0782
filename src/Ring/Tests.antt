-- ===== src/Ring/Tests.antt =====
-- A ring of two slots after three pushes: what a client that saw one event or none is sent.
use fleet_prime_agent.Prelude.{ℕ, ◌≡◌, List, [], ◌∷◌, false, none, some, ◌+◌}
use fleet_prime_agent.Ring.{RingBuffer, new, push, clear, replay_since}
use fleet_prime_agent.Ring.Refinement.{
  Refines, Call, pushes, clears, run, log_of, run-Refines, replay_since-log,
}

abbrev calls : List (Call ℕ)
calls =
    pushes 9 none
    ∷ clears "b"
    ∷ pushes 5 none
    ∷ pushes 0 (some (λ number generation. number + 4))
    ∷ pushes 7 none
    ∷ []

abbrev ring : RingBuffer ℕ
ring = run (new 2 "a") calls

ring-Refines : Refines ring (5 ∷ 6 ∷ 7 ∷ [])
unfolding log_of
ring-Refines = run-Refines 2 "a" calls

run-Refines_example : Refines ring (log_of "a" [] calls)
run-Refines_example = run-Refines 2 "a" calls

replay_since-log_example : replay_since ring 1 ≡ record {
  replayed = record { seq = 2; event = 6 } ∷ record { seq = 3; event = 7 } ∷ [];
  overflowed = false;
}
unfolding new run push clear
replay_since-log_example = replay_since-log ring (5 ∷ 6 ∷ 7 ∷ []) 1 ring-Refines
