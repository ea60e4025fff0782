-- ===== src/SequenceGap/Tests.antt =====
-- A session at sequence 3 that receives the frames 4 and 7.
use fleet_prime_agent.Prelude.{
  ℕ, ◌≡◌, ◌+◌, refl, String, List, [], ◌∷◌, none, some, ◌⊎◌, arith, length,
}
use fleet_prime_agent.Prelude.Dict.{lookup}
use fleet_prime_agent.Prelude.Json.{Value, num, str, obj, end, field}
use fleet_prime_agent.SequenceGap.{
  Positions, DaemonSequenceGap, view, handle, gap_after, same_generation, generations_agree,
  observe, observe_all,
}
use fleet_prime_agent.SequenceGap.Accounting.{at, total_missing, observe_all_accounts}
use fleet_prime_agent.SequenceGap.Isolation.{observe_all-spares}
use fleet_prime_agent.SequenceGap.Reports.{Lost, observe-Reported, Quiet}

abbrev turn_end : String → ℕ → Value
turn_end session n = obj (
    field "type" (str "session_event") (
      field "activeSessionId" (str session)
        (field "meta" (obj (field "sequence" (num n) end)) end)))

abbrev known : Positions
known = ("s", at none 3) ∷ []

abbrev frames : List Value
frames = turn_end "s" 4 ∷ turn_end "s" 7 ∷ []

observe_all_accounts_example : total_missing (observe_all known frames).1 + length frames + 3 ≡ 7
unfolding view lookup
observe_all_accounts_example =
    (observe_all_accounts "s" none known frames 3 7 refl
      (4, refl, omega arith, (7, refl, omega arith, refl))).1

observe_all-spares_example : lookup "t" (observe_all known frames).0 ≡ lookup "t" known
unfolding view
observe_all-spares_example = observe_all-spares "t" known frames refl

abbrev lost : DaemonSequenceGap
lost = record {
  active_session_id = "s";
  generation = none;
  last_sequence = 3;
  received_sequence = 7;
  missing = 3;
}

observe-Reported_example :
    ((gap : DaemonSequenceGap) × ((observe known (turn_end "s" 7)).1 ≡ some gap)
      × Lost known (turn_end "s" 7) gap)
    ⊎ (((observe known (turn_end "s" 7)).1 ≡ none) × Quiet known (turn_end "s" 7))
observe-Reported_example = observe-Reported known (turn_end "s" 7)

lost_three : (observe known (turn_end "s" 7)).1 ≡ some lost
unfolding observe handle gap_after same_generation generations_agree view lookup
lost_three = refl
