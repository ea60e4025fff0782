-- ===== src/Dialogs/Tests.antt =====
-- One session with two questions, of which the first is answered or times out.
use fleet_prime_agent.Prelude.{ℕ, String, ◌≡◌, refl, Bool, true, none, some}
use fleet_prime_agent.Prelude.Dict.{lookup, insert}
use fleet_prime_agent.Dialogs.{
  find_dialog, put, PendingDialog, Registry, OpenArgs, rejected, confirm, user_abort, timeout, new,
  open_dialog, answer, cancel_all, expire, find_open,
}
use fleet_prime_agent.Dialogs.Calls.{IsCoherent}
use fleet_prime_agent.Dialogs.Outcomes.{outcome_at, cancel_all_rejects, answer_lem, expire_lem}
use fleet_prime_agent.Dialogs.Removal.{find_open-cancel_all}
use fleet_prime_agent.Dialogs.Traces.{Reach, here, next, opens, Reach-IsCoherent}

abbrev ask : String → OpenArgs ℕ ℕ
ask id = record {
  session_id = "s";
  tool_call_id = id;
  kind = confirm;
  title = "Go on?";
  message = "";
  options = none;
  questions = none;
  placeholder = none;
  timeout_ms = none;
  signal_frame = 7;
}

abbrev empty : Registry Bool ℕ ℕ
empty = new none

abbrev one : Registry Bool ℕ ℕ
one = open_dialog empty (ask "a") 5

abbrev two : Registry Bool ℕ ℕ
two = open_dialog one (ask "b") 6

abbrev first : PendingDialog ℕ
first = record {
  session_id = "s";
  tool_call_id = "a";
  kind = confirm;
  title = "Go on?";
  message = "";
  options = none;
  questions = none;
  placeholder = none;
  created_at = 5;
  timeout_ms = some 60000;
  handle = 0;
}

steps : Reach empty two
unfolding open_dialog find_open find_dialog new put lookup insert
steps = next (next here (opens empty (ask "a") 5 refl)) (opens one (ask "b") 6 refl)

found : find_open two "s" "a" ≡ some first
unfolding open_dialog find_open find_dialog new put lookup insert
found = refl

Reach-IsCoherent_example : IsCoherent two
Reach-IsCoherent_example = Reach-IsCoherent none steps

answer_lem_example : (answer two "s" "a" true).1 ≡ true
answer_lem_example = (answer_lem two "s" "a" "s" "b" true first Reach-IsCoherent_example found).0

expire_lem_example : outcome_at (expire two 0) 0 ≡ some (rejected timeout)
expire_lem_example = (expire_lem two "s" "a" "s" "a" first Reach-IsCoherent_example found).0

cancel_all_rejects_example :
    outcome_at (cancel_all two "s" user_abort).0 0 ≡ some (rejected user_abort)
cancel_all_rejects_example =
    cancel_all_rejects two "s" "a" user_abort first Reach-IsCoherent_example found

find_open-cancel_all_example : find_open (cancel_all two "s" user_abort).0 "s" "b" ≡ none
find_open-cancel_all_example =
    find_open-cancel_all two "s" user_abort "s" "b" Reach-IsCoherent_example
