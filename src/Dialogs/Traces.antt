-- ===== src/Dialogs/Traces.antt =====
-- The registry under any sequence of its calls and timer runs.
use fleet_prime_agent.Prelude.Dict.{lookup}
use fleet_prime_agent.Prelude.{ℕ, String, ◌≡◌, Option, none, []}
use fleet_prime_agent.Dialogs.{
  Registry, OpenArgs, CancelReason, new, find_dialog, find_open, open_dialog, answer, cancel,
  cancel_all, expire,
}
use fleet_prime_agent.Dialogs.Coherence.{Coherent}
use fleet_prime_agent.Dialogs.Calls.{
  IsCoherent, open_dialog-IsCoherent, answer-IsCoherent, cancel-IsCoherent, cancel_all-IsCoherent,
  expire-IsCoherent,
}

-- A dialog is opened under an id that is not in use: the callers draw a fresh UUID for each.
pub data Step {A P Q : Type 0} : Registry A P Q → Registry A P Q → Type 0 where
  opens :
      (r : Registry A P Q) (args : OpenArgs P Q) (now : ℕ)
      → find_open r args.session_id args.tool_call_id ≡ none
      → Step r (open_dialog r args now)
  answers : (r : Registry A P Q) (s t : String) (value : A) → Step r (answer r s t value).0
  cancels : (r : Registry A P Q) (s t : String) (c : CancelReason) → Step r (cancel r s t c).0
  cancels_all : (r : Registry A P Q) (s : String) (c : CancelReason) → Step r (cancel_all r s c).0
  expires : (r : Registry A P Q) (h : ℕ) → Step r (expire r h)

pub data Reach {A P Q : Type 0} (r : Registry A P Q) : Registry A P Q → Type 0 where
  here : Reach r r
  next : {q q' : Registry A P Q} → Reach r q → Step q q' → Reach r q'

empty-Coherent : {A Q : Type 0} → Coherent {A = A} {Q = Q} [] []
unfolding find_dialog lookup
empty-Coherent = record {
  registered = λ s t d found. absurd (cc);
  awaited = λ h o at waits. absurd (cc);
  disarmed = λ h o at arm. absurd (cc);
}

module _ {A P Q : Type 0} where
  Step-IsCoherent : {r r' : Registry A P Q} → Step r r' → IsCoherent r → IsCoherent r'
  Step-IsCoherent (opens r args now fresh) v = open_dialog-IsCoherent r args now v fresh
  Step-IsCoherent (answers r s t value) v = answer-IsCoherent r s t value v
  Step-IsCoherent (cancels r s t c) v = cancel-IsCoherent r s t c v
  Step-IsCoherent (cancels_all r s c) v = cancel_all-IsCoherent r s c v
  Step-IsCoherent (expires r h) v = expire-IsCoherent r h v

  Reach-IsCoherent_from : {r r' : Registry A P Q} → IsCoherent r → Reach r r' → IsCoherent r'
  Reach-IsCoherent_from v here = v
  Reach-IsCoherent_from v (next steps step) = Step-IsCoherent step (Reach-IsCoherent_from v steps)

  -- After any sequence of opens under unused ids, answers, cancellations and timer runs on a new
  -- registry, each open dialog stands under its own ids with a pending promise and a running timer,
  -- each pending promise belongs to an open dialog, and each running timer to a pending promise.
  pub Reach-IsCoherent :
      (default_ms : Option ℕ) {r : Registry A P Q} → Reach (new default_ms) r → IsCoherent r
  unfolding new
  Reach-IsCoherent default_ms steps = Reach-IsCoherent_from empty-Coherent steps
