-- ===== src/PlanState/Shown.antt =====
-- A plan as the transcript shows it.
use fleet_prime_agent.Prelude.{
  ◌≤◌, String, ◌≡◌, refl, sym, ap, Bool, true, false, List, [], ◌∷◌, Option, none, some, arith,
  ==_iff, if◌then◌else◌, nat_eq, length, filter, length-filter-le, all, List-cases, ◌⊎◌, inl, inr,
}
use fleet_prime_agent.PlanState.{
  TodoItem, PlanModeState, ChatPlanState, plan_mode, agent, is_plan, tool_call_id_for,
  plan_state_from_chat_plan_state, completed_in, to_chat_plan_state, same_id, bind_as,
  bind_pending_plan_decision_tool_call_id,
}
use fleet_prime_agent.PlanState.Part.{
  Status, awaiting_approval, finished, approved, PlanTool, status_of, plan_tool,
  create_plan_tool_part,
}

-- No tool call is bound where no decision is pending.
abbrev pub IsUnbound : PlanModeState → Type 0
IsUnbound state = state.pending_decision ≡ false → state.pending_decision_tool_call_id ≡ none

is_plan-mode : (b : Bool) → is_plan (if b then plan_mode else agent) ≡ b
unfolding is_plan
is_plan-mode true = refl
is_plan-mode false = refl

same_id-some : (o : Option String) (id : String) → same_id o id ≡ true → o ≡ some id
unfolding same_id
same_id-some none id h = absurd (cc)
same_id-some (some a) id h = ap some ((==_iff a id).0 h)

bind_as-id :
    (pending same : Bool) (state : PlanModeState) (id : String)
    → state.pending_decision ≡ pending
    → same_id state.pending_decision_tool_call_id id ≡ same
    → IsUnbound state
    → record state { pending_decision_tool_call_id = if pending then some id else none }
      ≡ bind_as pending same state id
unfolding bind_as
bind_as-id false same state id settled match unbound =
    ap (λ i. record state { pending_decision_tool_call_id = i }) (sym (unbound settled))
bind_as-id true true state id pending match unbound =
    ap (λ i. record state { pending_decision_tool_call_id = i })
      (sym (same_id-some state.pending_decision_tool_call_id id match))
bind_as-id true false state id pending match unbound = refl

-- To show the state and read it back is to bind the pending decision to the message: mode, execution
-- and steps come back as they were, where no tool call is bound without a pending decision.
pub plan_state-to_chat_plan_state :
    (state : PlanModeState) (assistant_id : String)
    → IsUnbound state
    → plan_state_from_chat_plan_state (to_chat_plan_state state) assistant_id
      ≡ bind_pending_plan_decision_tool_call_id state assistant_id
unfolding plan_state_from_chat_plan_state to_chat_plan_state bind_pending_plan_decision_tool_call_id
plan_state-to_chat_plan_state state assistant_id unbound =
    rw (is_plan-mode state.enabled)
      (bind_as-id state.pending_decision _ state (tool_call_id_for assistant_id) refl refl unbound)

filter-all :
    (p : TodoItem → Bool) (todos : List TodoItem)
    → nat_eq (length (filter p todos)) (length todos) ≡ all p todos
filter-all p [] = refl
filter-all p (t ∷ todos) = ground (arith, filter-all p todos, length-filter-le p todos)

-- The status that a plan should show.
abbrev pub status_for : PlanModeState → Status
status_for state =
    if state.pending_decision
    then awaiting_approval
    else if all (λ todo. todo.completed) state.todos
    then finished
    else approved

status_of-counts :
    (pending all_done : Bool) (shown : ChatPlanState)
    → 1 ≤ shown.total
    → nat_eq shown.completed shown.total ≡ all_done
    → status_of pending shown
      ≡ (if pending then awaiting_approval else if all_done then finished else approved)
unfolding status_of
status_of-counts true all_done shown h counted = refl
status_of-counts false all_done shown h counted = ground arith

status_of-plan :
    (state : PlanModeState)
    → 1 ≤ length state.todos
    → status_of state.pending_decision (to_chat_plan_state state) ≡ status_for state
unfolding to_chat_plan_state completed_in
status_of-plan state h =
    status_of-counts state.pending_decision (all (λ todo. todo.completed) state.todos)
      (to_chat_plan_state state) h (filter-all (λ todo. todo.completed) state.todos)

-- A plan part is made for every plan that has a step and for no other; it awaits approval while a
-- decision is pending, is completed when every step is, and counts no more steps completed than
-- there are.
pub create_plan_tool_part-status :
    (assistant_id : String) (state : PlanModeState)
    → ((state.todos ≡ []) × (create_plan_tool_part assistant_id state ≡ none))
      ⊎ ((tool : PlanTool) × (create_plan_tool_part assistant_id state ≡ some tool)
          × (tool.status ≡ status_for state)
          × (tool.presentation.completed ≤ tool.presentation.total)
          × (tool.presentation.todos ≡ state.todos))
unfolding create_plan_tool_part plan_tool to_chat_plan_state completed_in
create_plan_tool_part-status assistant_id state = elim (List-cases state.todos) [
  | inl empty ↦ inl (empty, rw empty refl)
  | inr (t, todos, full) ↦
      let some_step : 1 ≤ length state.todos = rw full (omega arith) in
      let counted : nat_eq (length state.todos) 0 ≡ false = ground arith in
      inr (
        plan_tool assistant_id state,
        rw counted refl,
        status_of-plan state some_step,
        length-filter-le (λ todo. todo.completed) state.todos,
        refl,
      )
]
