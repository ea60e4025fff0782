-- ===== src/PlanState/Tests.antt =====
-- A plan of two steps, of which one is done, that waits for a decision.
use fleet_prime_agent.Prelude.{◌≡◌, ◌≤◌, ◌⊎◌, refl, true, false, List, [], ◌∷◌, none, some}
use fleet_prime_agent.PlanState.{
  TodoItem, PlanModeState, Answer, agent, execute, plan_state_from_chat_plan_state,
  to_chat_plan_state, bind_pending_plan_decision_tool_call_id,
}
use fleet_prime_agent.PlanState.Part.{PlanTool, create_plan_tool_part}
use fleet_prime_agent.PlanState.Modes.{select_all, left_by, select_all-left}
use fleet_prime_agent.PlanState.Shown.{
  plan_state-to_chat_plan_state, create_plan_tool_part-status, status_for,
}

abbrev steps : List TodoItem
steps =
    record { step = 1; text = "Read"; completed = true }
    ∷ record { step = 2; text = "Write"; completed = false }
    ∷ []

abbrev waiting : PlanModeState
waiting = record {
  enabled = true;
  executing = false;
  todos = steps;
  pending_decision = true;
  pending_decision_tool_call_id = none;
}

abbrev executes : Answer
executes = record { selected_ids = some ("execute" ∷ []); text = none }

select_all-left_example :
    select_all waiting ((some agent, none) ∷ (none, some execute) ∷ [])
    ≡ left_by steps (none, some execute) false
select_all-left_example = select_all-left waiting ((some agent, none) ∷ []) (none, some execute)

plan_state-to_chat_plan_state_example :
    plan_state_from_chat_plan_state (to_chat_plan_state waiting) "a"
    ≡ bind_pending_plan_decision_tool_call_id waiting "a"
plan_state-to_chat_plan_state_example = plan_state-to_chat_plan_state waiting "a" (λ settled. refl)

create_plan_tool_part-status_example :
    ((steps ≡ []) × (create_plan_tool_part "a" waiting ≡ none))
    ⊎ ((tool : PlanTool) × (create_plan_tool_part "a" waiting ≡ some tool)
        × (tool.status ≡ status_for waiting)
        × (tool.presentation.completed ≤ tool.presentation.total)
        × (tool.presentation.todos ≡ steps))
create_plan_tool_part-status_example = create_plan_tool_part-status "a" waiting
