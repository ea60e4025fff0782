-- ===== src/PlanState/Part.antt =====
-- The part of a message that shows a plan: `formatPlanSummary` and `createPlanToolPart` of
-- web/app/src/components/chat/plans/plan-state.ts.
use fleet_prime_agent.Prelude.{
  String, Bool, true, false, ◌&&◌, List, [], ◌∷◌, ◌++◌, map, Option, none, some, if◌then◌else◌, ltb,
  nat_eq, length, get_or,
}
use fleet_prime_agent.Prelude.Text.{◌<>◌, decimal}
use fleet_prime_agent.PlanState.{
  TodoItem, PlanModeState, ChatPlanState, completed_in, to_chat_plan_state, tool_call_id_for,
  plan_state_from_chat_plan_state,
}

-- `lines.join("\n")`
join_lines : List String → String
join_lines [] = ""
join_lines (line ∷ []) = line
join_lines (line ∷ next ∷ lines) = line <> "\n" <> join_lines (next ∷ lines)

todo_line : TodoItem → String
todo_line todo =
    (if todo.completed then "- [x]" else "- [ ]") <> " " <> decimal todo.step <> ". " <> todo.text

summary_end : PlanModeState → List String
unfolding completed_in
summary_end state =
    if state.pending_decision
    then "" ∷ "Review the steps, then execute, stay in plan mode, or refine." ∷ []
    else if state.executing
    then ""
      ∷ ("Progress: "
          <> decimal (completed_in state.todos)
          <> "/"
          <> decimal (length state.todos)
          <> " completed.")
      ∷ []
    else if ltb 0 (length state.todos) && nat_eq (completed_in state.todos) (length state.todos)
    then "" ∷ "All plan steps are complete." ∷ []
    else []

format_plan_summary : PlanModeState → String
unfolding join_lines todo_line summary_end
format_plan_summary state = join_lines (map todo_line state.todos ++ summary_end state)

pub data Status : Type 0 where
  awaiting_approval finished approved : Status

-- The `tool-PlanWrite` part: `creates` where the action is `"create"` and not `"update"`.
pub record PlanTool : Type 0 where
  pub tool_call_id : String
  pub creates : Bool
  pub pending_decision : Bool
  pub executing : Bool
  pub presentation : ChatPlanState
  pub id : String
  pub title : String
  pub summary : String
  pub status : Status

unfoldable pub status_of : Bool → ChatPlanState → Status
status_of true shown = awaiting_approval
status_of false shown =
    if ltb 0 shown.total && nat_eq shown.completed shown.total then finished else approved

unfoldable pub plan_tool : String → PlanModeState → PlanTool
unfolding to_chat_plan_state status_of format_plan_summary
plan_tool assistant_id state = record {
  tool_call_id = get_or state.pending_decision_tool_call_id (tool_call_id_for assistant_id);
  creates = state.pending_decision;
  pending_decision = state.pending_decision;
  executing = state.executing;
  presentation = to_chat_plan_state state;
  id = assistant_id;
  title = if state.executing then "Executing plan" else "Execution plan";
  summary = format_plan_summary state;
  status = status_of state.pending_decision (to_chat_plan_state state);
}

-- `createPlanToolPart`
unfoldable pub create_plan_tool_part : String → PlanModeState → Option PlanTool
unfolding plan_tool
create_plan_tool_part assistant_id state =
    if nat_eq (length state.todos) 0 then none else some (plan_tool assistant_id state)

-- `createPlanToolPartFromChatPlanState`
unfoldable pub create_plan_tool_part_from_chat_plan_state : String → ChatPlanState → Option PlanTool
unfolding create_plan_tool_part plan_state_from_chat_plan_state
create_plan_tool_part_from_chat_plan_state assistant_id state =
    create_plan_tool_part assistant_id (plan_state_from_chat_plan_state state assistant_id)
