-- ===== src/PlanState.antt =====
-- web/app/src/components/chat/plans/plan-state.ts: plan mode in the browser, and the tool part that shows
-- a plan. A `pendingDecision` that is absent is false.
pub mod Part
pub mod Modes
pub mod Shown
mod Tests
use fleet_prime_agent.Prelude.{
  ℕ, zero, ◌+◌, String, Bool, true, false, not, ◌&&◌, ◌||◌, List, [], ◌∷◌, ◌++◌, map, Option, none,
  some, ◌==◌, if◌then◌else◌, ltb, nat_eq, length, filter, any, find, get_or, is_some,
}
use fleet_prime_agent.Prelude.Text.{◌<>◌, truthy, truthy?, or_undefined, trim, decimal}

pub record TodoItem : Type 0 where
  pub step : ℕ
  pub text : String
  pub completed : Bool

pub record PlanModeState : Type 0 where
  pub enabled : Bool
  pub executing : Bool
  pub todos : List TodoItem
  pub pending_decision : Bool
  pub pending_decision_tool_call_id : Option String

pub data ChatMode : Type 0 where
  agent plan_mode harness : ChatMode

pub data ChatPlanAction : Type 0 where
  execute refine : ChatPlanAction

pub record ChatPlanState : Type 0 where
  pub mode : ChatMode
  pub executing : Bool
  pub pending_decision : Bool
  pub completed : ℕ
  pub total : ℕ
  pub todos : List TodoItem
  pub message : Option String

-- The fields of `ChatQuestionAnswer` that are read.
pub record Answer : Type 0 where
  pub selected_ids : Option (List String)
  pub text : Option String

pub record Response : Type 0 where
  pub ok : Bool
  pub message : Option String
  pub mode : Option ChatMode
  pub plan_action : Option ChatPlanAction

unfoldable pub create_empty_plan_state : PlanModeState
create_empty_plan_state = record {
  enabled = false;
  executing = false;
  todos = [];
  pending_decision = false;
  pending_decision_tool_call_id = none;
}

abbrev pub is_open : TodoItem → Bool
is_open todo = not todo.completed

-- The three ends of `applyPlanModeSelection`.
select_execute : PlanModeState → PlanModeState
select_execute state = record state {
  enabled = false;
  executing = any is_open state.todos;
  pending_decision = false;
  pending_decision_tool_call_id = none;
}

select_plan : PlanModeState → PlanModeState
select_plan state = record state {
  enabled = true;
  executing = false;
  pending_decision_tool_call_id = none;
}

select_agent : PlanModeState → PlanModeState
select_agent state = record state {
  enabled = false;
  executing = false;
  pending_decision = false;
  pending_decision_tool_call_id = none;
}

-- `applyPlanModeSelection`
pub apply_plan_mode_selection :
    PlanModeState → Option ChatMode → Option ChatPlanAction → PlanModeState
unfolding select_execute select_plan select_agent
apply_plan_mode_selection state mode (some execute) = select_execute state
apply_plan_mode_selection state mode (some refine) = select_plan state
apply_plan_mode_selection state (some plan_mode) none = select_plan state
apply_plan_mode_selection state _ none = select_agent state

abbrev plan_decision_tool_prefix : String
plan_decision_tool_prefix = "plan-mode-decision"

pub tool_call_id_for : String → String
tool_call_id_for assistant_id = plan_decision_tool_prefix <> "-" <> assistant_id

is_plan : ChatMode → Bool
is_plan plan_mode = true
is_plan _ = false

-- `planStateFromChatPlanState`
pub plan_state_from_chat_plan_state : ChatPlanState → String → PlanModeState
unfolding is_plan
plan_state_from_chat_plan_state state assistant_id = record {
  enabled = is_plan state.mode;
  executing = state.executing;
  todos = state.todos;
  pending_decision = state.pending_decision;
  pending_decision_tool_call_id =
      if state.pending_decision then some (tool_call_id_for assistant_id) else none;
}

pub completed_in : List TodoItem → ℕ
completed_in todos = length (filter (λ todo. todo.completed) todos)

chat_message : PlanModeState → Option String
unfolding completed_in
chat_message state =
    if state.executing
    then (if ltb 0 (length state.todos)
        then some (
            "Plan progress "
            <> decimal (completed_in state.todos)
            <> "/"
            <> decimal (length state.todos))
        else some "Executing plan")
    else if state.pending_decision
    then some "Plan ready for review"
    else if state.enabled
    then some "Plan mode"
    else none

-- `toChatPlanState`
pub to_chat_plan_state : PlanModeState → ChatPlanState
unfolding completed_in chat_message
to_chat_plan_state state = record {
  mode = if state.enabled then plan_mode else agent;
  executing = state.executing;
  pending_decision = state.pending_decision;
  completed = completed_in state.todos;
  total = length state.todos;
  todos = state.todos;
  message = chat_message state;
}

same_id : Option String → String → Bool
same_id none id = false
same_id (some a) id = a == id

bind_as : Bool → Bool → PlanModeState → String → PlanModeState
bind_as false same state id = state
bind_as true true state id = state
bind_as true false state id = record state { pending_decision_tool_call_id = some id }

-- `bindPendingPlanDecisionToolCallId`
pub bind_pending_plan_decision_tool_call_id : PlanModeState → String → PlanModeState
unfolding bind_as same_id
bind_pending_plan_decision_tool_call_id state assistant_id =
    bind_as state.pending_decision
      (same_id state.pending_decision_tool_call_id (tool_call_id_for assistant_id)) state
      (tool_call_id_for assistant_id)

pub first_id : Option (List String) → Option String
first_id (some (id ∷ ids)) = some id
first_id _ = none

pub trimmed : Option String → Option String
trimmed none = none
trimmed (some t) = or_undefined (trim t)

start_with : Option TodoItem → String
start_with none = "Execute the plan you just created."
start_with (some first) = "Execute the plan. Start with: " <> first.text

abbrev pub is_id : String → Option String → Bool
is_id id none = false
is_id id (some selected) = selected == id

pub resolved : PlanModeState → Bool → Bool → PlanModeState
resolved state enabled executing = record state {
  enabled = enabled;
  executing = executing;
  pending_decision = false;
  pending_decision_tool_call_id = none;
}

resolve_as : PlanModeState → Option String → Option String → PlanModeState × Response
unfolding resolved start_with
resolve_as state selected words =
    if is_id "execute" selected
    then (
      resolved state false (any is_open state.todos),
      record {
        ok = true;
        message = some (start_with (find is_open state.todos));
        mode = some agent;
        plan_action = some execute;
      },
    )
    else if is_id "refine" selected || not (is_some (truthy? selected)) && is_some words
    then (
      resolved state true false,
      record {
        ok = true;
        message = some (get_or words "Refine the plan.");
        mode = some plan_mode;
        plan_action = some refine;
      },
    )
    else (
      resolved state true false,
      record { ok = true; message = none; mode = none; plan_action = none },
    )

-- `resolvePlanDecision`
pub resolve_plan_decision : PlanModeState → Answer → PlanModeState × Response
unfolding resolve_as first_id trimmed
resolve_plan_decision state answer =
    resolve_as state (first_id answer.selected_ids) (trimmed answer.text)
