-- ===== src/PlanState/Modes.antt =====
-- What a selection and a decision leave of plan mode.
use fleet_prime_agent.Prelude.{
  List, [], ◌∷◌, ◌++◌, all, ap, sym, ◌∙◌, or_else, if◌then◌else◌, ◌==◌, String, ◌≡◌, refl, Bool,
  true, false, not, ◌&&◌, ◌||◌, Option, none, some, any, is_some,
}
use fleet_prime_agent.PlanState.{
  PlanModeState, TodoItem, ChatMode, agent, plan_mode, harness, ChatPlanAction, execute, refine,
  Response, is_open, select_execute, select_plan, select_agent, apply_plan_mode_selection,
}

-- What holds after a step from `state`: the same steps, no tool call bound, plan mode and execution
-- never at once, and execution only while a step is open.
abbrev pub IsOrderly : PlanModeState → PlanModeState → Type 0
IsOrderly state next =
    (next.todos ≡ state.todos)
    × (next.pending_decision_tool_call_id ≡ none)
    × ((next.enabled && next.executing) ≡ false)
    × ((next.executing && not (any is_open next.todos)) ≡ false)

-- What a selection asks for: an action, before a mode.
abbrev pub asks_execution : Option ChatPlanAction → Bool
asks_execution (some execute) = true
asks_execution _ = false

abbrev pub asks_plan : Option ChatMode → Option ChatPlanAction → Bool
asks_plan mode (some execute) = false
asks_plan mode (some refine) = true
asks_plan (some plan_mode) none = true
asks_plan _ none = false

abbrev pub Selection : Type 0
Selection = Option ChatMode × Option ChatPlanAction

abbrev pub select_all : PlanModeState → List Selection → PlanModeState
select_all state [] = state
select_all state ((mode, action) ∷ selections) =
    select_all (apply_plan_mode_selection state mode action) selections

-- The state that the last selection leaves, where a decision is pending or not.
abbrev pub left_by : List TodoItem → Selection → Bool → PlanModeState
left_by todos (mode, action) pending = record {
  enabled = asks_plan mode action;
  executing = asks_execution action && any is_open todos;
  todos = todos;
  pending_decision = pending && asks_plan mode action;
  pending_decision_tool_call_id = none;
}

and-false : (b : Bool) → (b && false) ≡ false
and-false true = refl
and-false false = refl

and-true : (b : Bool) → (b && true) ≡ b
and-true true = refl
and-true false = refl

and_assoc : (a b c : Bool) → ((a && b) && c) ≡ (a && (b && c))
and_assoc true b c = refl
and_assoc false b c = refl

selection-left :
    (state : PlanModeState) (mode : Option ChatMode) (action : Option ChatPlanAction)
    → apply_plan_mode_selection state mode action
      ≡ left_by state.todos (mode, action) state.pending_decision
unfolding apply_plan_mode_selection select_execute select_plan select_agent
selection-left state mode (some execute) = rw and-false refl
selection-left state mode (some refine) = rw and-true refl
selection-left state (some plan_mode) none = rw and-true refl
selection-left state (some agent) none = rw and-false refl
selection-left state (some harness) none = rw and-false refl
selection-left state none none = rw and-false refl

-- Whatever the state was and however many selections follow, the last one decides whether plan mode is on
-- and whether the plan is executed, which takes an open step; the steps stay, no tool call is bound, and a
-- decision is pending only if one was and every selection asked for plan mode.
pub select_all-left :
    (state : PlanModeState) (selections : List Selection) (last : Selection)
    → select_all state (selections ++ last ∷ [])
      ≡ left_by state.todos last (state.pending_decision && all (λ s. asks_plan s.0 s.1) selections)
select_all-left state [] (mode, action) =
    selection-left state mode action
    ∙ ap (left_by state.todos (mode, action)) (sym (and-true state.pending_decision))
select_all-left state ((mode, action) ∷ selections) last =
    ap (λ left. select_all left (selections ++ last ∷ [])) (selection-left state mode action)
    ∙ (select_all-left (left_by state.todos (mode, action) state.pending_decision) selections last
        ∙ ap (left_by state.todos last) (
            and_assoc state.pending_decision (asks_plan mode action)
              (all (λ s. asks_plan s.0 s.1) selections)))

-- The action that an answer asks for: the first option that is selected, or refining where none is and
-- some words are given.
abbrev pub asked : Option String → Option String → Option ChatPlanAction
asked (some id) words =
    if id == "execute"
    then some execute
    else if id == "refine" || (id == "" && is_some words)
    then some refine
    else none
asked none words = if is_some words then some refine else none

-- What a decision leaves: the state that selecting the response's mode and action leaves of the state decided
-- on, once the decision is pending no more. A response that names no mode leaves plan mode on.
abbrev pub Settles : PlanModeState → Option ChatPlanAction → PlanModeState × Response → Type 0
Settles state action (next, response) =
    (response.plan_action ≡ action)
    × (next
        ≡ apply_plan_mode_selection (record state { pending_decision = false })
            (or_else response.mode (some plan_mode)) response.plan_action)
    × IsOrderly state next
