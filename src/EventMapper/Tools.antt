-- ===== src/EventMapper/Tools.antt =====
-- web/server/src/event-mapper.ts: the tool parts of a run, by the events of a tool's execution.
use fleet_prime_agent.Prelude.{
  String, Bool, true, false, List, [], ◌∷◌, ◌++◌, Option, none, some, or_else, if◌then◌else◌, ◌==◌,
  find,
}
use fleet_prime_agent.Prelude.Text.{truthy?}
use fleet_prime_agent.Prelude.Dict.{lookup, insert, delete}
use fleet_prime_agent.Prelude.Json.{Value}
use fleet_prime_agent.Chat.{ToolPart}
use fleet_prime_agent.EventMapper.{
  MapperState, AssistantMessage, plain, blocks, Block, tool_call, ToolCallStart, Identity, Hydrator,
}
use fleet_prime_agent.EventMapper.ToolResults.{
  is_text, is_tool_result_error, extract_tool_error_text, extract_tool_background_output,
  duration_of,
}

named_in : String → List Block → Option String
named_in id [] = none
named_in id (tool_call call name args ∷ rest) =
    if is_text call id then or_else name (named_in id rest) else named_in id rest
named_in id (_ ∷ rest) = named_in id rest

named_in_message : String → Option AssistantMessage → Option String
unfolding named_in
named_in_message id none = none
named_in_message id (some message) = elim message.content [
  | plain s ↦ none
  | blocks bs ↦ named_in id bs
]

start_name : Option ToolCallStart → Option String
start_name none = none
start_name (some start) = truthy? (some start.tool_name)

-- `toolNamesByCallId.set` for a name that was found.
unfoldable pub learn : String → Option String → MapperState → MapperState × Option String
learn id none s = (s, none)
learn id (some name) s = (record s { tool_names = insert id name s.tool_names }, some name)

unfoldable pub name_or : Option String → MapperState → String → MapperState × Option String
unfolding learn start_name named_in_message
name_or (some known) s id = (s, some known)
name_or none s id =
    learn id
      (or_else (start_name (lookup id s.tool_call_starts))
        (named_in_message id s.assistant_message))
      s

-- `toolNameForEvent`, with the name that the event carries.
unfoldable pub tool_name_for_event :
    MapperState → String → Option String → MapperState × Option String
unfolding name_or
tool_name_for_event s id none = name_or (truthy? (lookup id s.tool_names)) s id
tool_name_for_event s id (some name) =
    if name == "" then name_or (truthy? (lookup id s.tool_names)) s id else learn id (some name) s

-- A part that is written over another one. `output` and `result` are keys of it or not.
pub record Patch : Type 0 where
  pub part : ToolPart
  pub has_output : Bool
  pub has_result : Bool

-- `{ ...existing, ...nextPart, ...(existing.input !== undefined ? { input: existing.input } : {}) }`
merge : Patch → ToolPart → ToolPart
merge patch existing = record {
  name = patch.part.name;
  category = patch.part.category;
  tool_name = patch.part.tool_name;
  server_name = patch.part.server_name;
  tool_call_id = patch.part.tool_call_id;
  state = patch.part.state;
  input = or_else existing.input patch.part.input;
  args = or_else patch.part.args existing.args;
  id = or_else patch.part.id existing.id;
  output = if patch.has_output then patch.part.output else existing.output;
  result = if patch.has_result then patch.part.result else existing.result;
  background_output = or_else patch.part.background_output existing.background_output;
  duration_ms = or_else patch.part.duration_ms existing.duration_ms;
  error = or_else patch.part.error existing.error;
}

unfoldable pub is_call : String → ToolPart → Bool
is_call id part = is_text part.tool_call_id id

-- The parts with the patch written over the first of the call, or behind them.
put_part : String → Patch → List ToolPart → List ToolPart
unfolding merge is_call
put_part id patch [] = patch.part ∷ []
put_part id patch (part ∷ rest) =
    if is_call id part then merge patch part ∷ rest else part ∷ put_part id patch rest

-- What the part of the call is after the patch.
part_after : Option ToolPart → Patch → ToolPart
unfolding merge
part_after none patch = patch.part
part_after (some existing) patch = merge patch existing

unfoldable pub upsert_as : Option String → MapperState → Patch → MapperState × ToolPart
unfolding put_part part_after is_call
upsert_as none s patch = (record s { tool_parts = s.tool_parts ++ patch.part ∷ [] }, patch.part)
upsert_as (some id) s patch = (
  record s { tool_parts = put_part id patch s.tool_parts },
  part_after (find (is_call id) s.tool_parts) patch,
)

-- `upsertCurrentToolPart`
unfoldable pub upsert_current_tool_part : MapperState → Patch → MapperState × ToolPart
unfolding upsert_as
upsert_current_tool_part s patch = upsert_as (truthy? patch.part.tool_call_id) s patch

-- The identity that the part of the call has, or that of an unknown tool.
existing_identity : Hydrator → Option ToolPart → Identity
existing_identity h none = h.identify "unknown_tool"
existing_identity h (some part) = record {
  name = part.name;
  category = part.category;
  tool_name = part.tool_name;
  server_name = part.server_name;
}

abbrev tool_of : Option ToolCallStart → Option String
tool_of none = none
tool_of (some start) = some start.tool_name

identity_as : Hydrator → Option String → Option ToolPart → Identity
unfolding existing_identity
identity_as h none part = existing_identity h part
identity_as h (some raw) part = h.identify raw

-- `resolveToolIdentity`
unfoldable pub resolve_tool_identity : Hydrator → MapperState → String → Option String → Identity
unfolding identity_as is_call
resolve_tool_identity h s id name =
    identity_as h (or_else (truthy? name) (tool_of (lookup id s.tool_call_starts)))
      (find (is_call id) s.tool_parts)

-- The part that a frame of a tool's execution brings.
execution_part : Identity → String → String → Option Value → Option Value → Option Value → ToolPart
execution_part identity id state input output result = record {
  name = identity.name;
  category = identity.category;
  tool_name = identity.tool_name;
  server_name = identity.server_name;
  tool_call_id = some id;
  state = some state;
  input = input;
  args = none;
  id = none;
  output = output;
  result = result;
  background_output = extract_tool_background_output result;
  duration_ms = none;
  error = none;
}

args_of : Option ToolCallStart → Option Value
args_of none = none
args_of (some start) = start.args

-- A start with a name is kept for the frames that leave the name out.
unfoldable pub keep_start : String → Option String → Option Value → MapperState → MapperState
keep_start id none args s = s
keep_start id (some name) args s = record s {
  tool_call_starts = insert id (record { tool_name = name; args = args }) s.tool_call_starts;
}

-- `tool_execution_start`, from where the open episodes are closed
unfoldable pub on_execution_start :
    Hydrator → MapperState → String → Option String → Option Value → MapperState × ToolPart
unfolding keep_start execution_part
on_execution_start h s id name args =
    let (s', known) = tool_name_for_event (keep_start id (truthy? name) args s) id name in
    let part =
      execution_part (resolve_tool_identity h s' id known) id "input-streaming" args none none in
    upsert_current_tool_part s' (record { part = part; has_output = false; has_result = false })

-- `tool_execution_update`
unfoldable pub on_execution_update :
    Hydrator
    → MapperState
    → String
    → Option String
    → Option Value
    → Option Value
    → MapperState × ToolPart
unfolding execution_part args_of
on_execution_update h s id name args partial =
    let (s', known) = tool_name_for_event s id name in
    let input = or_else args (args_of (lookup id s'.tool_call_starts)) in
    let part =
      execution_part (resolve_tool_identity h s' id known) id "input-streaming" input none
        partial in
    upsert_current_tool_part s' (record { part = part; has_output = false; has_result = true })

-- The envelope of a failure with a text.
failure_envelope : Hydrator → Bool → Option Value → Option Value
unfolding extract_tool_error_text
failure_envelope h false result = none
failure_envelope h true result = elim (truthy? (some (extract_tool_error_text result))) [
  | none ↦ none
  | some message ↦ some (h.error_envelope message)
]

unfoldable pub forget_call : String → MapperState → MapperState
forget_call id s = record s {
  tool_call_starts = delete id s.tool_call_starts;
  tool_names = delete id s.tool_names;
}

-- `tool_execution_end`
unfoldable pub on_execution_end :
    Hydrator
    → MapperState
    → String
    → Option String
    → Option Value
    → Option Value
    → MapperState × ToolPart
unfolding execution_part args_of forget_call failure_envelope duration_of
on_execution_end h s id name is_error result =
    let (s', known) = tool_name_for_event s id name in
    let input = args_of (lookup id s'.tool_call_starts) in
    let is_failure = is_tool_result_error is_error result in
    let state = if is_failure then "output-error" else "output-available" in
    let part = execution_part (resolve_tool_identity h s' id known) id state input result result in
    upsert_current_tool_part (forget_call id s') (record {
      part = record part {
        duration_ms = duration_of result;
        error = failure_envelope h is_failure result;
      };
      has_output = true;
      has_result = true;
    })
