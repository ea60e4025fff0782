-- ===== src/EventMapper/Finalize.antt =====
-- web/server/src/event-mapper.ts: the message that a run ends with (finalizeAssistantMessage), from the
-- last assistant message and what was streamed.
use fleet_prime_agent.Prelude.{
  ℕ, suc, String, Bool, true, false, not, ◌&&◌, ◌||◌, List, [], ◌∷◌, ◌++◌, Option, none, some,
  or_else, get_or, if◌then◌else◌, ◌==◌, leb, find, any,
}
use fleet_prime_agent.Prelude.Text.{◌<>◌, decimal, truthy, truthy?}
use fleet_prime_agent.Prelude.NatMap
use fleet_prime_agent.Prelude.NatMap.{NatMap}
use fleet_prime_agent.Chat.{Part, text, tool, ToolPart, ChatMessage, Role}
use fleet_prime_agent.EventMapper.{MapperState, AssistantMessage, plain, blocks, Block}
use fleet_prime_agent.EventMapper.Episodes.{fleet_index_for, claim}
use fleet_prime_agent.EventMapper.Tools.{is_call}
use fleet_prime_agent.EventMapper.Remember.{complete_reasoning, has_index}

-- `[...map].sort(([a], [b]) => a - b)`
insert_sorted : ℕ → String → NatMap String → NatMap String
insert_sorted i t [] = (i, t) ∷ []
insert_sorted i t ((j, u) ∷ rest) =
    if leb i j then (i, t) ∷ (j, u) ∷ rest else (j, u) ∷ insert_sorted i t rest

unfoldable pub sorted : NatMap String → NatMap String
unfolding insert_sorted
sorted [] = []
sorted ((i, t) ∷ rest) = insert_sorted i t (sorted rest)

abbrev pub is_text_part : Part → Bool
is_text_part (text t) = true
is_text_part _ = false

-- A complete reasoning part, unless there is one of this index.
unfoldable pub push_reasoning : ℕ → String → List Part → List Part
unfolding has_index
push_reasoning i t parts =
    if any (has_index i) parts then parts else parts ++ complete_reasoning i t ∷ []

-- The texts of smaller indexes first; the entries are sorted.
push_before : ℕ → NatMap String → List Part → List Part
unfolding push_reasoning
push_before index [] parts = parts
push_before index ((i, t) ∷ rest) parts =
    let more = push_before index rest (push_reasoning i t parts) in
    if leb index i then parts else more

unfoldable pub push_all : NatMap String → List Part → List Part
unfolding push_reasoning
push_all [] parts = parts
push_all ((i, t) ∷ rest) parts = push_all rest (push_reasoning i t parts)

push_text : Option String → ℕ → List Part → List Part
unfolding push_reasoning
push_text none index parts = parts
push_text (some t) index parts = push_reasoning index t parts

-- The state, the parts so far and the calls whose parts are among them.
pub record Building : Type 0 where
  pub state : MapperState
  pub parts : List Part
  pub emitted : List String

unfoldable pub index_as : Option ℕ → MapperState → ℕ → MapperState × ℕ
unfolding fleet_index_for claim
index_as (some index) s i = (s, index)
index_as none s i = let index = fleet_index_for s i in (claim i index s, index)

-- The index of a thinking block of the message, which claims one where the block was not streamed.
unfoldable pub block_index : MapperState → ℕ → MapperState × ℕ
unfolding index_as
block_index s i = index_as (NatMap.get i s.fleet_index) s i

unfoldable pub add_thinking : Building → ℕ → Option String → Building
unfolding block_index push_before push_text sorted
add_thinking b i thought =
    let (s, index) = block_index b.state i in
    record b {
      state = s;
      parts =
          push_text (or_else (NatMap.get index s.reasoning_text) thought) index
            (push_before index (sorted s.reasoning_text) b.parts);
    }

unfoldable pub add_tool : Building → String → Option ToolPart → Building
add_tool b id none = b
add_tool b id (some part) = record b { parts = b.parts ++ tool part ∷ []; emitted = id ∷ b.emitted }

unfoldable pub add_call : Building → Option String → Building
unfolding add_tool is_call
add_call b none = b
add_call b (some id) = add_tool b id (find (is_call id) b.state.tool_parts)

unfoldable pub add_text : Building → String → String → Building
add_text b current t =
    if t == "" || any is_text_part b.parts
    then b
    else record b { parts = b.parts ++ text (if truthy current then current else t) ∷ [] }

unfoldable pub add_block : Building → ℕ → Block → Building
unfolding add_text add_thinking add_call
add_block b i (Block.text (some t)) = add_text b b.state.current_text t
add_block b i (Block.thinking t) = add_thinking b i t
add_block b i (Block.tool_call id name arguments) = add_call b (truthy? id)
add_block b i _ = b

unfoldable pub add_blocks : Building → ℕ → List Block → Building
unfolding add_block
add_blocks b i [] = b
add_blocks b i (block ∷ rest) = add_blocks (add_block b i block) (suc i) rest

unfoldable pub add_content : Building → Option AssistantMessage → Building
unfolding add_blocks
add_content b none = b
add_content b (some message) = elim message.content [ plain s ↦ b | blocks bs ↦ add_blocks b 0 bs ]

holds : String → List String → Bool
holds id ids = any (λ (other : String). other == id) ids

-- The tool parts whose call no block of the message named.
left_tools : List String → List ToolPart → List Part
unfolding holds
left_tools emitted [] = []
left_tools emitted (part ∷ rest) =
    let more = left_tools emitted rest in
    elim (truthy? part.tool_call_id) [
      | none ↦ tool part ∷ more
      | some id ↦ if holds id emitted then more else tool part ∷ more
    ]

add_current : String → List Part → List Part
add_current current parts =
    if truthy current && not (any is_text_part parts) then parts ++ text current ∷ [] else parts

closing_parts : Building → List Part
unfolding left_tools push_all sorted add_current
closing_parts b =
    push_all (sorted b.state.reasoning_text) (add_current b.state.current_text b.parts)
    ++ left_tools b.emitted b.state.tool_parts
    ++ b.state.images
    ++ b.state.errors

-- `finalizeAssistantMessage`
unfoldable pub finalize_assistant_message : MapperState → MapperState × ChatMessage
unfolding add_content closing_parts
finalize_assistant_message s =
    let built = add_content (record { state = s; parts = []; emitted = [] }) s.assistant_message in
    (
      built.state,
      record {
        id = get_or built.state.current_message_id (s.run_id <> "-a" <> decimal s.message_seq);
        role = Role.assistant;
        parts = closing_parts built;
        created_at = none;
        local = false;
        optimistic = false;
        attachments = none;
      },
    )
