-- ===== src/Chat/Merge.antt =====
-- How web/app/src/components/chat/chat-stream-state.ts merges the parts that a turn streamed with the
-- parts of its final message: `hasUnmatchedCarriedPart` and `mergeStreamedPartsOntoTerminal`. A `Set` of
-- indices is a list of numbers, and the maps keyed by an index are association lists.
pub mod Conservation
pub mod Woven
use fleet_prime_agent.Prelude.{
  ℕ, suc, ◌+◌, String, Bool, true, false, not, ◌&&◌, ◌||◌, List, [], ◌∷◌, ◌++◌, Option, none, some,
  nat_eq, ◌==◌, if◌then◌else◌, length, any, or_else, get_or,
}
use mathlib.Core.List.{reverse}
use fleet_prime_agent.Prelude.Text.{is_blank}
use fleet_prime_agent.Chat.{
  Part, text, reasoning, error, image, payload, tool, ReasoningPart, complete, ToolPart,
}
use fleet_prime_agent.Chat.Parts.{is_text_part, same_text?, payloads_match}

abbrev pub consumed? : ℕ → List ℕ → Bool
consumed? i = any (λ j. nat_eq j i)

-- `findIndex` over the terminal parts that are not consumed; `i` counts from the front.
pub take_from : ℕ → List ℕ → (Part → Bool) → List Part → Option ℕ
take_from i consumed matches [] = none
take_from i consumed matches (part ∷ parts) =
    if not (consumed? i consumed) && matches part
    then some i
    else take_from (i + 1) consumed matches parts

is_reasoning_of : ReasoningPart → Part → Bool
is_reasoning_of r (reasoning q) = nat_eq q.content_index r.content_index
is_reasoning_of r _ = false

matches_payload : Part → Part → Bool
matches_payload (payload left) (payload right) = payloads_match left right
matches_payload _ _ = false

is_fleet_reasoning : Part → Bool
is_fleet_reasoning (tool t) = t.name == "FleetReasoning"
is_fleet_reasoning _ = false

is_tool_of : ToolPart → Part → Bool
is_tool_of part (tool candidate) =
    same_text? candidate.tool_call_id part.tool_call_id && candidate.name == part.name
is_tool_of part _ = false

-- The parts that `hasUnmatchedCarriedPart` looks for, and what each may match.
carried : Part → Option (Part → Bool)
unfolding is_reasoning_of matches_payload is_fleet_reasoning
carried (reasoning r) = some (is_reasoning_of r)
carried (payload p) = some (matches_payload (payload p))
carried (tool t) = if t.name == "FleetReasoning" then some is_fleet_reasoning else none
carried _ = none

unmatched_from : List Part → List ℕ → List Part → Bool
unfolding carried take_from
unmatched_from [] consumed terminal = false
unmatched_from (part ∷ donor) consumed terminal = elim (carried part) [
  | none ↦ unmatched_from donor consumed terminal
  | some matches ↦ elim (take_from 0 consumed matches terminal) [
    | none ↦ true
    | some i ↦ unmatched_from donor (i ∷ consumed) terminal
  ]
]

-- `hasUnmatchedCarriedPart`
unfoldable pub has_unmatched_carried_part : List Part → List Part → Bool
unfolding unmatched_from
has_unmatched_carried_part donor terminal = unmatched_from donor [] terminal

-- What a streamed part may match in the terminal: the tests of the first loop of
-- `mergeStreamedPartsOntoTerminal`.
pub partner : Part → Option (Part → Bool)
unfolding is_reasoning_of matches_payload is_fleet_reasoning is_tool_of
partner (reasoning r) = some (is_reasoning_of r)
partner (payload p) = some (matches_payload (payload p))
partner (tool t) =
    if t.name == "FleetReasoning" then some is_fleet_reasoning else some (is_tool_of t)
partner (text t) = some is_text_part
partner _ = none

find_partner : Part → List ℕ → List Part → Option ℕ
unfolding partner take_from
find_partner part consumed terminal = elim (partner part) [
  | none ↦ none
  | some matches ↦ take_from 0 consumed matches terminal
]

abbrev pub consume : Option ℕ → List ℕ → List ℕ
consume none consumed = consumed
consume (some i) consumed = i ∷ consumed

-- The first loop: each streamed part with the index of its terminal part, if it has one.
pub pair_up : List Part → List ℕ → List Part → List (Part × Option ℕ)
unfolding find_partner
pair_up [] consumed terminal = []
pair_up (part ∷ streamed) consumed terminal =
    let index = find_partner part consumed terminal in
    (part, index) ∷ pair_up streamed (consume index consumed) terminal

-- `insertions`: the parts to insert before each terminal index, last one first.
abbrev pub Insertions : Type 0
Insertions = List (ℕ × List Part)

pub parts_at : ℕ → Insertions → List Part
parts_at i [] = []
parts_at i ((j, parts) ∷ rest) = if nat_eq j i then parts else parts_at i rest

pub push_at : ℕ → Part → Insertions → Insertions
push_at i part [] = (i, part ∷ []) ∷ []
push_at i part ((j, parts) ∷ rest) =
    if nat_eq j i then (j, parts ++ part ∷ []) ∷ rest else (j, parts) ∷ push_at i part rest

-- A text part of white space is not carried over.
pub is_blank_text : Part → Bool
is_blank_text (text t) = is_blank t
is_blank_text _ = false

settled_part : Part → Part
settled_part (reasoning r) = reasoning (record r { state = complete })
settled_part part = part

-- The second loop, from the last streamed part to the first: the index of the next terminal part, and
-- the insertions.
anchored : Option ℕ → ℕ → Part → Insertions → Insertions
unfolding push_at settled_part
anchored next size part insertions =
    if is_blank_text part
    then insertions
    else push_at (get_or next size) (settled_part part) insertions

pub anchor : ℕ → Part × Option ℕ → Option ℕ × Insertions → Option ℕ × Insertions
unfolding anchored is_blank_text
anchor size (part, some i) (next, insertions) = (some i, insertions)
anchor size (part, none) (next, insertions) = (next, anchored next size part insertions)

pub anchor_all : ℕ → List (Part × Option ℕ) → Option ℕ × Insertions
anchor_all size [] = (none, [])
anchor_all size (pair ∷ pairs) = anchor size pair (anchor_all size pairs)

-- `terminalToStreamed.get(index)`
pub streamed_at : ℕ → List (Part × Option ℕ) → Option Part
streamed_at i [] = none
streamed_at i ((part, none) ∷ pairs) = streamed_at i pairs
streamed_at i ((part, some j) ∷ pairs) = if nat_eq j i then some part else streamed_at i pairs

-- The terminal part as it is kept, beside the streamed part that it took over.
pub kept_part : Part → Option Part → Part
kept_part (reasoning r) (some (reasoning q)) = reasoning (record r { state = complete })
kept_part (text t) (some (text s)) =
    if not (is_blank t) then text t else if not (is_blank s) then text s else text t
kept_part part streamed = part

-- The third loop.
pub emit : ℕ → List (Part × Option ℕ) → Insertions → List Part → List Part
emit i pairs insertions [] = reverse (parts_at i insertions)
emit i pairs insertions (part ∷ terminal) =
    reverse (parts_at i insertions)
    ++ kept_part part (streamed_at i pairs) ∷ emit (i + 1) pairs insertions terminal

-- `mergeStreamedPartsOntoTerminal`
unfoldable pub merge_streamed_parts_onto_terminal : List Part → List Part → List Part
unfolding pair_up anchor_all anchor emit parts_at streamed_at kept_part
merge_streamed_parts_onto_terminal streamed terminal =
    let pairs : List (Part × Option ℕ) = pair_up streamed [] terminal in
    emit 0 pairs (anchor_all (length terminal) pairs).1 terminal
