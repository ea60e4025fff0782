-- ===== src/SessionTree/Context.antt =====
-- `buildMessageIndexByEntryId` of web/server/src/session-tree-mapper.ts: the entries of the active branch
-- that the transcript shows, and the index of the message that each one belongs to.
pub mod Indexed
use fleet_prime_agent.Prelude.{
  ℕ, zero, suc, ◌+◌, String, Bool, true, false, not, ◌&&◌, ◌||◌, List, [], ◌∷◌, ◌++◌, Option, none,
  some, ltb, ◌==◌, if◌then◌else◌, or_else, get_or, is_some, filter, take, drop, get_elem?,
}
use fleet_prime_agent.Prelude.Text.{truthy, truthy?}
use fleet_prime_agent.Prelude.Dict.{Dict, lookup, insert}
use fleet_prime_agent.Prelude.Json.{Value, Items, arr, nil, cons, field_of, record_of, string_of}
use fleet_prime_agent.SessionTree.{Message, Entry, is_text, message_role}

nonempty_id : Option String → List String
nonempty_id none = []
nonempty_id (some id) = if truthy id then id ∷ [] else []

call_id : Value → List String
unfolding nonempty_id
call_id block = elim (record_of (some block)) [
  | none ↦ []
  | some fields ↦
      if is_text "toolCall" (string_of (field_of fields "type"))
      then nonempty_id (string_of (field_of fields "id"))
      else []
]

call_ids : Items → List String
unfolding call_id
call_ids nil = []
call_ids (cons block blocks) = call_id block ++ call_ids blocks

-- `assistantToolCallIds`
pub assistant_tool_call_ids : Option Value → List String
unfolding call_ids
assistant_tool_call_ids (some (arr blocks)) = call_ids blocks
assistant_tool_call_ids _ = []

pub is_compaction : Entry → Bool
is_compaction e = e.kind == "compaction"

pub is_digest : Entry → Bool
is_digest e = e.kind == "custom_message" && is_text "harness_digest" e.custom_type

last_of : Bool → Option ℕ → Option ℕ
last_of here (some i) = some (suc i)
last_of true none = some 0
last_of false none = none

-- The last index that passes.
pub last_where : (Entry → Bool) → List Entry → Option ℕ
unfolding last_of
last_where p [] = none
last_where p (e ∷ entries) = last_of (p e) (last_where p entries)

id_at : List Entry → Option ℕ → Option String
id_at entries none = none
id_at entries (some i) = elim (get_elem? entries i) [ none ↦ none | some e ↦ some e.id ]

-- `newestDigestIdx === -1 || newestDigestIdx < compactionIdx`
is_before : Option ℕ → ℕ → Bool
is_before none i = true
is_before (some j) i = ltb j i

-- `snapshotOutranksDigest ? undefined : newestDigestEntryId`
kept_digest : List Entry → Option Entry → ℕ → Option String
unfolding id_at last_where is_before is_digest
kept_digest entries none at = id_at entries (last_where is_digest entries)
kept_digest entries (some compaction) at =
    if is_some compaction.harness_digest && is_before (last_where is_digest entries) at
    then none
    else id_at entries (last_where is_digest entries)

-- `isContextEntry`
pub is_context_entry : Option String → Entry → Bool
unfolding is_digest
is_context_entry kept e =
    if e.kind == "message"
    then true
    else if e.kind == "custom_message"
    then not (is_digest e && not (is_text e.id kept))
    else if e.kind == "branch_summary"
    then is_some (truthy? e.summary)
    else false

-- The entries from the one with the id on.
from_id : Option String → List Entry → List Entry
from_id id [] = []
from_id id (e ∷ entries) = if is_text e.id id then e ∷ entries else from_id id entries

context_of : List Entry → ℕ → Option Entry → List Entry
unfolding kept_digest is_context_entry from_id
context_of entries at none = filter (is_context_entry (kept_digest entries none at)) entries
context_of entries at (some compaction) =
    let kept : Option String = kept_digest entries (some compaction) at in
    compaction
      ∷ filter (is_context_entry kept) (from_id compaction.first_kept_entry_id (take at entries))
    ++ filter (is_context_entry kept) (drop (at + 1) entries)

context_after : List Entry → Option ℕ → List Entry
unfolding context_of
context_after entries none = context_of entries 0 none
context_after entries (some at) = context_of entries at (get_elem? entries at)

-- `contextEntries`
pub context_entries : List Entry → List Entry
unfolding context_after last_where is_compaction
context_entries entries = context_after entries (last_where is_compaction entries)

is_false : Option Bool → Bool
is_false none = false
is_false (some b) = not b

message_display : Option Message → Option Bool
message_display none = none
message_display (some m) = m.display

-- An entry that the transcript does not show.
pub is_hidden : Entry → Bool
unfolding is_false message_display
is_hidden e =
    (e.kind == "custom_message" && is_false e.display)
    || (e.kind == "message"
        && is_text "custom" (message_role e.message)
        && is_false (message_display e.message))

pub is_assistant_entry : Entry → Bool
is_assistant_entry e = e.kind == "message" && is_text "assistant" (message_role e.message)

pub is_tool_result : Entry → Bool
is_tool_result e = e.kind == "message" && is_text "toolResult" (message_role e.message)

content_of : Option Message → Option Value
content_of none = none
content_of (some m) = m.content

pub calls_of : Entry → List String
unfolding content_of assistant_tool_call_ids
calls_of e = assistant_tool_call_ids (content_of e.message)

call_of : Option Message → Option String
call_of none = none
call_of (some m) = m.tool_call_id

-- An empty call id counts as none.
pub result_call : Entry → Option String
unfolding call_of
result_call e = truthy? (call_of e.message)

pub own_all : List String → ℕ → Dict ℕ → Dict ℕ
own_all [] i owners = owners
own_all (call ∷ calls) i owners = own_all calls i (insert call i owners)

owner_of : Option String → Dict ℕ → Option ℕ
owner_of none owners = none
owner_of (some call) owners = lookup call owners

-- `toolCallOwnerIndex` and `messageIndexByEntryId`
abbrev pub Tables : Type 0
Tables = Dict ℕ × Dict ℕ

-- The body of the loop over the context entries.
pub note_entry : ℕ → Tables → Entry → Tables
unfolding owner_of is_hidden is_assistant_entry is_tool_result calls_of result_call own_all
note_entry i (owners, index) e =
    if is_hidden e
    then (owners, index)
    else if is_assistant_entry e
    then (own_all (calls_of e) i owners, insert e.id i index)
    else if is_tool_result e
    then (owners, insert e.id (get_or (owner_of (result_call e) owners) i) index)
    else (owners, insert e.id i index)

-- The loop, from the index `i` on.
pub note_from : ℕ → Tables → List Entry → Tables
unfolding note_entry
note_from i tables [] = tables
note_from i tables (e ∷ entries) = note_from (i + 1) (note_entry i tables e) entries

-- `buildMessageIndexByEntryId`
unfoldable pub build_message_index_by_entry_id : List Entry → Dict ℕ
unfolding note_from context_entries
build_message_index_by_entry_id entries = (note_from 0 ([], []) (context_entries entries)).1
