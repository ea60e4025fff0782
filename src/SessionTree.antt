-- ===== src/SessionTree.antt =====
-- web/server/src/session-tree-mapper.ts: the runtime's session tree, what it shows of an entry, and the
-- branch that ends at the leaf. A text is counted in code points.
pub mod Branch
pub mod Context
pub mod Shown
mod Tests
use fleet_prime_agent.Prelude.{
  ℕ, zero, suc, ◌+◌, String, Bool, true, false, not, ◌&&◌, ◌||◌, List, [], ◌∷◌, ◌++◌, map, Option,
  none, some, ltb, ◌==◌, if◌then◌else◌, or_else, get_or,
}
use mathlib.Core.List.{reverse}
use fleet_prime_agent.Prelude.Text.{◌<>◌, squeeze, trim, first_characters, characters, truthy?}
use fleet_prime_agent.Prelude.Json.{
  Value, Items, Fields, str, arr, nil, cons, field_of, record_of, string_of,
}

-- `UpstreamSessionTreeEntry.message`
pub record Message : Type 0 where
  pub role : Option String
  pub content : Option Value
  pub tool_call_id : Option String
  pub display : Option Bool

-- `UpstreamSessionTreeEntry`
pub record Entry : Type 0 where
  pub id : String
  pub kind : String
  pub parent_id : Option String
  pub label : Option String
  pub first_kept_entry_id : Option String
  pub summary : Option String
  pub custom_type : Option String
  pub display : Option Bool
  pub harness_digest : Option String
  pub message : Option Message

-- `UpstreamSessionTreeNode`
mutual
  pub data Node : Type 0 where
    node : (entry : Entry) (label : Option String) (children : Nodes) → Node

  pub data Nodes : Type 0 where
    no_nodes : Nodes
    more : (first : Node) (others : Nodes) → Nodes

abbrev pub is_text : String → Option String → Bool
is_text s none = false
is_text s (some t) = t == s

part_text : Value → List String
part_text part = elim (record_of (some part)) [
  | none ↦ []
  | some fields ↦
      if is_text "text" (string_of (field_of fields "type"))
      then elim (string_of (field_of fields "text")) [ none ↦ [] | some t ↦ t ∷ [] ]
      else []
]

part_texts : Items → List String
unfolding part_text
part_texts nil = []
part_texts (cons part parts) = part_text part ++ part_texts parts

join_words : List String → String
join_words [] = ""
join_words (word ∷ []) = word
join_words (word ∷ next ∷ words) = word <> " " <> join_words (next ∷ words)

-- `messageContentToText`
pub message_content_to_text : Option Value → String
unfolding part_texts join_words
message_content_to_text (some (str s)) = s
message_content_to_text (some (arr parts)) = join_words (part_texts parts)
message_content_to_text _ = ""

shorten : String → String
shorten one_line =
    if ltb 72 (characters one_line) then first_characters one_line 72 <> "…" else one_line

label_for : Entry → Option String → String
label_for entry label = get_or (or_else entry.label label) entry.kind

message_preview : Message → String
unfolding shorten message_content_to_text
message_preview m =
    get_or m.role "message" <> ": " <> shorten (trim (squeeze (message_content_to_text m.content)))

preview_of : Option Message → Entry → Option String → String
unfolding message_preview label_for
preview_of none entry label = label_for entry label
preview_of (some m) entry label =
    if entry.kind == "message" then message_preview m else label_for entry label

-- `entryPreview`
pub entry_preview : Entry → Option String → String
unfolding preview_of
entry_preview entry label = preview_of entry.message entry label

pub data NodeKind : Type 0 where
  message_kind system_kind other_kind : NodeKind

-- `entryKind`
pub entry_kind : Entry → NodeKind
entry_kind entry =
    if entry.kind == "message"
    then message_kind
    else if entry.kind == "system" || entry.kind == "compaction" || entry.kind == "model_change"
    then system_kind
    else other_kind

pub data NodeRole : Type 0 where
  user_role assistant_role system_role unknown_role : NodeRole

role_named : String → NodeRole
role_named role =
    if role == "user"
    then user_role
    else if role == "assistant"
    then assistant_role
    else if role == "system"
    then system_role
    else unknown_role

role_of : Option String → Option NodeRole
unfolding role_named
role_of none = none
role_of (some role) = some (role_named role)

-- The role of an entry's message, if there is one.
abbrev pub message_role : Option Message → Option String
message_role none = none
message_role (some m) = m.role

-- `entryRole`. An empty role counts as none.
pub entry_role : Entry → Option NodeRole
unfolding role_of
entry_role entry =
    if entry.kind == "message" then role_of (truthy? (message_role entry.message)) else none

-- `walk`: the entries that it pushes, from the leaf to the root, if it finds the leaf.
walk_past : Entry → Bool → Option (List Entry) → Option (List Entry) → Option (List Entry)
walk_past entry true below beside = some (entry ∷ [])
walk_past entry false (some path) beside = some (path ++ entry ∷ [])
walk_past entry false none beside = beside

pub walk : String → Nodes → Option (List Entry)
unfolding walk_past
walk leaf no_nodes = none
walk leaf (more (node entry label children) others) =
    walk_past entry (entry.id == leaf) (walk leaf children) (walk leaf others)

path_of : Option (List Entry) → List Entry
path_of none = []
path_of (some path) = reverse path

branch_to : Nodes → Option String → List Entry
unfolding walk path_of
branch_to nodes none = []
branch_to nodes (some leaf) = path_of (walk leaf nodes)

-- `findActiveBranchEntries`
pub find_active_branch_entries : Nodes → Option String → List Entry
unfolding branch_to
find_active_branch_entries nodes leaf_id = branch_to nodes (truthy? leaf_id)
