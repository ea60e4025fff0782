-- ===== src/SessionTree/Shown.antt =====
-- `mapSessionTreeSnapshot` and `messageIdForSessionTreeEntry` of web/server/src/session-tree-mapper.ts.
pub mod Lookup
use fleet_prime_agent.Prelude.{
  ℕ, String, Bool, true, false, List, [], ◌∷◌, map, Option, none, some, ◌==◌, if◌then◌else◌,
  or_else, any, is_some,
}
use fleet_prime_agent.Prelude.Text.{◌<>◌, truthy?, decimal}
use fleet_prime_agent.Prelude.Dict.{Dict, lookup}
use fleet_prime_agent.SessionTree.{
  Entry, Node, node, Nodes, no_nodes, more, NodeKind, NodeRole, is_text, label_for, entry_preview,
  entry_kind, entry_role, find_active_branch_entries,
}
use fleet_prime_agent.SessionTree.Context.{build_message_index_by_entry_id}

-- `SessionTreeNode` without its children.
pub record ShownNode : Type 0 where
  pub id : String
  pub parent_id : Option String
  pub kind : NodeKind
  pub role : Option NodeRole
  pub label : String
  pub preview : String
  pub is_leaf : Bool
  pub is_on_active_branch : Bool
  pub message_index : Option ℕ

mutual
  pub data ShownTree : Type 0 where
    shown : (here : ShownNode) (children : ShownTrees) → ShownTree

  pub data ShownTrees : Type 0 where
    nothing : ShownTrees
    beside : (first : ShownTree) (others : ShownTrees) → ShownTrees

-- `SessionTreeSnapshot`
pub record Snapshot : Type 0 where
  pub session_id : String
  pub leaf_id : Option String
  pub nodes : ShownTrees

pub map_entry : Option String → List String → Dict ℕ → Entry → Option String → ShownNode
map_entry leaf active index entry label = record {
  id = entry.id;
  parent_id = truthy? entry.parent_id;
  kind = entry_kind entry;
  role = entry_role entry;
  label = label_for entry label;
  preview = entry_preview entry label;
  is_leaf = is_text entry.id leaf;
  is_on_active_branch = any (λ id. id == entry.id) active;
  message_index = lookup entry.id index;
}

-- `mapNode`, for each node of a list.
pub map_nodes : Option String → List String → Dict ℕ → Nodes → ShownTrees
unfolding map_entry
map_nodes leaf active index no_nodes = nothing
map_nodes leaf active index (more (node entry label children) others) =
    beside (shown (map_entry leaf active index entry label) (map_nodes leaf active index children))
      (map_nodes leaf active index others)

-- `mapSessionTreeSnapshot`
pub map_session_tree_snapshot : String → Nodes → Option String → Snapshot
unfolding map_nodes
map_session_tree_snapshot session_id nodes leaf_id =
    let entries : List Entry = find_active_branch_entries nodes leaf_id in
    record {
      session_id = session_id;
      leaf_id = leaf_id;
      nodes =
          map_nodes leaf_id (map (λ e. e.id) entries) (build_message_index_by_entry_id entries)
            nodes;
    }

-- `findNode`
pub find_node : String → ShownTrees → Option ShownNode
find_node id nothing = none
find_node id (beside (shown here children) others) =
    if here.id == id then some here else or_else (find_node id children) (find_node id others)

index_of : Option ShownNode → Option ℕ
index_of none = none
index_of (some n) = n.message_index

pub id_with : String → Option ℕ → Option String
id_with session_id none = none
id_with session_id (some i) = some (session_id <> "-m" <> decimal i)

-- `messageIdForSessionTreeEntry`
pub message_id_for_session_tree_entry : String → Snapshot → String → Option String
unfolding find_node index_of id_with
message_id_for_session_tree_entry session_id snapshot entry_id =
    id_with session_id (index_of (find_node entry_id snapshot.nodes))
