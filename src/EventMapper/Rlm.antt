-- ===== src/EventMapper/Rlm.antt =====
-- web/server/src/event-mapper.ts: the tree of the agents that a session has started (computeRlmExecutionTree).
-- The queue of the walk gets a round for each id in the lists of the roots and the nodes.
pub mod Walks
pub mod Chains
pub mod Known
pub mod Depths
pub mod Queues
pub mod Shortest
pub mod Trees
use fleet_prime_agent.Prelude.{
  ℕ, zero, suc, ◌+◌, String, Bool, true, false, not, ◌&&◌, ◌||◌, List, [], ◌∷◌, ◌++◌, Option, none,
  some, ◌==◌, if◌then◌else◌, length, is_some,
}
use fleet_prime_agent.Prelude.Text.{truthy?}
use fleet_prime_agent.Prelude.Dict.{Dict, lookup, insert}
use fleet_prime_agent.Prelude.Json.{Value}

-- `PrimeAgentRlmChild`, with the fields that the tree reads; the others are passed on.
pub record Child : Type 0 where
  pub id : String
  pub parent_id : Option String
  pub details : Value

-- `PrimeAgentRlmNode`
pub record Node : Type 0 where
  pub child : Child
  pub depth : ℕ
  pub children_ids : List String

pub record Tree : Type 0 where
  pub root_session_id : String
  pub nodes : Dict Node
  pub root_children_ids : List String
  pub active_node_id : Option String

unfoldable pub contains : String → List String → Bool
contains id [] = false
contains id (other ∷ rest) = other == id || contains id rest

-- The first loop: a node for each child, without children.
unfoldable pub new_nodes : List Child → Dict Node → Dict Node
new_nodes [] nodes = nodes
new_nodes (child ∷ rest) nodes =
    new_nodes rest (insert child.id (record { child = child; depth = 1; children_ids = [] }) nodes)

-- A change of the node of an id.
unfoldable pub change : String → (Node → Node) → Dict Node → Dict Node
change id f [] = []
change id f ((key, node) ∷ rest) =
    if key == id then (key, f node) ∷ rest else (key, node) ∷ change id f rest

abbrev pub add_child : String → Node → Node
add_child id node = record node { children_ids = node.children_ids ++ id ∷ [] }

abbrev pub set_depth : ℕ → Node → Node
set_depth depth node = record node { depth = depth }

-- The nodes and the children of the root.
pub record Placed : Type 0 where
  pub nodes : Dict Node
  pub roots : List String

unfoldable pub place_as : Option String → Placed → String → String → Placed
place_as none p root id = record p { roots = p.roots ++ id ∷ [] }
place_as (some parent) p root id =
    if not (parent == root) && is_some (lookup parent p.nodes)
    then record p { nodes = change parent (add_child id) p.nodes }
    else record p { roots = p.roots ++ id ∷ [] }

-- The second loop: each child goes to its parent's node, or to the root.
unfoldable pub place_all : String → List Child → Placed → Placed
unfolding place_as
place_all root [] p = p
place_all root (child ∷ rest) p =
    place_all root rest (place_as (truthy? child.parent_id) p root child.id)

unfoldable pub placed : String → List Child → Placed
unfolding place_all
placed root children =
    place_all root children (record { nodes = new_nodes children []; roots = [] })

pub record Walk : Type 0 where
  pub nodes : Dict Node
  pub queue : List (String × ℕ)
  pub visited : List String

unfoldable pub at_depth : ℕ → List String → List (String × ℕ)
at_depth depth [] = []
at_depth depth (id ∷ ids) = (id, depth) ∷ at_depth depth ids

unfoldable pub enter_as : Option Node → Walk → String → ℕ → List (String × ℕ) → Walk
enter_as none w id depth rest = record w { queue = rest; visited = id ∷ w.visited }
enter_as (some node) w id depth rest = record {
  nodes = change id (set_depth depth) w.nodes;
  queue = rest ++ at_depth (suc depth) node.children_ids;
  visited = id ∷ w.visited;
}

-- One round of the walk, with the first item off the queue.
unfoldable pub enter : Walk → String → ℕ → List (String × ℕ) → Walk
enter w id depth rest =
    if contains id w.visited
    then record w { queue = rest }
    else enter_as (lookup id w.nodes) w id depth rest

-- `none` where the rounds do not suffice.
unfoldable pub walk : ℕ → Walk → Option (Dict Node)
walk zero w = elim w.queue [ [] ↦ some w.nodes | item ∷ rest ↦ none ]
walk (suc rounds) w = elim w.queue [
  | [] ↦ some w.nodes
  | item ∷ rest ↦ walk rounds (enter w item.0 item.1 rest)
]

-- The children of the nodes that are not visited.
unfoldable pub open_children : Dict Node → List String → ℕ
open_children [] visited = 0
open_children ((key, node) ∷ rest) visited =
    (if contains key visited then 0 else length node.children_ids) + open_children rest visited

abbrev pub first_walk : Placed → Walk
first_walk p = record { nodes = p.nodes; queue = at_depth 1 p.roots; visited = [] }

-- The items that the queue has or may get.
abbrev pub work : Walk → ℕ
work w = open_children w.nodes w.visited + length w.queue

-- The nodes with their depths.
unfoldable pub depths : Placed → Option (Dict Node)
depths p = walk (work (first_walk p)) (first_walk p)

unfoldable pub tree_as : Option (Dict Node) → String → Placed → Option String → Option Tree
tree_as none root p active = none
tree_as (some nodes) root p active = some (record {
  root_session_id = root;
  nodes = nodes;
  root_children_ids = p.roots;
  active_node_id = truthy? active;
})

-- `computeRlmExecutionTree`
unfoldable pub compute_rlm_execution_tree : String → List Child → Option String → Option Tree
unfolding tree_as
compute_rlm_execution_tree root children active =
    let p = placed root children in tree_as (depths p) root p active
