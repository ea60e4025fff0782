-- ===== src/SessionTree/Branch.antt =====
-- The active branch is a path of the tree from a root to the leaf.
use fleet_prime_agent.Prelude.{
  ◌≡◌, refl, String, Bool, true, false, ◌||◌, List, [], ◌∷◌, Option, none, some, ◌==◌, ==_iff, inl,
  inr, ◌⊎◌,
}
use mathlib.Core.List.{reverse, reverse-append}
use fleet_prime_agent.Prelude.Text.{truthy?}
use fleet_prime_agent.SessionTree.{
  Entry, Node, node, Nodes, no_nodes, more, walk_past, walk, path_of, branch_to,
  find_active_branch_entries,
}

-- The tree has an entry with the id.
abbrev pub has_entry : String → Nodes → Bool
has_entry id no_nodes = false
has_entry id (more (node entry label children) others) =
    entry.id == id || has_entry id children || has_entry id others

-- The entries, from a root of the tree to the entry with the id, each a child of the one before.
pub data Chain (id : String) : Nodes → List Entry → Type 0 where
  arrives :
      {e : Entry} {label : Option String} {children others : Nodes}
      → e.id ≡ id
      → Chain id (more (node e label children) others) (e ∷ [])
  descends :
      {e : Entry} {label : Option String} {children others : Nodes} {path : List Entry}
      → Chain id children path
      → Chain id (more (node e label children) others) (e ∷ path)
  passes :
      {first : Node} {others : Nodes} {path : List Entry}
      → Chain id others path
      → Chain id (more first others) path

-- What `walk` found: the reverse of a path, or nothing in a tree without the entry.
abbrev Walked : String → Nodes → Option (List Entry) → Type 0
Walked id nodes none = has_entry id nodes ≡ false
Walked id nodes (some pushed) = Chain id nodes (reverse pushed)

Walked-walk_past :
    (id : String) (e : Entry) (label : Option String) (children others : Nodes) (here : Bool)
    (below beside : Option (List Entry))
    → (e.id == id) ≡ here
    → Walked id children below
    → Walked id others beside
    → Walked id (more (node e label children) others) (walk_past e here below beside)
unfolding walk_past
Walked-walk_past id e label children others true below beside found w v =
    arrives ((==_iff e.id id).0 found)
Walked-walk_past id e label children others false (some path) beside found w v =
    rw (reverse-append path (e ∷ [])) (descends w)
Walked-walk_past id e label children others false none none found w v = rw (found, w, v) refl
Walked-walk_past id e label children others false none (some path) found w v = passes v

walk-Walked : (id : String) (nodes : Nodes) → Walked id nodes (walk id nodes)
unfolding walk
walk-Walked id no_nodes = refl
walk-Walked id (more (node e label children) others) =
    Walked-walk_past id e label children others (e.id == id) (walk id children) (walk id others)
      refl (walk-Walked id children) (walk-Walked id others)

branch_of-Walked :
    (id : String) (nodes : Nodes) (pushed : Option (List Entry))
    → Walked id nodes pushed
    → ((has_entry id nodes ≡ false) × (path_of pushed ≡ [])) ⊎ Chain id nodes (path_of pushed)
unfolding path_of
branch_of-Walked id nodes none w = inl (w, refl)
branch_of-Walked id nodes (some pushed) w = inr w

-- The active branch is a path of the tree from one of its roots, each entry a child of the one before,
-- to an entry with the leaf's id; it is empty only where the tree has no such entry.
pub find_active_branch_entries-Chain :
    (nodes : Nodes) (leaf : String)
    → truthy? (some leaf) ≡ some leaf
    → ((has_entry leaf nodes ≡ false) × (find_active_branch_entries nodes (some leaf) ≡ []))
      ⊎ Chain leaf nodes (find_active_branch_entries nodes (some leaf))
unfolding find_active_branch_entries branch_to
find_active_branch_entries-Chain nodes leaf set =
    rw set (branch_of-Walked leaf nodes (walk leaf nodes) (walk-Walked leaf nodes))
