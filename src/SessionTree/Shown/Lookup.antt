-- ===== src/SessionTree/Shown/Lookup.antt =====
-- The message of an entry of the session tree.
use fleet_prime_agent.Prelude.{
  ℕ, String, ◌≡◌, ◌≢◌, refl, sym, ap, Bool, true, false, ◌||◌, List, Option, none, some, ◌==◌,
  ==_iff, if◌then◌else◌, or_else, is_some, Bool-cases, inl, inr, map,
}
use fleet_prime_agent.Prelude.Dict.{Dict, lookup}
use fleet_prime_agent.SessionTree.{Entry, node, Nodes, no_nodes, more, find_active_branch_entries}
use fleet_prime_agent.SessionTree.Branch.{has_entry}
use fleet_prime_agent.SessionTree.Context.{build_message_index_by_entry_id}
use fleet_prime_agent.SessionTree.Shown.{
  ShownNode, map_entry, map_nodes, map_session_tree_snapshot, find_node, index_of, id_with,
  message_id_for_session_tree_entry,
}

true-false : true ≢ false
true-false = λ e. cc

module _ (leaf : Option String) (active : List String) (index : Dict ℕ) (id : String) where
  -- What is found for the id in a mapped tree.
  abbrev Found : Nodes → Option ShownNode → Type 0
  Found nodes found =
      (is_some found ≡ has_entry id nodes)
      × (index_of found ≡ (if has_entry id nodes then lookup id index else none))

  or_else-Found :
      (a b : Bool) (below beside : Option ShownNode)
      → (is_some below ≡ a) × (index_of below ≡ (if a then lookup id index else none))
      → (is_some beside ≡ b) × (index_of beside ≡ (if b then lookup id index else none))
      → (is_some (or_else below beside) ≡ (a || b))
        × (index_of (or_else below beside) ≡ (if a || b then lookup id index else none))
  or_else-Found true b (some n) beside w v = w
  or_else-Found true b none beside w v = absurd (true-false (sym w.0))
  or_else-Found false b (some n) beside w v = absurd (true-false w.0)
  or_else-Found false b none beside w v = v

  find_node-Found : (nodes : Nodes) → Found nodes (find_node id (map_nodes leaf active index nodes))
  unfolding find_node map_nodes map_entry index_of
  find_node-Found no_nodes = (refl, refl)
  find_node-Found (more (node entry label children) others) = elim (Bool-cases (entry.id == id)) [
    | inl here ↦ rw here (refl, ap (λ k. lookup k index) ((==_iff entry.id id).0 here))
    | inr elsewhere ↦ rw elsewhere (
        or_else-Found (has_entry id children) (has_entry id others) _ _ (find_node-Found children)
          (find_node-Found others))
  ]

-- The message of an entry is named by the entry's index, for each entry of the tree that the transcript
-- shows, and for no other.
pub message_id-lookup :
    (session_id : String) (nodes : Nodes) (leaf_id : Option String) (entry_id : String)
    → message_id_for_session_tree_entry session_id
        (map_session_tree_snapshot session_id nodes leaf_id)
        entry_id
      ≡ id_with session_id (
          if has_entry entry_id nodes
          then lookup entry_id
              (build_message_index_by_entry_id (find_active_branch_entries nodes leaf_id))
          else none)
unfolding message_id_for_session_tree_entry map_session_tree_snapshot
message_id-lookup session_id nodes leaf_id entry_id =
    let entries : List Entry = find_active_branch_entries nodes leaf_id in
    ap (id_with session_id)
      (find_node-Found leaf_id (map (λ e. e.id) entries) (build_message_index_by_entry_id entries)
        entry_id nodes).1
