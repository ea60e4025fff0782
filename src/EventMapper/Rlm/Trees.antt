-- ===== src/EventMapper/Rlm/Trees.antt =====
-- web/server/src/event-mapper.ts: the depths in the tree that computeRlmExecutionTree returns.
use fleet_prime_agent.Prelude.{
  ℕ, zero, suc, ◌≤◌, ◌≡◌, refl, String, true, List, [], Option, some, arith, inl, inr,
}
use mathlib.Core.Path.{subst}
use fleet_prime_agent.Prelude.Text.{truthy?}
use fleet_prime_agent.Prelude.Dict.{Dict, lookup}
use fleet_prime_agent.EventMapper.Rlm.{
  Node, Child, Tree, Placed, placed, Walk, contains, work, first_walk, depths, tree_as,
  compute_rlm_execution_tree,
}
use fleet_prime_agent.EventMapper.Rlm.Walks.{walk_ends}
use fleet_prime_agent.EventMapper.Rlm.Chains.{Linked}
use fleet_prime_agent.EventMapper.Rlm.Known.{Sound, placed-Sound}
use fleet_prime_agent.EventMapper.Rlm.Queues.{Within}
use fleet_prime_agent.EventMapper.Rlm.Shortest.{Near, Swept, first-Swept, walk-Swept}

-- With nothing left in the queue, an id is near only when its node is.
near_at_end :
    (w : Walk) (k : ℕ) (id : String)
    → w.queue ≡ []
    → Near w k id
    → (node : Node) × (contains id w.visited ≡ true)
      × (lookup id w.nodes ≡ some node)
      × (node.depth ≤ k)
near_at_end w k id e (inl done) = done
near_at_end w k id e (inr m) = let none_left : ⊥ = subst (Within k id) e m in absurd none_left

Linked-at_end :
    (p : Placed) (w : Walk) (d : ℕ) (id : String)
    → Swept p w
    → w.queue ≡ []
    → Linked p d id
    → (node : Node) × (contains id w.visited ≡ true)
      × (lookup id w.nodes ≡ some node)
      × (node.depth ≤ d)
Linked-at_end p w zero id h e link = absurd link
Linked-at_end p w (suc zero) id h e link = near_at_end w 1 id e (h.roots id link)
Linked-at_end p w (suc (suc d)) id h e (parent, link, m) =
    let (above, v, look, low) = Linked-at_end p w (suc d) parent h e link in
    let (node, v', look', low') =
      near_at_end w (suc above.depth) id e (h.closed parent id above v look m) in
    (node, v', look', omega arith)

depths_shortest :
    (p : Placed)
    → Sound p
    → (d : ℕ) (id : String) → Linked p d id
    → (nodes : Dict Node) × (node : Node) × (depths p ≡ some nodes)
      × (lookup id nodes ≡ some node)
      × Linked p node.depth id
      × (node.depth ≤ d)
unfolding depths
depths_shortest p s d id link =
    let (nodes, ends) = walk_ends (work (first_walk p)) (first_walk p) (omega arith) in
    let (last, h, same, e) =
      walk-Swept p s (work (first_walk p)) (first_walk p) nodes ends (first-Swept p) in
    let (node, v, look, low) = Linked-at_end p last d id h e link in
    (
      nodes,
      node,
      ends,
      subst (λ (n : Dict Node). lookup id n ≡ some node) same look,
      h.walked.deep id node v look,
      low,
    )

-- For an id that a chain of children from the root reaches, the computation of the tree ends, and the tree
-- has a node of the id, whose depth is the length of a shortest such chain.
pub tree_shortest :
    (root : String) (children : List Child) (active : Option String) (d : ℕ) (id : String)
    → Linked (placed root children) d id
    → (t : Tree) × (node : Node) × (compute_rlm_execution_tree root children active ≡ some t)
      × (lookup id t.nodes ≡ some node)
      × Linked (placed root children) node.depth id
      × (node.depth ≤ d)
unfolding compute_rlm_execution_tree tree_as
tree_shortest root children active d id link =
    let p = placed root children in
    let (nodes, node, ends, look, linked, low) =
      depths_shortest p (placed-Sound root children) d id link in
    (
      record {
        root_session_id = root;
        nodes = nodes;
        root_children_ids = p.roots;
        active_node_id = truthy? active;
      },
      node,
      rw ends refl,
      look,
      linked,
      low,
    )
