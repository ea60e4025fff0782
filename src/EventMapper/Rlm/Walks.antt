-- ===== src/EventMapper/Rlm/Walks.antt =====
-- web/server/src/event-mapper.ts: the walk over the tree ends, since a node's children join the queue when it
-- is first visited and never again.
use fleet_prime_agent.Prelude.{
  ℕ, zero, suc, ◌+◌, ◌≤◌, ◌≡◌, refl, ap, sym, String, true, false, List, [], ◌∷◌, Option, none,
  some, arith, ◌==◌, ==_iff, length, length-append, Bool-cases, List-cases, inl, inr,
}
use fleet_prime_agent.Prelude.Dict.{Dict, lookup}
use fleet_prime_agent.EventMapper.Rlm.{
  Node, Walk, contains, change, set_depth, at_depth, enter, enter_as, walk, work, open_children,
}

length-at_depth : (depth : ℕ) (ids : List String) → length (at_depth depth ids) ≡ length ids
unfolding at_depth
length-at_depth depth [] = refl
length-at_depth depth (id ∷ ids) = ap suc (length-at_depth depth ids)

open_children-change :
    (id : String) (depth : ℕ) (nodes : Dict Node) (visited : List String)
    → open_children (change id (set_depth depth) nodes) visited ≡ open_children nodes visited
unfolding open_children change
open_children-change id depth [] visited = refl
open_children-change id depth ((key, node) ∷ rest) visited =
    ground (arith, open_children-change id depth rest visited)

-- One more visited id closes at least the children of its node.
open_children-visit :
    (id : String) (nodes : Dict Node) (visited : List String)
    → open_children nodes (id ∷ visited) ≤ open_children nodes visited
unfolding open_children contains
open_children-visit id [] visited = omega arith
open_children-visit id ((key, node) ∷ rest) visited =
    ground (arith, open_children-visit id rest visited)

open_children-visit_node :
    (id : String) (node : Node) (nodes : Dict Node) (visited : List String)
    → lookup id nodes ≡ some node
    → contains id visited ≡ false
    → open_children nodes (id ∷ visited) + length node.children_ids ≤ open_children nodes visited
unfolding open_children contains lookup
open_children-visit_node id node [] visited e fresh = absurd (cc)
open_children-visit_node id node ((key, other) ∷ rest) visited e fresh =
    elim (Bool-cases (key == id)) [
      | inl same ↦
          let equal : key ≡ id = (==_iff key id).0 same in
          let here : other ≡ node = ground arith in
          let closed : (id == key) ≡ true = (==_iff id key).1 (sym equal) in
          let unseen : contains key visited ≡ false = rw equal fresh in
          let less = open_children-visit id rest visited in rw (closed, unseen, here) (omega arith)
      | inr apart ↦
          let found : lookup id rest ≡ some node = ground arith in
          let less = open_children-visit_node id node rest visited found fresh in ground arith
    ]

enter_as-work :
    (o : Option Node) (w : Walk) (id : String) (depth : ℕ) (rest : List (String × ℕ))
    → lookup id w.nodes ≡ o
    → contains id w.visited ≡ false
    → work (enter_as o w id depth rest) ≤ open_children w.nodes w.visited + length rest
unfolding enter_as
enter_as-work none w id depth rest e fresh = omega (arith, open_children-visit id w.nodes w.visited)
enter_as-work (some node) w id depth rest e fresh = omega (
  arith,
  open_children-change id depth w.nodes (id ∷ w.visited),
  open_children-visit_node id node w.nodes w.visited e fresh,
  length-append rest (at_depth (suc depth) node.children_ids),
  length-at_depth (suc depth) node.children_ids,
)

enter-work :
    (w : Walk) (id : String) (depth : ℕ) (rest : List (String × ℕ))
    → work (enter w id depth rest) ≤ open_children w.nodes w.visited + length rest
unfolding enter
enter-work w id depth rest = elim (Bool-cases (contains id w.visited)) [
  | inl seen ↦ rw seen (omega arith)
  | inr fresh ↦ rw fresh (enter_as-work (lookup id w.nodes) w id depth rest refl fresh)
]

-- With a round for each item that the queue has or may get, the walk ends.
pub walk_ends :
    (rounds : ℕ) (w : Walk) → work w ≤ rounds → (nodes : Dict Node) × (walk rounds w ≡ some nodes)
unfolding walk
walk_ends zero w h = elim (List-cases w.queue) [
  | inl empty ↦ (w.nodes, ground arith)
  | inr (item, rest, e) ↦ absurd (omega (arith, ap length e))
]
walk_ends (suc rounds) w h = elim (List-cases w.queue) [
  | inl empty ↦ (w.nodes, ground arith)
  | inr (item, rest, e) ↦
      let less = enter-work w item.0 item.1 rest in
      let (nodes, ends) =
        walk_ends rounds (enter w item.0 item.1 rest) (omega (arith, ap length e)) in
      (nodes, ground arith)
]
