-- ===== src/EventMapper/Rlm/Chains.antt =====
-- web/server/src/event-mapper.ts: the chains of parents and children in the lists of the placed nodes.
use fleet_prime_agent.Prelude.{
  ℕ, zero, suc, ◌≡◌, refl, String, true, ◌||◌, List, [], ◌∷◌, ◌++◌, Option, none, some, arith, ◌==◌,
  ==_iff, if◌then◌else◌, Bool-cases, Option_map, inl, inr,
}
use fleet_prime_agent.Prelude.Dict.{Dict, lookup}
use fleet_prime_agent.EventMapper.Rlm.{Node, Placed, contains, change, set_depth}

unfoldable pub children_in : Option Node → List String
children_in none = []
children_in (some node) = node.children_ids

unfoldable pub children_of : Dict Node → String → List String
unfolding children_in
children_of nodes id = children_in (lookup id nodes)

-- A chain of this many ids, from a child of the root to the id, each a child of the one before.
abbrev pub Linked : Placed → ℕ → String → Type 0
Linked p zero id = ⊥
Linked p (suc zero) id = contains id p.roots ≡ true
Linked p (suc (suc d)) id =
    (parent : String) × Linked p (suc d) parent × (contains id (children_of p.nodes parent) ≡ true)

pub Linked-child :
    (p : Placed) (d : ℕ) (parent id : String)
    → Linked p d parent
    → contains id (children_of p.nodes parent) ≡ true
    → Linked p (suc d) id
Linked-child p zero parent id h m = absurd h
Linked-child p (suc d) parent id h m = (parent, h, m)

pub lookup-change :
    (id other : String) (f : Node → Node) (nodes : Dict Node)
    → lookup other (change id f nodes)
      ≡ (if id == other then Option_map f (lookup other nodes) else lookup other nodes)
unfolding lookup change
lookup-change id other f [] = ground arith
lookup-change id other f ((key, node) ∷ rest) =
    ground (arith, lookup-change id other f rest, ==_iff key id, ==_iff key other, ==_iff id other)

children_in-depth :
    (d : ℕ) (o : Option Node) → children_in (Option_map (set_depth d) o) ≡ children_in o
unfolding children_in
children_in-depth d none = refl
children_in-depth d (some node) = refl

pub children_of-change :
    (id other : String) (d : ℕ) (nodes : Dict Node)
    → children_of (change id (set_depth d) nodes) other ≡ children_of nodes other
unfolding children_of
children_of-change id other d nodes = rw lookup-change (elim (Bool-cases (id == other)) [
  | inl same ↦ rw same (children_in-depth d (lookup other nodes))
  | inr apart ↦ rw apart refl
])

pub contains-append :
    (id : String) (xs ys : List String)
    → contains id (xs ++ ys) ≡ (contains id xs || contains id ys)
unfolding contains
contains-append id [] ys = refl
contains-append id (x ∷ xs) ys = ground (arith, contains-append id xs ys)
