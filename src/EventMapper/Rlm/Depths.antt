-- ===== src/EventMapper/Rlm/Depths.antt =====
-- web/server/src/event-mapper.ts: the depths that the walk gives are lengths of chains of parents.
use fleet_prime_agent.Prelude.{
  ℕ, suc, ◌≡◌, refl, sym, ◌∙◌, String, true, false, List, [], ◌∷◌, ◌++◌, some, arith, ◌==◌, ==_iff,
  ==_refl, Bool-cases, inl, inr,
}
use mathlib.Core.Path.{subst}
use fleet_prime_agent.Prelude.Dict.{lookup}
use fleet_prime_agent.EventMapper.Rlm.{
  Node, Placed, Walk, contains, change, set_depth, at_depth, enter_as, first_walk,
}
use fleet_prime_agent.EventMapper.Rlm.Chains.{
  children_in, children_of, Linked, Linked-child, lookup-change, children_of-change,
}

abbrev AllLinked : Placed → List (String × ℕ) → Type 0
AllLinked p [] = Unit {0}
AllLinked p ((id, d) ∷ rest) = Linked p d id × AllLinked p rest

-- What the walk has done: the visited nodes have depths of chains, and so have the items of the queue.
pub record Walked (p : Placed) (w : Walk) : Type 0 where
  pub keeps : (id : String) → children_of w.nodes id ≡ children_of p.nodes id
  pub queued : AllLinked p w.queue
  pub deep :
      (id : String) (node : Node)
      → contains id w.visited ≡ true
      → lookup id w.nodes ≡ some node
      → Linked p node.depth id

AllLinked-append :
    (p : Placed) (xs ys : List (String × ℕ))
    → AllLinked p xs
    → AllLinked p ys
    → AllLinked p (xs ++ ys)
AllLinked-append p [] ys h k = k
AllLinked-append p ((id, d) ∷ xs) ys (a, h) k = (a, AllLinked-append p xs ys h k)

-- A list gets the depth at which each of its ids has a chain.
AllLinked-at_depth :
    (p : Placed) (d : ℕ) (names : List String)
    → ((id : String) → contains id names ≡ true → Linked p d id)
    → AllLinked p (at_depth d names)
unfolding at_depth contains
AllLinked-at_depth p d [] h = tt
AllLinked-at_depth p d (id ∷ rest) h =
    (h id (rw ==_refl refl), AllLinked-at_depth p d rest (λ other m. h other (ground arith)))

pub first-Walked : (p : Placed) → Walked p (first_walk p)
unfolding contains
first-Walked p = record {
  keeps = λ id. refl;
  queued = AllLinked-at_depth p 1 p.roots (λ id m. m);
  deep = λ id node v e. absurd (cc);
}

pub visited_before :
    (id other : String) (visited : List String)
    → (id == other) ≡ false
    → contains other (id ∷ visited) ≡ true
    → contains other visited ≡ true
unfolding contains
visited_before id other visited apart v = ground arith

pub change_apart :
    (id other : String) (w : Walk) (d : ℕ)
    → (id == other) ≡ false
    → lookup other (change id (set_depth d) w.nodes) ≡ lookup other w.nodes
change_apart id other w d apart = rw (lookup-change, apart) refl

pub change_same :
    (id other : String) (w : Walk) (d : ℕ) (node : Node)
    → (id == other) ≡ true
    → lookup id w.nodes ≡ some node
    → lookup other (change id (set_depth d) w.nodes) ≡ some (set_depth d node)
change_same id other w d node same found =
    let equal : id ≡ other = (==_iff id other).0 same in
    let there : lookup other w.nodes ≡ some node = rw (← equal) found in
    rw (lookup-change, same, there) refl

module _ (p : Placed) (w : Walk) (id : String) (d : ℕ) (rest : List (String × ℕ))
    (e : w.queue ≡ (id, d) ∷ rest) (h : Walked p w) where
  pub head-Linked : Linked p d id × AllLinked p rest
  head-Linked = subst (AllLinked p) e h.queued

  pub again-Walked : Walked p (record w { queue = rest })
  again-Walked = record { keeps = h.keeps; queued = head-Linked.1; deep = h.deep }

  module _ (node : Node) (found : lookup id w.nodes ≡ some node) where
    pub children_found : children_of p.nodes id ≡ node.children_ids
    unfolding children_of children_in
    children_found =
        let there : children_of w.nodes id ≡ node.children_ids = rw found refl in
        sym (h.keeps id) ∙ there

    deep_after :
        (other : String) (node' : Node)
        → (id == other) ≡ true
        → lookup other (change id (set_depth d) w.nodes) ≡ some node'
        → Linked p node'.depth other
    deep_after other node' same look =
        let equal : id ≡ other = (==_iff id other).0 same in
        let set = change_same id other w d node same found in
        let same_depth : d ≡ node'.depth = ground arith in
        subst (λ (k : ℕ). Linked p k other) same_depth (subst (Linked p d) equal head-Linked.0)

    queued_after : AllLinked p (rest ++ at_depth (suc d) node.children_ids)
    queued_after =
        let (link, tail) = head-Linked in
        AllLinked-append p rest (at_depth (suc d) node.children_ids) tail (
          AllLinked-at_depth p (suc d) node.children_ids
            (λ other m. Linked-child p d id other link (rw children_found m)))

    pub present-Walked : Walked p (enter_as (some node) w id d rest)
    unfolding enter_as
    present-Walked = record {
      keeps = λ other. children_of-change id other d w.nodes ∙ h.keeps other;
      queued = queued_after;
      deep = λ other node' v look. elim (Bool-cases (id == other)) [
        | inl same ↦ deep_after other node' same look
        | inr apart ↦
            let look' = sym (change_apart id other w d apart) ∙ look in
            h.deep other node' (visited_before id other w.visited apart v) look'
      ];
    }
