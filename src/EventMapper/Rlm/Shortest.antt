-- ===== src/EventMapper/Rlm/Shortest.antt =====
-- web/server/src/event-mapper.ts: the depths that the walk gives are lengths of shortest chains of parents.
use fleet_prime_agent.Prelude.{
  ℕ, zero, suc, ◌≤◌, ◌≡◌, refl, sym, ◌∙◌, String, true, false, List, [], ◌∷◌, ◌++◌, Option, none,
  some, arith, ◌==◌, ==_iff, Bool-cases, List-cases, is_some, ◌⊎◌, inl, inr,
}
use mathlib.Core.Path.{subst}
use fleet_prime_agent.Prelude.Dict.{Dict, lookup}
use fleet_prime_agent.EventMapper.Rlm.{
  Node, Placed, Walk, contains, change, set_depth, at_depth, enter, enter_as, first_walk, walk,
}
use fleet_prime_agent.EventMapper.Rlm.Chains.{children_of}
use fleet_prime_agent.EventMapper.Rlm.Known.{change-Known, Sound, Linked-Known}
use fleet_prime_agent.EventMapper.Rlm.Queues.{
  Within, AllFrom, AllTo, Rising, Within-left, Within-right, Within-at_depth, AllFrom-append,
  AllFrom-at_depth, Rising-append, Rising-at_depth,
}
use fleet_prime_agent.EventMapper.Rlm.Depths.{
  Walked, first-Walked, visited_before, change_apart, change_same, head-Linked, children_found,
  again-Walked, present-Walked,
}

-- A visited id whose node has this depth or a smaller one, or one that will be visited at such a depth.
abbrev pub Near : Walk → ℕ → String → Type 0
Near w k id =
    ((node : Node) × (contains id w.visited ≡ true)
      × (lookup id w.nodes ≡ some node)
      × (node.depth ≤ k))
    ⊎ Within k id w.queue

pub record Swept (p : Placed) (w : Walk) : Type 0 where
  pub walked : Walked p w
  pub rising : Rising w.queue
  pub known : (id : String) → is_some (lookup id w.nodes) ≡ is_some (lookup id p.nodes)
  pub past :
      (id : String) (node : Node)
      → contains id w.visited ≡ true
      → lookup id w.nodes ≡ some node
      → AllFrom node.depth w.queue
  pub roots : (id : String) → contains id p.roots ≡ true → Near w 1 id
  pub closed :
      (parent id : String) (node : Node)
      → contains parent w.visited ≡ true
      → lookup parent w.nodes ≡ some node
      → contains id (children_of p.nodes parent) ≡ true
      → Near w (suc node.depth) id

pub first-Swept : (p : Placed) → Swept p (first_walk p)
unfolding contains
first-Swept p = record {
  walked = first-Walked p;
  rising = Rising-at_depth 1 p.roots;
  known = λ id. refl;
  past = λ id node v look. absurd (cc);
  roots = λ id m. inr (Within-at_depth 1 id p.roots m);
  closed = λ parent id node v look m. absurd (cc);
}

some_of : (o : Option Node) → is_some o ≡ true → (node : Node) × (o ≡ some node)
some_of none h = absurd (cc)
some_of (some node) h = (node, refl)

module _ (p : Placed) (s : Sound p) (w : Walk) (id : String) (d : ℕ) (rest : List (String × ℕ))
    (e : w.queue ≡ (id, d) ∷ rest) (h : Swept p w) where
  head-Rising : AllFrom d rest × AllTo (suc d) rest × Rising rest
  head-Rising = subst Rising e h.rising

  past_head :
      (other : String) (node : Node)
      → contains other w.visited ≡ true
      → lookup other w.nodes ≡ some node
      → (node.depth ≤ d) × AllFrom node.depth rest
  past_head other node v look = subst (AllFrom node.depth) e (h.past other node v look)

  queued_near :
      (k : ℕ) (other : String)
      → Within k other w.queue
      → ((id ≡ other) × (d ≤ k)) ⊎ Within k other rest
  queued_near k other m = subst (Within k other) e m

  head_node : (node : Node) × (lookup id w.nodes ≡ some node)
  head_node =
      some_of (lookup id w.nodes)
        (h.known id ∙ Linked-Known p d id s (head-Linked p w id d rest e h.walked).0)

  still_near :
      contains id w.visited ≡ true
      → (k : ℕ) (other : String) → Near w k other
      → Near (record w { queue = rest }) k other
  still_near seen k other (inl done) = inl done
  still_near seen k other (inr m) = elim (queued_near k other m) [
    | inl (same, low) ↦
        let (node, found) = head_node in
        let (less, from) = past_head id node seen found in
        inl (node, rw (← same) seen, rw (← same) found, omega arith)
    | inr later ↦ inr later
  ]

  again-Swept : contains id w.visited ≡ true → Swept p (record w { queue = rest })
  again-Swept seen = record {
    walked = again-Walked p w id d rest e h.walked;
    rising = head-Rising.2;
    known = h.known;
    past = λ other node v look. (past_head other node v look).1;
    roots = λ other m. still_near seen 1 other (h.roots other m);
    closed = λ parent other node v look m.
        still_near seen (suc node.depth) other (h.closed parent other node v look m);
  }

  module _ (node : Node) (found : lookup id w.nodes ≡ some node)
      (fresh : contains id w.visited ≡ false) where
    abbrev after : Walk
    after = record {
      nodes = change id (set_depth d) w.nodes;
      queue = rest ++ at_depth (suc d) node.children_ids;
      visited = id ∷ w.visited;
    }

    near_after : (k : ℕ) (other : String) → Near w k other → Near after k other
    unfolding contains
    near_after k other (inl (node', v, look, low)) = elim (Bool-cases (id == other)) [
      | inl same ↦
          let equal : id ≡ other = (==_iff id other).0 same in
          let v' : contains id w.visited ≡ true = rw equal v in absurd (cc)
      | inr apart ↦ inl (node', rw (apart, v) refl, change_apart id other w d apart ∙ look, low)
    ]
    near_after k other (inr m) = elim (queued_near k other m) [
      | inl (same, low) ↦
          let equal : (id == other) ≡ true = (==_iff id other).1 same in
          inl (set_depth d node, rw equal refl, change_same id other w d node equal found, low)
      | inr later ↦ inr (Within-left k other rest (at_depth (suc d) node.children_ids) later)
    ]

    past_after :
        (other : String) (node' : Node)
        → contains other (id ∷ w.visited) ≡ true
        → lookup other (change id (set_depth d) w.nodes) ≡ some node'
        → AllFrom node'.depth (rest ++ at_depth (suc d) node.children_ids)
    past_after other node' v look = elim (Bool-cases (id == other)) [
      | inl same ↦
          let set = change_same id other w d node same found in
          let same_depth : d ≡ node'.depth = ground arith in
          subst (λ (k : ℕ). AllFrom k (rest ++ at_depth (suc d) node.children_ids)) same_depth
            (AllFrom-append d rest _ head-Rising.0
              (AllFrom-at_depth d (suc d) node.children_ids (omega arith)))
      | inr apart ↦
          let look' = sym (change_apart id other w d apart) ∙ look in
          let (less, from) =
            past_head other node' (visited_before id other w.visited apart v) look' in
          AllFrom-append node'.depth rest _ from
            (AllFrom-at_depth node'.depth (suc d) node.children_ids (omega arith))
    ]

    closed_after :
        (parent other : String) (node' : Node)
        → contains parent (id ∷ w.visited) ≡ true
        → lookup parent (change id (set_depth d) w.nodes) ≡ some node'
        → contains other (children_of p.nodes parent) ≡ true
        → Near after (suc node'.depth) other
    closed_after parent other node' v look m = elim (Bool-cases (id == parent)) [
      | inl same ↦
          let set = change_same id parent w d node same found in
          let same_depth : d ≡ node'.depth = ground arith in
          let equal : id ≡ parent = (==_iff id parent).0 same in
          let m' : contains other (children_of p.nodes id) ≡ true = rw equal m in
          let there : contains other node.children_ids ≡ true =
            rw (← children_found p w id d rest e h.walked node found) m' in
          subst (λ (k : ℕ). Near after (suc k) other) same_depth
            (inr (
              Within-right (suc d) other rest (at_depth (suc d) node.children_ids)
                (Within-at_depth (suc d) other node.children_ids there)))
      | inr apart ↦
          let look' = sym (change_apart id parent w d apart) ∙ look in
          near_after (suc node'.depth) other
            (h.closed parent other node' (visited_before id parent w.visited apart v) look' m)
    ]

    present-Swept : Swept p (enter_as (some node) w id d rest)
    unfolding enter_as
    present-Swept =
        let (from, to, rising) = head-Rising in
        record {
          walked = present-Walked p w id d rest e h.walked node found;
          rising = Rising-append d rest node.children_ids from to rising;
          known = λ other. change-Known id other (set_depth d) w.nodes ∙ h.known other;
          past = past_after;
          roots = λ other m. near_after 1 other (h.roots other m);
          closed = closed_after;
        }

  pub enter-Swept : Swept p (enter w id d rest)
  unfolding enter
  enter-Swept = elim (Bool-cases (contains id w.visited)) [
    | inl seen ↦ rw seen (again-Swept seen)
    | inr fresh ↦
        let (node, found) = head_node in rw (fresh, found) (present-Swept node found fresh)
  ]

-- A walk that ends, ends in a state with an empty queue.
pub walk-Swept :
    (p : Placed) (s : Sound p) (rounds : ℕ) (w : Walk) (nodes : Dict Node)
    → walk rounds w ≡ some nodes
    → Swept p w
    → (last : Walk) × Swept p last × (last.nodes ≡ nodes) × (last.queue ≡ [])
unfolding walk
walk-Swept p s zero w nodes ends h = elim (List-cases w.queue) [
  | inl empty ↦ (w, h, ground arith, empty)
  | inr (item, rest, e) ↦ absurd (ground arith)
]
walk-Swept p s (suc rounds) w nodes ends h = elim (List-cases w.queue) [
  | inl empty ↦ (w, h, ground arith, empty)
  | inr (item, rest, e) ↦
      walk-Swept p s rounds (enter w item.0 item.1 rest) nodes (ground arith)
        (enter-Swept p s w item.0 item.1 rest e h)
]
