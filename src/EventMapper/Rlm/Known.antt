-- ===== src/EventMapper/Rlm/Known.antt =====
-- web/server/src/event-mapper.ts: the ids in the lists of the roots and of the children have nodes.
use fleet_prime_agent.Prelude.{
  ◌≡◌, refl, sym, ◌∙◌, String, true, false, not, ◌&&◌, ◌||◌, List, [], ◌∷◌, ◌++◌, Option, none,
  some, arith, ◌==◌, ==_iff, ==_refl, Bool-cases, Option_map, is_some, inl, inr, ◌⊎◌, ℕ, zero, suc,
}
use mathlib.Core.Path.{subst}
use fleet_prime_agent.Prelude.Text.{truthy?}
use fleet_prime_agent.Prelude.Dict.{Dict, lookup, insert, lookup-insert}
use fleet_prime_agent.EventMapper.Rlm.{
  Node, Child, Placed, place_as, place_all, placed, new_nodes, contains, change, add_child,
}
use fleet_prime_agent.EventMapper.Rlm.Chains.{
  Linked, children_of, children_in, lookup-change, contains-append,
}

abbrev pub Known : Dict Node → String → Type 0
Known nodes id = is_some (lookup id nodes) ≡ true

is_some-map : (f : Node → Node) (o : Option Node) → is_some (Option_map f o) ≡ is_some o
is_some-map f none = refl
is_some-map f (some node) = refl

pub change-Known :
    (id other : String) (f : Node → Node) (nodes : Dict Node)
    → is_some (lookup other (change id f nodes)) ≡ is_some (lookup other nodes)
change-Known id other f nodes = rw lookup-change (elim (Bool-cases (id == other)) [
  | inl same ↦ rw same (is_some-map f (lookup other nodes))
  | inr apart ↦ rw apart refl
])

insert-Known :
    (id other : String) (node : Node) (nodes : Dict Node)
    → Known nodes other
    → Known (insert id node nodes) other
unfolding insert lookup
insert-Known id other node [] h = ground arith
insert-Known id other node ((key, old) ∷ rest) h =
    ground
      (arith, insert-Known id other node rest, ==_iff key id, ==_iff key other, ==_iff id other)

inserted-Known : (id : String) (node : Node) (nodes : Dict Node) → Known (insert id node nodes) id
unfolding insert lookup
inserted-Known id node [] = rw ==_refl refl
inserted-Known id node ((key, old) ∷ rest) =
    ground (arith, inserted-Known id node rest, ==_iff key id, ==_refl id)

new_nodes-Known :
    (children : List Child) (nodes : Dict Node) (id : String)
    → Known nodes id
    → Known (new_nodes children nodes) id
unfolding new_nodes
new_nodes-Known [] nodes id h = h
new_nodes-Known (child ∷ rest) nodes id h =
    new_nodes-Known rest _ id (insert-Known child.id id _ nodes h)

-- Every child of the list has a node.
AllKnown : Dict Node → List Child → Type 0
AllKnown nodes [] = Unit {0}
AllKnown nodes (child ∷ rest) = Known nodes child.id × AllKnown nodes rest

new_nodes-AllKnown :
    (children : List Child) (nodes : Dict Node) → AllKnown (new_nodes children nodes) children
unfolding new_nodes AllKnown
new_nodes-AllKnown [] nodes = tt
new_nodes-AllKnown (child ∷ rest) nodes =
    (new_nodes-Known rest _ child.id (inserted-Known child.id _ nodes), new_nodes-AllKnown rest _)

pub record Sound (p : Placed) : Type 0 where
  pub roots : (id : String) → contains id p.roots ≡ true → Known p.nodes id
  pub below :
      (parent id : String) → contains id (children_of p.nodes parent) ≡ true → Known p.nodes id

one_more :
    (id other : String) (xs : List String)
    → contains other (xs ++ id ∷ []) ≡ true
    → (contains other xs ≡ true) ⊎ (id ≡ other)
unfolding contains
one_more id other xs m =
    let split : (contains other xs || (id == other || false)) ≡ true =
      sym (contains-append other xs (id ∷ [])) ∙ m in
    elim (Bool-cases (id == other)) [
      | inl same ↦ inr ((==_iff id other).0 same)
      | inr apart ↦ inl (ground arith)
    ]

at_root-Sound :
    (p : Placed) (id : String)
    → Known p.nodes id
    → Sound p
    → Sound (record p { roots = p.roots ++ id ∷ [] })
at_root-Sound p id known h = record {
  roots = λ other m. elim (one_more id other p.roots m) [
    | inl old ↦ h.roots other old
    | inr new ↦ subst (Known p.nodes) new known
  ];
  below = h.below;
}

added_in :
    (id other : String) (o : Option Node)
    → contains other (children_in (Option_map (add_child id) o)) ≡ true
    → (contains other (children_in o) ≡ true) ⊎ (id ≡ other)
unfolding children_in
added_in id other none m = inl m
added_in id other (some node) m = one_more id other node.children_ids m

added_child :
    (parent id key other : String) (nodes : Dict Node)
    → contains other (children_of (change parent (add_child id) nodes) key) ≡ true
    → (contains other (children_of nodes key) ≡ true) ⊎ (id ≡ other)
unfolding children_of
added_child parent id key other nodes m = elim (Bool-cases (parent == key)) [
  | inl same ↦
      let changed : lookup key (change parent (add_child id) nodes)
          ≡ Option_map (add_child id) (lookup key nodes) =
        rw (lookup-change, same) refl in
      added_in id other (lookup key nodes) (rw changed at m)
  | inr apart ↦
      let kept : lookup key (change parent (add_child id) nodes) ≡ lookup key nodes =
        rw (lookup-change, apart) refl in
      inl (rw kept at m)
]

below_parent-Sound :
    (p : Placed) (parent id : String)
    → Known p.nodes id
    → Sound p
    → Sound (record p { nodes = change parent (add_child id) p.nodes })
below_parent-Sound p parent id known h = record {
  roots = λ other m. change-Known parent other (add_child id) p.nodes ∙ h.roots other m;
  below = λ key other m.
      change-Known parent other (add_child id) p.nodes
      ∙ elim (added_child parent id key other p.nodes m) [
        | inl old ↦ h.below key other old
        | inr new ↦ subst (Known p.nodes) new known
      ];
}

place_as-Sound :
    (parent : Option String) (p : Placed) (root id : String)
    → Known p.nodes id
    → Sound p
    → Sound (place_as parent p root id)
unfolding place_as
place_as-Sound none p root id known h = at_root-Sound p id known h
place_as-Sound (some parent) p root id known h =
    elim (Bool-cases (not (parent == root) && is_some (lookup parent p.nodes))) [
      | inl there ↦ rw there (below_parent-Sound p parent id known h)
      | inr apart ↦ rw apart (at_root-Sound p id known h)
    ]

place_as-Known :
    (parent : Option String) (p : Placed) (root id other : String)
    → Known p.nodes other
    → Known (place_as parent p root id).nodes other
unfolding place_as
place_as-Known none p root id other h = h
place_as-Known (some parent) p root id other h =
    elim (Bool-cases (not (parent == root) && is_some (lookup parent p.nodes))) [
      | inl there ↦ rw there (change-Known parent other (add_child id) p.nodes ∙ h)
      | inr apart ↦ rw apart h
    ]

place_as-AllKnown :
    (parent : Option String) (p : Placed) (root id : String) (children : List Child)
    → AllKnown p.nodes children
    → AllKnown (place_as parent p root id).nodes children
unfolding AllKnown
place_as-AllKnown parent p root id [] h = tt
place_as-AllKnown parent p root id (child ∷ rest) (known, h) =
    (place_as-Known parent p root id child.id known, place_as-AllKnown parent p root id rest h)

place_all-Sound :
    (root : String) (children : List Child) (p : Placed)
    → AllKnown p.nodes children
    → Sound p
    → Sound (place_all root children p)
unfolding place_all AllKnown
place_all-Sound root [] p known h = h
place_all-Sound root (child ∷ rest) p (known, all) h =
    place_all-Sound root rest _
      (place_as-AllKnown (truthy? child.parent_id) p root child.id rest all)
      (place_as-Sound (truthy? child.parent_id) p root child.id known h)

inserted_childless :
    (child : Child) (nodes : Dict Node)
    → ((id : String) → children_of nodes id ≡ [])
    → (id : String)
    → children_of
        (insert child.id (record { child = child; depth = 1; children_ids = [] }) nodes)
        id
      ≡ []
unfolding children_of children_in
inserted_childless child nodes h id =
    rw lookup-insert
      (elim (Bool-cases (child.id == id)) [ inl same ↦ rw same refl | inr apart ↦ rw apart (h id) ])

childless :
    (children : List Child) (nodes : Dict Node)
    → ((id : String) → children_of nodes id ≡ [])
    → (id : String) → children_of (new_nodes children nodes) id ≡ []
unfolding new_nodes
childless [] nodes h id = h id
childless (child ∷ rest) nodes h id = childless rest _ (inserted_childless child nodes h) id

none_held : (id : String) (l : List String) → l ≡ [] → contains id l ≡ true → ⊥
unfolding contains
none_held id l e m = let m' : contains id [] ≡ true = rw e at m in absurd (cc)

start-Sound : (children : List Child) → Sound (record { nodes = new_nodes children []; roots = [] })
unfolding contains children_of children_in lookup
start-Sound children = record {
  roots = λ id m. absurd (cc);
  below = λ parent id m. absurd (
      none_held id (children_of (new_nodes children []) parent)
        (childless children [] (λ other. refl) parent) m);
}

pub placed-Sound : (root : String) (children : List Child) → Sound (placed root children)
unfolding placed
placed-Sound root children =
    place_all-Sound root children (record { nodes = new_nodes children []; roots = [] })
      (new_nodes-AllKnown children []) (start-Sound children)

-- An id that a chain reaches has a node.
pub Linked-Known : (p : Placed) (d : ℕ) (id : String) → Sound p → Linked p d id → Known p.nodes id
Linked-Known p zero id h link = absurd link
Linked-Known p (suc zero) id h link = h.roots id link
Linked-Known p (suc (suc d)) id h (parent, link, m) = h.below parent id m
