-- ===== src/EventMapper/Rlm/Queues.antt =====
-- web/server/src/event-mapper.ts: the depths of the items in the queue of the walk.
use fleet_prime_agent.Prelude.{
  ℕ, suc, ◌≤◌, ◌≡◌, String, true, List, [], ◌∷◌, ◌++◌, arith, ◌==◌, ==_iff, Bool-cases, ◌⊎◌, inl,
  inr,
}
use fleet_prime_agent.EventMapper.Rlm.{contains, at_depth}

-- An item of the id at this depth or a smaller one.
abbrev pub Within : ℕ → String → List (String × ℕ) → Type 0
Within k id [] = ⊥
Within k id ((other, d) ∷ rest) = ((other ≡ id) × (d ≤ k)) ⊎ Within k id rest

abbrev pub AllFrom : ℕ → List (String × ℕ) → Type 0
AllFrom lo [] = Unit {0}
AllFrom lo ((id, d) ∷ rest) = (lo ≤ d) × AllFrom lo rest

abbrev pub AllTo : ℕ → List (String × ℕ) → Type 0
AllTo hi [] = Unit {0}
AllTo hi ((id, d) ∷ rest) = (d ≤ hi) × AllTo hi rest

-- The depths grow along the queue, from the first to at most one more.
abbrev pub Rising : List (String × ℕ) → Type 0
Rising [] = Unit {0}
Rising ((id, d) ∷ rest) = AllFrom d rest × AllTo (suc d) rest × Rising rest

pub Within-left :
    (k : ℕ) (id : String) (xs ys : List (String × ℕ)) → Within k id xs → Within k id (xs ++ ys)
Within-left k id [] ys h = absurd h
Within-left k id ((other, d) ∷ xs) ys (inl h) = inl h
Within-left k id ((other, d) ∷ xs) ys (inr h) = inr (Within-left k id xs ys h)

pub Within-right :
    (k : ℕ) (id : String) (xs ys : List (String × ℕ)) → Within k id ys → Within k id (xs ++ ys)
Within-right k id [] ys h = h
Within-right k id ((other, d) ∷ xs) ys h = inr (Within-right k id xs ys h)

pub Within-at_depth :
    (k : ℕ) (id : String) (names : List String)
    → contains id names ≡ true
    → Within k id (at_depth k names)
unfolding contains at_depth
Within-at_depth k id [] m = absurd (cc)
Within-at_depth k id (name ∷ rest) m = elim (Bool-cases (name == id)) [
  | inl same ↦ inl ((==_iff name id).0 same, omega arith)
  | inr apart ↦ inr (Within-at_depth k id rest (ground arith))
]

pub AllFrom-append :
    (lo : ℕ) (xs ys : List (String × ℕ)) → AllFrom lo xs → AllFrom lo ys → AllFrom lo (xs ++ ys)
AllFrom-append lo [] ys h k = k
AllFrom-append lo ((id, d) ∷ xs) ys (a, h) k = (a, AllFrom-append lo xs ys h k)

AllTo-append :
    (hi : ℕ) (xs ys : List (String × ℕ)) → AllTo hi xs → AllTo hi ys → AllTo hi (xs ++ ys)
AllTo-append hi [] ys h k = k
AllTo-append hi ((id, d) ∷ xs) ys (a, h) k = (a, AllTo-append hi xs ys h k)

pub AllFrom-at_depth : (lo d : ℕ) (names : List String) → lo ≤ d → AllFrom lo (at_depth d names)
unfolding at_depth
AllFrom-at_depth lo d [] h = tt
AllFrom-at_depth lo d (name ∷ rest) h = (h, AllFrom-at_depth lo d rest h)

AllTo-at_depth : (hi d : ℕ) (names : List String) → d ≤ hi → AllTo hi (at_depth d names)
unfolding at_depth
AllTo-at_depth hi d [] h = tt
AllTo-at_depth hi d (name ∷ rest) h = (h, AllTo-at_depth hi d rest h)

pub Rising-at_depth : (d : ℕ) (names : List String) → Rising (at_depth d names)
unfolding at_depth
Rising-at_depth d [] = tt
Rising-at_depth d (name ∷ rest) = (
  AllFrom-at_depth d d rest (omega arith),
  AllTo-at_depth (suc d) d rest (omega arith),
  Rising-at_depth d rest,
)

-- Items at a depth that no item passes, and that is at most one above each, may join the queue.
pub Rising-append :
    (k : ℕ) (xs : List (String × ℕ)) (names : List String)
    → AllFrom k xs
    → AllTo (suc k) xs
    → Rising xs
    → Rising (xs ++ at_depth (suc k) names)
Rising-append k [] names from to h = Rising-at_depth (suc k) names
Rising-append k ((id, d) ∷ xs) names (lo, from) (hi, to) (low, high, h) = (
  AllFrom-append d xs _ low (AllFrom-at_depth d (suc k) names hi),
  AllTo-append (suc d) xs _ high (AllTo-at_depth (suc d) (suc k) names (omega arith)),
  Rising-append k xs names from to h,
)
