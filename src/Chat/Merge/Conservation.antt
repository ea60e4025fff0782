-- ===== src/Chat/Merge/Conservation.antt =====
-- How many parts the merge has: those of the terminal, and those that are carried over.
use mathlib.Core.List.{reverse, reverse-cons}
use fleet_prime_agent.Prelude.{
  bit, ℕ, zero, suc, ◌+◌, ◌<◌, ◌≤◌, ◌≡◌, refl, ap, ◌∙◌, Bool, not, List, [], ◌∷◌, Option, none,
  some, arith, nat_eq, length, length-append, Option-cases, inl, inr,
}
use fleet_prime_agent.Chat.{Part}
use fleet_prime_agent.Chat.Merge.{
  take_from, partner, find_partner, pair_up, Insertions, parts_at, push_at, is_blank_text,
  settled_part, anchored, anchor, anchor_all, streamed_at, kept_part, emit,
  merge_streamed_parts_onto_terminal,
}

length-reverse : (parts : List Part) → length (reverse parts) ≡ length parts
length-reverse [] = refl
length-reverse (part ∷ parts) = omega (
  arith,
  length-reverse parts,
  length-append (reverse parts) (part ∷ []),
  ap length (reverse-cons part parts),
)

length-push_at :
    (j k : ℕ) (part : Part) (ins : Insertions)
    → length (parts_at k (push_at j part ins)) ≡ length (parts_at k ins) + bit (nat_eq j k)
unfolding parts_at push_at
length-push_at j k part [] = ground arith
length-push_at j k part ((i, parts) ∷ ins) =
    ground (arith, length-push_at j k part ins, length-append parts (part ∷ []))

-- How many parts are inserted before the terminal indices from `i` on, `n` of them, and at the end.
spread : ℕ → ℕ → Insertions → ℕ
spread i zero ins = length (parts_at i ins)
spread i (suc n) ins = length (parts_at i ins) + spread (i + 1) n ins

spread-push_at_before :
    (i n j : ℕ) (part : Part) (ins : Insertions)
    → j < i
    → spread i n (push_at j part ins) ≡ spread i n ins
unfolding spread
spread-push_at_before i zero j part ins h = ground (arith, length-push_at j i part ins)
spread-push_at_before i (suc n) j part ins h =
    ground (arith, length-push_at j i part ins, spread-push_at_before (i + 1) n j part ins)

spread-push_at :
    (i n j : ℕ) (part : Part) (ins : Insertions)
    → i ≤ j
    → j ≤ i + n
    → spread i n (push_at j part ins) ≡ spread i n ins + 1
unfolding spread
spread-push_at i zero j part ins h k = ground (arith, length-push_at j i part ins)
spread-push_at i (suc n) j part ins h k = ground (
  arith,
  length-push_at j i part ins,
  spread-push_at_before (i + 1) n j part ins,
  spread-push_at (i + 1) n j part ins,
)

length-emit :
    (i : ℕ) (pairs : List (Part × Option ℕ)) (ins : Insertions) (terminal : List Part)
    → length (emit i pairs ins terminal) ≡ length terminal + spread i (length terminal) ins
unfolding emit spread
length-emit i pairs ins [] = omega (arith, length-reverse (parts_at i ins))
length-emit i pairs ins (part ∷ terminal) = omega (
  arith,
  length-append (reverse (parts_at i ins))
      (kept_part part (streamed_at i pairs) ∷ emit (i + 1) pairs ins terminal),
  length-reverse (parts_at i ins),
  length-emit (i + 1) pairs ins terminal,
)

-- A pair that names a terminal index names one that exists.
abbrev InRange : ℕ → List (Part × Option ℕ) → Type 0
InRange size [] = Unit
InRange size ((part, none) ∷ pairs) = InRange size pairs
InRange size ((part, some i) ∷ pairs) = (i < size) × InRange size pairs

take_from-lt :
    (i : ℕ) (consumed : List ℕ) (matches : Part → Bool) (parts : List Part) (k : ℕ)
    → take_from i consumed matches parts ≡ some k
    → k < i + length parts
unfolding take_from
take_from-lt i consumed matches [] k e = absurd (cc)
take_from-lt i consumed matches (part ∷ parts) k e =
    ground (arith, take_from-lt (i + 1) consumed matches parts k)

find_partner-lt :
    (part : Part) (consumed : List ℕ) (terminal : List Part) (k : ℕ)
    → find_partner part consumed terminal ≡ some k
    → k < length terminal
unfolding find_partner
find_partner-lt part consumed terminal k e = elim (Option-cases (partner part)) [
  | inl missing ↦ absurd (ground (arith, missing))
  | inr (matches, found) ↦ ground (arith, found, take_from-lt 0 consumed matches terminal k)
]

pair_up-InRange :
    (streamed : List Part) (consumed : List ℕ) (terminal : List Part)
    → InRange (length terminal) (pair_up streamed consumed terminal)
unfolding pair_up
pair_up-InRange [] consumed terminal = tt
pair_up-InRange (part ∷ streamed) consumed terminal =
    elim (Option-cases (find_partner part consumed terminal)) [
      | inl missing ↦ rw missing (pair_up-InRange streamed consumed terminal)
      | inr (k, found) ↦ rw found (
        find_partner-lt part consumed terminal k found,
        pair_up-InRange streamed (k ∷ consumed) terminal,
      )
    ]

-- The streamed parts with no terminal part, blank texts left out.
abbrev pub carried_over : List (Part × Option ℕ) → ℕ
carried_over [] = 0
carried_over ((part, some i) ∷ pairs) = carried_over pairs
carried_over ((part, none) ∷ pairs) = bit (not (is_blank_text part)) + carried_over pairs

spread-nil : (i n : ℕ) → spread i n [] ≡ 0
unfolding spread parts_at
spread-nil i zero = refl
spread-nil i (suc n) = omega (arith, spread-nil (i + 1) n)

abbrev Next : ℕ → Option ℕ → Type 0
Next size none = Unit
Next size (some i) = i < size

spread-anchored :
    (size : ℕ) (part : Part) (next : Option ℕ) (ins : Insertions)
    → Next size next
    → spread 0 size (anchored next size part ins)
      ≡ bit (not (is_blank_text part)) + spread 0 size ins
unfolding anchored
spread-anchored size part none ins h =
    ground (arith, spread-push_at 0 size size (settled_part part) ins)
spread-anchored size part (some i) ins h =
    ground (arith, spread-push_at 0 size i (settled_part part) ins)

spread-anchor_all :
    (size : ℕ) (pairs : List (Part × Option ℕ))
    → InRange size pairs
    → Next size (anchor_all size pairs).0
      × (spread 0 size (anchor_all size pairs).1 ≡ carried_over pairs)
unfolding anchor_all anchor
spread-anchor_all size [] r = (tt, spread-nil 0 size)
spread-anchor_all size ((part, some i) ∷ pairs) r = (r.0, (spread-anchor_all size pairs r.1).1)
spread-anchor_all size ((part, none) ∷ pairs) r =
    let (next, count) = spread-anchor_all size pairs r in
    (
      next,
      spread-anchored size part (anchor_all size pairs).0 (anchor_all size pairs).1 next
          ∙ ap (λ n. bit (not (is_blank_text part)) + n) count,
    )

-- The merge has as many parts as the terminal, and one more for each streamed part that is carried
-- over.
pub length-merge :
    (streamed terminal : List Part)
    → length (merge_streamed_parts_onto_terminal streamed terminal)
      ≡ length terminal + carried_over (pair_up streamed [] terminal)
unfolding merge_streamed_parts_onto_terminal
length-merge streamed terminal =
    let pairs = pair_up streamed [] terminal in
    omega (
      arith,
      length-emit 0 pairs (anchor_all (length terminal) pairs).1 terminal,
      (spread-anchor_all (length terminal) pairs (pair_up-InRange streamed [] terminal)).1,
    )
