-- ===== src/Chat/Reasoning/Episodes.antt =====
-- At most one episode of a content index streams at a time.
use fleet_prime_agent.Prelude.{
  bit, ℕ, zero, suc, ◌&&◌, ◌+◌, ◌≤◌, ◌≡◌, refl, sym, ap, Bool, true, false, List, [], ◌∷◌, Option,
  none, some, arith, nat_eq, if◌then◌else◌, length, modify, insert_at, get_elem?, Option-cases,
  Bool-cases, inl, inr, find_index,
}
use fleet_prime_agent.Chat.{Part, reasoning, ReasoningPart, ReasoningText, Phase, starts, ends}
use fleet_prime_agent.Chat.Reasoning.{
  is_streaming, is_streaming_at, last_index, target, existing_at, opens_new_episode, new_part,
  is_empty_text, insert_before, place, already_ended, reasoning_change, reasoning_parts,
}

-- How many episodes of a content index are streaming.
abbrev pub live_episodes : ℕ → List Part → ℕ
live_episodes c [] = 0
live_episodes c (part ∷ parts) = bit (is_streaming_at c part) + live_episodes c parts

live-insert_at :
    (c i : ℕ) (part : Part) (parts : List Part)
    → live_episodes c (insert_at i part parts)
      ≡ bit (is_streaming_at c part) + live_episodes c parts
live-insert_at c zero part parts = refl
live-insert_at c (suc i) part [] = refl
live-insert_at c (suc i) part (x ∷ parts) = omega (arith, live-insert_at c i part parts)

live-insert_before :
    (c : ℕ) (o : Option ℕ) (part : Part) (parts : List Part)
    → live_episodes c (insert_before o part parts)
      ≡ bit (is_streaming_at c part) + live_episodes c parts
unfolding insert_before
live-insert_before c none part parts = live-insert_at c (length parts) part parts
live-insert_before c (some i) part parts = live-insert_at c i part parts

-- A replacement counts the new part instead of the old one.
live-modify :
    (c i : ℕ) (part old : Part) (parts : List Part)
    → get_elem? parts i ≡ some old
    → live_episodes c (modify i (λ _. part) parts) + bit (is_streaming_at c old)
      ≡ bit (is_streaming_at c part) + live_episodes c parts
live-modify c i part old [] e = absurd (cc)
live-modify c zero part old (x ∷ parts) e =
    let same : x ≡ old = ground arith in rw same (omega arith)
live-modify c (suc i) part old (x ∷ parts) e = omega (arith, live-modify c i part old parts e)

last_index-none :
    (c : ℕ) (parts : List Part)
    → last_index (is_streaming_at c) parts ≡ none
    → live_episodes c parts ≡ 0
unfolding last_index
last_index-none c [] e = refl
last_index-none c (x ∷ parts) e = ground (arith, last_index-none c parts)

-- The index that the loop finds holds an element that passes.
last_index-some :
    (p : Part → Bool) (parts : List Part) (i : ℕ)
    → last_index p parts ≡ some i
    → (old : Part) × (get_elem? parts i ≡ some old) × (p old ≡ true)
unfolding last_index
last_index-some p [] i e = absurd (cc)
last_index-some p (x ∷ parts) i e = elim (Option-cases (last_index p parts)) [
  | inl missing ↦ elim (Bool-cases (p x)) [
    | inl here ↦ let first : i ≡ 0 = ground arith in (x, rw first, here)
    | inr gone ↦ absurd (ground arith)
  ]
  | inr (j, found) ↦
      let (old, at, passes) = last_index-some p parts j found in
      let later : i ≡ suc j = ground arith in (old, rw later at, passes)
]

live-modify-le :
    (c i : ℕ) (part : Part) (parts : List Part)
    → live_episodes c (modify i (λ _. part) parts)
      ≤ bit (is_streaming_at c part) + live_episodes c parts
live-modify-le c i part [] = omega arith
live-modify-le c zero part (x ∷ parts) = omega arith
live-modify-le c (suc i) part (x ∷ parts) = omega (arith, live-modify-le c i part parts)

live-place-le :
    (c : ℕ) (o : Option ℕ) (opens : Bool) (part : Part) (parts : List Part)
    → live_episodes c (place o opens part parts)
      ≤ bit (is_streaming_at c part) + live_episodes c parts
unfolding place
live-place-le c none opens part parts =
    omega (arith, live-insert_before c (find_index is_empty_text parts) part parts)
live-place-le c (some i) true part parts =
    omega (arith, live-insert_before c (find_index is_empty_text parts) part parts)
live-place-le c (some i) false part parts = live-modify-le c i part parts

bit-le : (b : Bool) → bit b ≤ 1
bit-le true = omega arith
bit-le false = omega arith

already_ended_live :
    (phase : Phase) (existing : Option ReasoningPart) (i : ℕ)
    → already_ended phase existing (some i) ≡ false
unfolding already_ended
already_ended_live ends existing i = refl
already_ended_live _ existing i = refl

opens_live :
    (phase : Phase) (r : ReasoningPart)
    → is_streaming r.state ≡ true
    → opens_new_episode phase (some r) ≡ false
unfolding opens_new_episode
opens_live starts r e = rw e
opens_live _ r e = refl

-- A live episode is replaced in its place.
reasoning_parts_live :
    (event : ReasoningText) (parts : List Part) (i : ℕ)
    → last_index (is_streaming_at event.content_index) parts ≡ some i
    → (r : ReasoningPart) × (get_elem? parts i ≡ some (reasoning r))
      × (is_streaming_at event.content_index (reasoning r) ≡ true)
      × (reasoning_parts event parts
          ≡ modify i (λ _. reasoning (new_part event false (some r))) parts)
unfolding reasoning_parts reasoning_change place target existing_at is_streaming_at
reasoning_parts_live event parts i found =
    let (old, at, streams) = last_index-some (is_streaming_at event.content_index) parts i found in
    by_old old at streams
  where
    by_old :
        (old : Part)
        → get_elem? parts i ≡ some old
        → is_streaming_at event.content_index old ≡ true
        → (r : ReasoningPart) × (get_elem? parts i ≡ some (reasoning r))
          × (is_streaming_at event.content_index (reasoning r) ≡ true)
          × (reasoning_parts event parts
              ≡ modify i (λ _. reasoning (new_part event false (some r))) parts)
    by_old (reasoning r) at streams = (
      r,
      at,
      streams,
      rw (
        found,
        at,
        already_ended_live event.phase (some r) i,
        opens_live event.phase r (ground arith),
      ),
    )
    by_old _ at streams = absurd (cc)

bit-and-le : (a b : Bool) → bit (a && b) ≤ bit a
bit-and-le true b = bit-le b
bit-and-le false b = omega arith

live-branch-le :
    (c n : ℕ) (b : Bool) (xs ys : List Part)
    → live_episodes c xs ≤ n
    → live_episodes c ys ≤ n
    → live_episodes c (if b then xs else ys) ≤ n
live-branch-le c n true xs ys h k = h
live-branch-le c n false xs ys h k = k

new_part-bit :
    (c : ℕ) (event : ReasoningText) (opens : Bool) (existing : Option ReasoningPart)
    → bit (is_streaming_at c (reasoning (new_part event opens existing)))
      ≤ bit (nat_eq event.content_index c)
unfolding new_part is_streaming_at
new_part-bit c event opens existing = bit-and-le (nat_eq event.content_index c) _

live-place_new-le :
    (c : ℕ) (o : Option ℕ) (event : ReasoningText) (opens : Bool) (existing : Option ReasoningPart)
    (parts : List Part)
    → live_episodes c (place o opens (reasoning (new_part event opens existing)) parts)
      ≤ bit (nat_eq event.content_index c) + live_episodes c parts
live-place_new-le c o event opens existing parts = omega (
  arith,
  live-place-le c o opens (reasoning (new_part event opens existing)) parts,
  new_part-bit c event opens existing,
)

live-reasoning_change-le :
    (c : ℕ) (event : ReasoningText) (live index : Option ℕ) (existing : Option ReasoningPart)
    (parts : List Part)
    → live_episodes c (reasoning_change event live index existing parts)
      ≤ bit (nat_eq event.content_index c) + live_episodes c parts
unfolding reasoning_change
live-reasoning_change-le c event live index existing parts =
    live-branch-le c (bit (nat_eq event.content_index c) + live_episodes c parts)
      (already_ended event.phase existing live) parts
      (place index (opens_new_episode event.phase existing)
        (reasoning (new_part event (opens_new_episode event.phase existing) existing)) parts)
      (omega arith)
      (live-place_new-le c index event (opens_new_episode event.phase existing) existing parts)

reasoning_parts-le :
    (c : ℕ) (event : ReasoningText) (parts : List Part)
    → live_episodes c (reasoning_parts event parts)
      ≤ bit (nat_eq event.content_index c) + live_episodes c parts
unfolding reasoning_parts
reasoning_parts-le c event parts = live-reasoning_change-le c event _ _ _ parts

-- Whatever reasoning frame arrives, if at most one episode of a content index was streaming, at most
-- one is afterwards.
pub reasoning_parts_one_live :
    (c : ℕ) (event : ReasoningText) (parts : List Part)
    → live_episodes c parts ≤ 1
    → live_episodes c (reasoning_parts event parts) ≤ 1
reasoning_parts_one_live c event parts h = elim (Bool-cases (nat_eq event.content_index c)) [
  | inr other ↦ omega (arith, reasoning_parts-le c event parts, ap bit other)
  | inl same ↦ elim (Option-cases (last_index (is_streaming_at event.content_index) parts)) [
    | inl missing ↦
        let index : event.content_index ≡ c = ground arith in
        let idle = last_index-none event.content_index parts missing in
        omega (
          arith,
          reasoning_parts-le c event parts,
          bit-le (nat_eq event.content_index c),
          ap (λ n. live_episodes n parts) (sym index),
          idle,
        )
    | inr (i, found) ↦
        let index : event.content_index ≡ c = ground arith in
        let (r, at, streams, replaced) = reasoning_parts_live event parts i found in
        let part : Part = reasoning (new_part event false (some r)) in
        let streams' : is_streaming_at c (reasoning r) ≡ true = rw (← index) streams in
        rw replaced (
          omega (
            arith,
            live-modify c i part (reasoning r) parts at,
            ap bit streams',
            bit-le (is_streaming_at c part),
          ))
  ]
]
