-- ===== src/Ring/Log.antt =====
-- The abstract view of a ring: every event pushed since the last clear, numbered from 1.
use fleet_prime_agent.Prelude.{
  Bool-cases, inl, inr, drop-nil, sym, ℕ, zero, suc, ◌+◌, ◌-◌, ◌≡◌, refl, ap, ◌∙◌, List, [], ◌∷◌,
  ◌++◌, arith, ltb, length, drop, filter, last?,
}
use fleet_prime_agent.Ring.{RingBufferEntry, last_seq}

module _ {ℓ} {E : Type ℓ} where
  abbrev pub number : ℕ → List E → List (RingBufferEntry E)
  number s [] = []
  number s (x ∷ xs) = record { seq = s; event = x } ∷ number (s + 1) xs

  pub length-number : (s : ℕ) (xs : List E) → length (number s xs) ≡ length xs
  length-number s [] = refl
  length-number s (x ∷ xs) = ap suc (length-number (s + 1) xs)

  pub number-append :
      (s : ℕ) (xs : List E) (x : E)
      → number s (xs ++ x ∷ []) ≡ number s xs ++ record { seq = s + length xs; event = x } ∷ []
  number-append s [] x = ground arith
  number-append s (y ∷ xs) x = ground (arith, number-append (s + 1) xs x)

  pub drop-number : (n s : ℕ) (xs : List E) → drop n (number s xs) ≡ number (s + n) (drop n xs)
  drop-number zero s xs = ap (λ k. number k xs) (omega arith)
  drop-number (suc n) s [] = refl
  drop-number (suc n) s (x ∷ xs) =
      drop-number n (s + 1) xs ∙ ap (λ k. number k (drop n xs)) (omega arith)

  -- Filtering by the sequence number drops a prefix.
  pub filter-number :
      (k s : ℕ) (xs : List E)
      → filter (λ entry. ltb k entry.seq) (number s xs) ≡ drop (k + 1 - s) (number s xs)
  filter-number k s [] = sym (drop-nil (k + 1 - s))
  filter-number k s (x ∷ xs) = elim (Bool-cases (ltb k s)) [
    | inl above ↦
        let here : k + 1 - s ≡ 0 = ground arith in
        let there : k + 1 - (s + 1) ≡ 0 = ground arith in
        rw (above, here, filter-number k (s + 1) xs, there)
    | inr below ↦
        let here : k + 1 - s ≡ suc (k + 1 - (s + 1)) = ground arith in
        rw (below, here) (filter-number k (s + 1) xs)
  ]

  pub last_seq-number :
      (s : ℕ) (x : E) (xs : List E) → last_seq (last? (number (suc s) (x ∷ xs))) ≡ suc s + length xs
  unfolding last_seq
  last_seq-number s x [] = omega arith
  last_seq-number s x (y ∷ xs) = ground (arith, last_seq-number (suc s) y xs)
