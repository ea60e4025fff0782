-- ===== src/Ring/Refinement.antt =====
-- The ring against the log: which window of the log it keeps, and what a replay returns.
use fleet_prime_agent.Prelude.{
  ℕ, suc, ◌+◌, ◌-◌, ◌≤◌, ◌≡◌, sym, ap, ap₂, ◌∙◌, String, true, false, List, [], ◌∷◌, ◌++◌, Option,
  none, some, refl, arith, ltb, length, drop, length-append, length-drop, drop-append, drop-drop,
  drop-nil, drop_past, Bool-cases, inl, inr, ◌⊎◌, List-cases, if◌then◌else◌, ◌||◌,
}
use mathlib.Core.Path.{subst}
use fleet_prime_agent.Ring.{
  RingBufferEntry, RingBuffer, new, decorated, trim, push, last_seq, latest_sequence, replay_from,
  replay_since, clear,
}
use fleet_prime_agent.Ring.Log.{
  number, length-number, number-append, drop-number, filter-number, last_seq-number,
}

module _ {ℓ} {E : Type ℓ} where
  -- The ring holds the newest `capacity` entries of the log, and its next number follows the log.
  pub record Refines (r : RingBuffer E) (log : List E) : Type ℓ where
    pub positive : 1 ≤ r.capacity
    pub next : r.next_seq ≡ 1 + length log
    pub window : r.entries ≡ drop (length log - r.capacity) (number 1 log)

  pub new-Refines : (capacity : ℕ) (uuid : String) → Refines (new {E = E} capacity uuid) []
  unfolding new
  new-Refines capacity uuid = record {
    positive = omega arith;
    next = omega arith;
    window = sym (drop-nil _);
  }

  trim-drop : (c : ℕ) (xs : List (RingBufferEntry E)) → trim c xs ≡ drop (length xs - c) xs
  unfolding trim
  trim-drop c xs = elim (Bool-cases (ltb c (length xs))) [
    | inl over ↦ rw over
    | inr fits ↦ let none_over : length xs - c ≡ 0 = ground arith in rw (fits, none_over)
  ]

  -- Appending to a window and trimming it is the window of the longer log.
  trim-window :
      (c n : ℕ) (xs : List (RingBufferEntry E)) (x : RingBufferEntry E)
      → length xs ≡ n
      → trim c (drop (n - c) xs ++ x ∷ []) ≡ drop (n + 1 - c) (xs ++ x ∷ [])
  trim-window c n xs x e =
      let whole = drop-append (n - c) xs (x ∷ []) (omega arith) in
      let size : length (drop (n - c) (xs ++ x ∷ [])) ≡ n + 1 - (n - c) =
        omega (arith, length-drop (n - c) (xs ++ x ∷ []), length-append xs (x ∷ [])) in
      rw
        (
          ← whole,
          trim-drop c (drop (n - c) (xs ++ x ∷ [])),
          size,
          drop-drop (n + 1 - (n - c) - c) (n - c) (xs ++ x ∷ []),
        )
        (ap (λ k. drop k (xs ++ x ∷ [])) (omega arith))

  -- A push appends the decorated event to the log.
  pub push-Refines :
      (r : RingBuffer E) (log : List E) (event : E) (decorate : Option (ℕ → String → E))
      → Refines r log
      → Refines
          (push r event decorate).0
          (log ++ decorated decorate event r.next_seq r.generation ∷ [])
  unfolding push
  push-Refines r log event decorate h = record {
    positive = h.positive;
    next =
        omega (
          arith,
          h.next,
          length-append log (decorated decorate event r.next_seq r.generation ∷ []),
        );
    window =
        rw (h.window, h.next, number-append 1 log _, length-append log _)
          (trim-window r.capacity (length log) (number 1 log)
            (record {
              seq = 1 + length log;
              event = decorated decorate event (1 + length log) r.generation;
            })
            (length-number 1 log));
  }

  pub clear-Refines :
      (r : RingBuffer E) (uuid : String) → 1 ≤ r.capacity → Refines (clear r uuid) []
  unfolding clear
  clear-Refines r uuid h = record { positive = h; next = omega arith; window = sym (drop-nil _) }

  -- The window of an empty log is empty; any other starts behind the numbers that were dropped.
  window_cases :
      (r : RingBuffer E) (log : List E)
      → Refines r log
      → ((length log ≡ 0) × (r.entries ≡ []))
        ⊎ ((y : E) × (ys : List E) × (r.entries ≡ number (suc (length log - r.capacity)) (y ∷ ys))
            × (suc (length log - r.capacity) + length ys ≡ length log))
  window_cases r log h = elim (List-cases (drop (length log - r.capacity) log)) [
    | inl gone ↦ inl (
      omega (arith, ap length gone, length-drop (length log - r.capacity) log, h.positive),
      h.window ∙ (rw (drop-number (length log - r.capacity) 1 log, gone)),
    )
    | inr (y, ys, kept) ↦ inr (
      y,
      ys,
      h.window ∙ drop-number (length log - r.capacity) 1 log ∙ ap₂ number (omega arith) kept,
      omega (arith, ap length kept, length-drop (length log - r.capacity) log),
    )
  ]

  pub latest_sequence-length :
      (r : RingBuffer E) (log : List E) → Refines r log → latest_sequence r ≡ length log
  unfolding latest_sequence last_seq
  latest_sequence-length r log h = elim (window_cases r log h) [
    | inl (zero_log, gone) ↦ rw gone (sym zero_log)
    | inr (y, ys, kept, size) ↦ rw kept (last_seq-number (length log - r.capacity) y ys ∙ size)
  ]

  replay_from-number :
      (k s : ℕ) (y : E) (ys : List E)
      → replay_from k (number (suc s) (y ∷ ys)) ≡ (
          if ltb k s
          then record { replayed = number (suc s) (y ∷ ys); overflowed = true }
          else record { replayed = drop (k - s) (number (suc s) (y ∷ ys)); overflowed = false })
  unfolding replay_from
  replay_from-number k s y ys =
      let same : suc s - 1 ≡ s = omega arith in
      let base : k + 1 - suc s ≡ k - s = omega arith in
      rw (same, filter-number k (suc s) (y ∷ ys), base)

  known_replay :
      (r : RingBuffer E) (log : List E) (k : ℕ)
      → Refines r log
      → ltb (length log) k ≡ false
      → replay_from k r.entries ≡ (
          if ltb k (length log - r.capacity)
          then record { replayed = r.entries; overflowed = true }
          else record { replayed = drop k (number 1 log); overflowed = false })
  unfolding replay_from
  known_replay r log k h known = elim (window_cases r log h) [
    | inl (zero_log, gone) ↦
        let within : ltb k (length log - r.capacity) ≡ false = ground arith in
        let past = drop_past k (number 1 log) (omega (arith, length-number 1 log)) in
        rw (gone, within, past)
    | inr (y, ys, kept, size) ↦ rw kept (
        replay_from-number k (length log - r.capacity) y ys
        ∙ (elim (Bool-cases (ltb k (length log - r.capacity))) [
          | inl lost ↦ rw lost
          | inr held ↦
              rw
                (
                  held,
                  ← kept,
                  h.window,
                  drop-drop (k - (length log - r.capacity)) (length log - r.capacity)
                      (number 1 log),
                )
                (ap (λ n. record { replayed = drop n (number 1 log); overflowed = false })
                  (ground arith))
        ]))
  ]

  -- A replay from sequence number k on a ring that refines a log of pushed events returns exactly
  -- the events after the k-th, unless k is beyond the log or some of those events were evicted;
  -- then it returns everything kept with the overflow flag set.
  pub replay_since-log :
      (r : RingBuffer E) (log : List E) (k : ℕ)
      → Refines r log
      → replay_since r k ≡ (
          if ltb (length log) k || ltb k (length log - r.capacity)
          then record { replayed = r.entries; overflowed = true }
          else record { replayed = drop k (number 1 log); overflowed = false })
  unfolding replay_since
  replay_since-log r log k h =
      rw (latest_sequence-length r log h) (elim (Bool-cases (ltb (length log) k)) [
        | inl ahead ↦ rw ahead
        | inr known ↦ rw known (known_replay r log k h known)
      ])

-- What a session does with its ring, as a sequence of calls; a push may decorate its event.
pub data Call {ℓ} (E : Type ℓ) : Type ℓ where
  pushes : E → Option (ℕ → String → E) → Call E
  clears : String → Call E

module _ {ℓ} {E : Type ℓ} where
  unfoldable pub run : RingBuffer E → List (Call E) → RingBuffer E
  run r [] = r
  run r (pushes event decorate ∷ calls) = run (push r event decorate).0 calls
  run r (clears uuid ∷ calls) = run (clear r uuid) calls

  -- What the log keeps of a push: the event as its decoration makes it from the number and the generation.
  abbrev pub logged : Option (ℕ → String → E) → E → ℕ → String → E
  logged none event number generation = event
  logged (some decorate) event number generation = decorate number generation

  -- The events pushed since the last clear, behind those of an earlier log, under a generation.
  unfoldable pub log_of : String → List E → List (Call E) → List E
  log_of generation log [] = log
  log_of generation log (pushes event decorate ∷ calls) =
      log_of generation (log ++ logged decorate event (1 + length log) generation ∷ []) calls
  log_of generation log (clears uuid ∷ calls) = log_of uuid [] calls

  decorated-logged :
      (decorate : Option (ℕ → String → E)) (event : E) (number : ℕ) (generation : String)
      → decorated decorate event number generation ≡ logged decorate event number generation
  unfolding decorated
  decorated-logged none event number generation = refl
  decorated-logged (some decorate) event number generation = refl

  push-logged-Refines :
      (r : RingBuffer E) (log : List E) (event : E) (decorate : Option (ℕ → String → E))
      → Refines r log
      → Refines
          (push r event decorate).0
          (log ++ logged decorate event (1 + length log) r.generation ∷ [])
  push-logged-Refines r log event decorate h =
      let same =
        decorated-logged decorate event r.next_seq r.generation
        ∙ ap (λ n. logged decorate event n r.generation) h.next in
      subst (λ (x : E). Refines (push r event decorate).0 (log ++ x ∷ [])) same
        (push-Refines r log event decorate h)

  run-Refines_from :
      (r : RingBuffer E) (log : List E) (calls : List (Call E))
      → Refines r log
      → Refines (run r calls) (log_of r.generation log calls)
  unfolding run log_of push clear
  run-Refines_from r log [] h = h
  run-Refines_from r log (pushes event decorate ∷ calls) h =
      run-Refines_from (push r event decorate).0
        (log ++ logged decorate event (1 + length log) r.generation ∷ []) calls
        (push-logged-Refines r log event decorate h)
  run-Refines_from r log (clears uuid ∷ calls) h =
      run-Refines_from (clear r uuid) [] calls (clear-Refines r uuid h.positive)

  -- After any sequence of pushes, decorated or not, and clears on a new ring, the ring holds the newest
  -- events pushed since the last clear, each as its decoration made it from its own number and the ring's
  -- generation, at most its capacity of them, numbered consecutively from 1, and its next number follows
  -- the log.
  pub run-Refines :
      (capacity : ℕ) (uuid : String) (calls : List (Call E))
      → Refines (run (new capacity uuid) calls) (log_of uuid [] calls)
  unfolding new
  run-Refines capacity uuid calls =
      run-Refines_from (new capacity uuid) [] calls (new-Refines capacity uuid)
