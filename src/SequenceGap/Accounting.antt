-- ===== src/SequenceGap/Accounting.antt =====
-- The gaps of a run of frames against the sequence numbers that the session used up.
use fleet_prime_agent.Prelude.{
  ℕ, ◌+◌, ◌<◌, ◌≡◌, refl, String, true, false, List, [], ◌∷◌, Option, none, some, arith, ltb,
  ==_refl, length,
}
use fleet_prime_agent.Prelude.Dict.{lookup, lookup-insert}
use fleet_prime_agent.Prelude.Json.{Value}
use fleet_prime_agent.SequenceGap.{
  Position, Positions, DaemonSequenceGap, event, view, generations_agree, same_generation, moves_on,
  track, gap_after, handle, observe, observe_all,
}

abbrev pub at : Option String → ℕ → Position
at g n = record { generation = g; sequence = n }

generations_agree_self : (g : Option String) → generations_agree g g ≡ true
unfolding generations_agree
generations_agree_self none = refl
generations_agree_self (some g) = ==_refl g

-- Direct frames of session `s` in generation `g` whose sequences rise from `b` to `l`: none closes
-- the session and none is a `message_update`.
abbrev pub Rising : String → Option String → ℕ → List Value → ℕ → Type 0
Rising s g b [] l = b ≡ l
Rising s g b (frame ∷ frames) l =
    (n : ℕ) × (view frame ≡ event s (at g n) false false) × (b < n) × Rising s g n frames l

-- How many sequences the gaps report as missing.
abbrev pub total_missing : List DaemonSequenceGap → ℕ
total_missing [] = 0
total_missing (gap ∷ gaps) = gap.missing + total_missing gaps

abbrev missing_of : Option DaemonSequenceGap → ℕ
missing_of none = 0
missing_of (some gap) = gap.missing

module _ (s : String) (g : Option String) where
  -- A direct frame that moves a session on from `b` to `n` reports the `n - b - 1` between them.
  observe_rising :
      (positions : Positions) (frame : Value) (b n : ℕ)
      → lookup s positions ≡ some (at g b)
      → view frame ≡ event s (at g n) false false
      → b < n
      → (lookup s (observe positions frame).0 ≡ some (at g n))
        × (missing_of (observe positions frame).1 + 1 + b ≡ n)
  unfolding observe handle track gap_after moves_on same_generation
  observe_rising positions frame b n known seen rises =
      let agree = generations_agree_self g in
      let on : ltb b n ≡ true = ground arith in
      (
        rw (seen, known, agree, on, lookup-insert s s (at g n) positions, ==_refl s),
        rw (seen, known, agree) (ground arith),
      )

  missing-cons :
      (gap : Option DaemonSequenceGap) (gaps : List DaemonSequenceGap)
      → total_missing (elim gap [ none ↦ gaps | some x ↦ x ∷ gaps ])
        ≡ missing_of gap + total_missing gaps
  missing-cons none gaps = omega arith
  missing-cons (some x) gaps = refl

  -- Over a run of direct frames of one session in one generation, whose sequences rise from the
  -- known b to l, the frames seen and the sequences reported missing add up to the l - b sequences
  -- used, and the tracked position ends at l.
  pub observe_all_accounts :
      (positions : Positions) (frames : List Value) (b l : ℕ)
      → lookup s positions ≡ some (at g b)
      → Rising s g b frames l
      → (lookup s (observe_all positions frames).0 ≡ some (at g l))
        × (total_missing (observe_all positions frames).1 + length frames + b ≡ l)
  unfolding observe_all
  observe_all_accounts positions [] b l known rising = (rw (← rising) known, omega arith)
  observe_all_accounts positions (frame ∷ frames) b l known (n, seen, rises, rest) =
      let (known', counted) = observe_rising positions frame b n known seen rises in
      let (end, total) = observe_all_accounts (observe positions frame).0 frames n l known' rest in
      (
        end,
        omega (
          arith,
          missing-cons (observe positions frame).1
              (observe_all (observe positions frame).0 frames).1,
        ),
      )
