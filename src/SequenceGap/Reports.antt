-- ===== src/SequenceGap/Reports.antt =====
-- web/server/src/daemon-sequence-gap.ts: which frames report a gap.
use fleet_prime_agent.Prelude.{
  sym, ap, Bool-cases, leb, ◌≢◌, ◌⊎◌, Option, none, ◌+◌, ◌≤◌, ◌≡◌, refl, ◌∙◌, String, Bool, true,
  false, some, arith, inl, inr, Option-cases,
}
use fleet_prime_agent.Prelude.Dict.{lookup}
use fleet_prime_agent.Prelude.Json.{Value}
use fleet_prime_agent.SequenceGap.{
  Position, Positions, DaemonSequenceGap, View, ignored, unbinds, rebases, event, view,
  generations_agree, same_generation, gap_after, handle, observe,
}
use fleet_prime_agent.SequenceGap.Updates.{is_message_update, view-update}

-- What a gap says of the frame and of the position before it.
pub record Lost (positions : Positions) (frame : Value) (gap : DaemonSequenceGap) : Type 0 where
  pub current : Position
  pub previous : Position
  pub closes : Bool
  pub read : view frame ≡ event gap.active_session_id current closes false
  pub no_update : is_message_update frame ≡ false
  pub known : lookup gap.active_session_id positions ≡ some previous
  pub agree : generations_agree previous.generation current.generation ≡ true
  pub last : gap.last_sequence ≡ previous.sequence
  pub received : gap.received_sequence ≡ current.sequence
  pub between : gap.missing + 1 + previous.sequence ≡ current.sequence
  pub some_missing : 1 ≤ gap.missing

-- Why a frame reports nothing.
pub data Quiet (positions : Positions) (frame : Value) : Type 0 where
  update : is_message_update frame ≡ true → Quiet positions frame
  elsewhere :
      ((s : String) (c : Position) (closes u : Bool) → view frame ≢ event s c closes u)
      → Quiet positions frame
  unknown :
      (s : String) (c : Position) (closes u : Bool)
      → view frame ≡ event s c closes u
      → lookup s positions ≡ none
      → Quiet positions frame
  follows :
      (s : String) (c previous : Position) (closes u : Bool)
      → view frame ≡ event s c closes u
      → lookup s positions ≡ some previous
      → (generations_agree previous.generation c.generation ≡ false)
        ⊎ (c.sequence ≤ previous.sequence + 1)
      → Quiet positions frame

module _ (positions : Positions) (frame : Value) where
  -- The gap and why, or why there is none.
  abbrev Reported : Option DaemonSequenceGap → Type 0
  Reported o =
      ((gap : DaemonSequenceGap) × (o ≡ some gap) × Lost positions frame gap)
      ⊎ ((o ≡ none) × Quiet positions frame)

  lost-Reported :
      (s : String) (c previous : Position) (closes : Bool)
      → view frame ≡ event s c closes false
      → lookup s positions ≡ some previous
      → generations_agree previous.generation c.generation ≡ true
      → leb c.sequence (previous.sequence + 1) ≡ false
      → Reported (gap_after (some previous) s c false)
  unfolding gap_after same_generation
  lost-Reported s c previous closes e known agree far =
      rw (agree, far)
        (inl (
          _,
          refl,
          record {
            current = c;
            previous = previous;
            closes = closes;
            read = e;
            no_update = sym (view-update frame s c closes false e);
            known = known;
            agree = agree;
            last = refl;
            received = refl;
            between = ground arith;
            some_missing = ground arith;
          },
        ))

  quiet-Reported :
      (s : String) (c previous : Position) (closes u : Bool)
      → view frame ≡ event s c closes u
      → lookup s positions ≡ some previous
      → (u ≡ true)
        ⊎ ((generations_agree previous.generation c.generation ≡ false)
            ⊎ (leb c.sequence (previous.sequence + 1) ≡ true))
      → Reported (gap_after (some previous) s c u)
  unfolding gap_after same_generation
  quiet-Reported s c previous closes u e known (inl updates) =
      inr (ground arith, update (sym (view-update frame s c closes u e) ∙ updates))
  quiet-Reported s c previous closes u e known (inr (inl apart)) =
      inr (ground arith, follows s c previous closes u e known (inl apart))
  quiet-Reported s c previous closes u e known (inr (inr near)) =
      inr (ground arith, follows s c previous closes u e known (inr (ground arith)))

  event-Reported :
      (s : String) (c : Position) (closes u : Bool)
      → view frame ≡ event s c closes u
      → Reported (gap_after (lookup s positions) s c u)
  unfolding gap_after
  event-Reported s c closes u e = elim (Option-cases (lookup s positions)) [
    | inl missing ↦ rw missing (inr (refl, unknown s c closes u e missing))
    | inr (previous, known) ↦ rw known (elim (Bool-cases u) [
      | inl updates ↦ quiet-Reported s c previous closes u e known (inl updates)
      | inr plain ↦ elim (Bool-cases (generations_agree previous.generation c.generation)) [
        | inr apart ↦ quiet-Reported s c previous closes u e known (inr (inl apart))
        | inl agree ↦ elim (Bool-cases (leb c.sequence (previous.sequence + 1))) [
          | inl near ↦ quiet-Reported s c previous closes u e known (inr (inr near))
          | inr far ↦
              rw plain (
                lost-Reported s c previous closes (e ∙ ap (event s c closes) plain) known agree far)
        ]
      ]
    ])
  ]

  handle-Reported : (v : View) → view frame ≡ v → Reported (handle positions v).1
  unfolding handle
  handle-Reported ignored e = inr (refl, elsewhere (λ s c closes u k. cc))
  handle-Reported (unbinds s) e = inr (refl, elsewhere (λ t c closes u k. cc))
  handle-Reported (rebases s p) e = inr (refl, elsewhere (λ t c closes u k. cc))
  handle-Reported (event s c closes u) e = event-Reported s c closes u e

-- A frame reports a gap exactly where it is no message_update and names a session whose position is known,
-- in the same generation or one that is not known, with a sequence beyond the next one: the gap names that
-- session and the two sequences on its sides, and counts those between, of which there is at least one.
pub observe-Reported :
    (positions : Positions) (frame : Value)
    → ((gap : DaemonSequenceGap) × ((observe positions frame).1 ≡ some gap)
        × Lost positions frame gap)
      ⊎ (((observe positions frame).1 ≡ none) × Quiet positions frame)
unfolding observe
observe-Reported positions frame = handle-Reported positions frame (view frame) refl
