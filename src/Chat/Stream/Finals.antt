-- ===== src/Chat/Stream/Finals.antt =====
-- replaceOrAppendInFlight of web/app/src/components/chat/chat-stream-state.ts: where the final message of a turn
-- goes.
use fleet_prime_agent.Prelude.{
  ◌≡◌, refl, ap, ap₂, sym, ◌∙◌, String, Bool, true, false, not, ◌&&◌, ◌||◌, List, [], ◌∷◌, ◌++◌,
  map, Option, none, some, arith, ◌==◌, ==_refl, if◌then◌else◌, any, or_else, Bool-cases, inl, inr,
}
use mathlib.Core.Path.{subst}
use fleet_prime_agent.Prelude.Text.{truthy?}
use fleet_prime_agent.Chat.{Role, user, assistant, ChatMessage}
use fleet_prime_agent.Chat.Parts.{strip_as, strip_legacy_thinking_parts}
use fleet_prime_agent.Chat.InFlight.{
  is_user, has_id, is_assistant_with, replace_message, replace_or_append_message, place_in_flight,
  in_flight, donor_for, replace_or_append_in_flight, carry_from, carry_forward,
}
use fleet_prime_agent.Chat.Merge.{has_unmatched_carried_part}
use fleet_prime_agent.Chat.Stream.Users.{of_user, user_or_assistant}

-- The final message is shown, and the messages of the user are as they were.
abbrev pub Shows : String → List ChatMessage → List ChatMessage → Type 0
Shows id before after = (any (is_assistant_with id) after ≡ true) × (of_user after ≡ of_user before)

or-true : (a : Bool) {b : Bool} → b ≡ true → (a || b) ≡ true
or-true true h = refl
or-true false h = h

-- No message of the user passes the test for a bubble.
bubble_free :
    (id : String) (ms : List ChatMessage) → any (is_assistant_with id) (of_user ms) ≡ false
bubble_free id [] = refl
bubble_free id (m ∷ ms) = elim (Bool-cases (is_user m)) [
  | inl of_it ↦ rw (of_it, user_or_assistant id m of_it) (bubble_free id ms)
  | inr other ↦ rw other (bubble_free id ms)
]

module _ (next : ChatMessage) (mine : next.role ≡ assistant) where
  is_next : is_assistant_with next.id next ≡ true
  is_next = rw (==_refl next.id, mine) refl

  not_user : is_user next ≡ false
  not_user = rw mine refl

  append-Shows : (ms : List ChatMessage) → Shows next.id ms (ms ++ next ∷ [])
  append-Shows [] = (rw is_next refl, rw not_user refl)
  append-Shows (m ∷ ms) = let (there, same) = append-Shows ms in (ground arith, ground arith)

  -- A test that no message of the user passes picks the messages that give way.
  swap-of_user :
      (p : ChatMessage → Bool) (ms : List ChatMessage)
      → any p (of_user ms) ≡ false
      → of_user (map (λ m. if p m then next else m) ms) ≡ of_user ms
  swap-of_user p [] free = refl
  swap-of_user p (m ∷ ms) free = elim (Bool-cases (p m)) [
    | inl picked ↦ elim (Bool-cases (is_user m)) [
      | inl of_it ↦ absurd (ground arith)
      | inr other ↦ rw (picked, not_user, other) (swap-of_user p ms (rw other at free))
    ]
    | inr left ↦ elim (Bool-cases (is_user m)) [
      | inl of_it ↦ rw (left, of_it) (ap (◌∷◌ m) (swap-of_user p ms (ground arith)))
      | inr other ↦ rw (left, other) (swap-of_user p ms (rw other at free))
    ]
  ]

  swap-shows :
      (p : ChatMessage → Bool) (ms : List ChatMessage)
      → any p ms ≡ true
      → any (is_assistant_with next.id) (map (λ m. if p m then next else m) ms) ≡ true
  swap-shows p [] some_one = absurd (cc)
  swap-shows p (m ∷ ms) some_one = elim (Bool-cases (p m)) [
    | inl picked ↦ rw (picked, is_next) refl
    | inr left ↦
        rw left (or-true (is_assistant_with next.id m) (swap-shows p ms (rw left at some_one)))
  ]

  module _ (ms : List ChatMessage) (free : any (has_id next.id) (of_user ms) ≡ false) where
    replace_as-Shows : any (has_id next.id) ms ≡ true → Shows next.id ms (replace_message ms next)
    replace_as-Shows known =
        (swap-shows (has_id next.id) ms known, swap-of_user (has_id next.id) ms free)

    place_in_flight-Shows :
        (bubble : Option String) → Shows next.id ms (place_in_flight ms next bubble)
    unfolding place_in_flight
    place_in_flight-Shows none = append-Shows ms
    place_in_flight-Shows (some id) =
        elim (Bool-cases (not (id == next.id) && any (is_assistant_with id) ms)) [
          | inl there ↦ rw there (
            swap-shows (is_assistant_with id) ms (ground arith),
            swap-of_user (is_assistant_with id) ms (bubble_free id ms),
          )
          | inr nowhere ↦ rw nowhere (append-Shows ms)
        ]

    replace_or_append-Shows : Shows next.id ms (replace_or_append_message ms next)
    unfolding replace_or_append_message
    replace_or_append-Shows = elim (Bool-cases (any (has_id next.id) ms)) [
      | inl known ↦ rw known (replace_as-Shows known)
      | inr fresh ↦ rw fresh (append-Shows ms)
    ]

in_flight-Shows :
    (next : ChatMessage) (ms : List ChatMessage) (bubble : Option String)
    (donor : Option ChatMessage)
    → next.role ≡ assistant
    → any (has_id next.id) (of_user ms) ≡ false
    → Shows next.id ms (in_flight ms next bubble donor)
unfolding in_flight
in_flight-Shows next ms bubble (some donor) mine free =
    replace_or_append-Shows
      (record next { parts = donor.parts; created_at = or_else next.created_at donor.created_at })
      mine ms free
in_flight-Shows next ms bubble none mine free = elim (Bool-cases (any (has_id next.id) ms)) [
  | inl known ↦ rw known (replace_as-Shows next mine ms free known)
  | inr fresh ↦ rw fresh (place_in_flight-Shows next mine ms free bubble)
]

strip_as-of_user :
    (r : Role) (m : ChatMessage) (xs ys : List ChatMessage)
    → m.role ≡ r
    → of_user xs ≡ of_user ys
    → of_user (strip_as r m ∷ xs) ≡ of_user (m ∷ ys)
unfolding strip_as
strip_as-of_user user m xs ys e same =
    let of_it : is_user m ≡ true = rw e refl in rw of_it (ap (◌∷◌ m) same)
strip_as-of_user assistant m xs ys e same =
    let other : is_user m ≡ false = rw e refl in rw other same

strip_as-id :
    (r : Role) (m : ChatMessage) (id : String)
    → is_assistant_with id (strip_as r m) ≡ is_assistant_with id m
unfolding strip_as
strip_as-id user m id = refl
strip_as-id assistant m id = refl

-- Stripping keeps the messages of the user, and who says what.
strip-of_user : (ms : List ChatMessage) → of_user (map strip_legacy_thinking_parts ms) ≡ of_user ms
unfolding strip_legacy_thinking_parts
strip-of_user [] = refl
strip-of_user (m ∷ ms) =
    strip_as-of_user m.role m (map strip_legacy_thinking_parts ms) ms refl (strip-of_user ms)

strip-shows :
    (id : String) (ms : List ChatMessage)
    → any (is_assistant_with id) (map strip_legacy_thinking_parts ms)
      ≡ any (is_assistant_with id) ms
unfolding strip_legacy_thinking_parts
strip-shows id [] = refl
strip-shows id (m ∷ ms) = ap₂ (λ a b. a || b) (strip_as-id m.role m id) (strip-shows id ms)

strip_as-named :
    (r : Role) (m : ChatMessage) → ((strip_as r m).id ≡ m.id) × ((strip_as r m).role ≡ m.role)
unfolding strip_as
strip_as-named user m = (refl, refl)
strip_as-named assistant m = (refl, refl)

carry_from-named :
    (o : Option ChatMessage) (next : ChatMessage)
    → ((carry_from o next).id ≡ next.id) × ((carry_from o next).role ≡ next.role)
carry_from-named none next = (refl, refl)
carry_from-named (some donor) next =
    elim (Bool-cases (has_unmatched_carried_part donor.parts next.parts)) [
      | inl carries ↦ rw carries (refl, refl)
      | inr keeps ↦ rw keeps (refl, refl)
    ]

-- The message that a `done` frame completes.
abbrev pub final_of : ChatMessage → List ChatMessage → Option String → ChatMessage
final_of next ms bubble = carry_forward ms (strip_legacy_thinking_parts next) bubble

final_of-named :
    (next : ChatMessage) (ms : List ChatMessage) (bubble : Option String)
    → ((final_of next ms bubble).id ≡ next.id) × ((final_of next ms bubble).role ≡ next.role)
unfolding carry_forward strip_legacy_thinking_parts
final_of-named next ms bubble =
    let (named, plays) = strip_as-named next.role next in
    let (named', plays') = carry_from-named _ (strip_as next.role next) in
    (named' ∙ named, plays' ∙ plays)

pub final_of-Shows :
    (next : ChatMessage) (ms : List ChatMessage) (bubble : Option String)
    → next.role ≡ assistant
    → any (has_id next.id) (of_user ms) ≡ false
    → Shows next.id ms (
        map strip_legacy_thinking_parts
          (replace_or_append_in_flight ms (final_of next ms bubble) bubble))
unfolding replace_or_append_in_flight
final_of-Shows next ms bubble mine free =
    let final = final_of next ms bubble in
    let (named, plays) = final_of-named next ms bubble in
    let (there, same) =
      in_flight-Shows final ms (truthy? bubble) (donor_for ms final (truthy? bubble)) (plays ∙ mine)
        (subst (λ (id : String). any (has_id id) (of_user ms) ≡ false) (sym named) free) in
    let placed = in_flight ms final (truthy? bubble) (donor_for ms final (truthy? bubble)) in
    let there' : any (is_assistant_with next.id) placed ≡ true =
      subst (λ (id : String). any (is_assistant_with id) placed ≡ true) named there in
    (strip-shows next.id placed ∙ there', strip-of_user placed ∙ same)
