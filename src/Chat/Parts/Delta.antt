-- ===== src/Chat/Parts/Delta.antt =====
-- Streamed text: the deltas of a message add up to its text.
use package.text.Mathlib.TextLemmas.{append_assoc, append-nil}
use fleet_prime_agent.Prelude.{
  ℕ, ◌≡◌, refl, sym, ap, ◌∙◌, String, List, [], ◌∷◌, Option, none, some, find_index, raise, ◌⊎◌,
  inl, inr, any, false, ◌++◌,
}
use fleet_prime_agent.Prelude.Text.{◌<>◌}
use mathlib.Core.Path.{subst}
use fleet_prime_agent.Chat.{Part, text}
use fleet_prime_agent.Chat.Parts.{is_text_part, add_text, append_at, append_text_part}

abbrev pub joined : List String → String
joined [] = ""
joined (d ∷ ds) = d <> joined ds

abbrev pub append_all : List Part → List String → List Part
append_all parts [] = parts
append_all parts (d ∷ ds) = append_all (append_text_part parts d) ds

append_at-raise :
    (o : Option ℕ) (part : Part) (parts : List Part) (d : String)
    → append_at (raise o) (part ∷ parts) d ≡ part ∷ append_at o parts d
unfolding append_at
append_at-raise none part parts d = refl
append_at-raise (some i) part parts d = refl

-- The text part that takes the deltas, or none, and the parts around it.
abbrev pub Grows : List Part → String → List Part → Type 0
Grows parts added result =
    ((before : List Part) × (t : String) × (after : List Part) × (any is_text_part before ≡ false)
      × (parts ≡ before ++ text t ∷ after)
      × (result ≡ before ++ text (t <> added) ∷ after))
    ⊎ ((any is_text_part parts ≡ false) × (result ≡ parts ++ text added ∷ []))

Grows-behind :
    (x : Part) (parts : List Part) (d : String) (result : List Part)
    → is_text_part x ≡ false
    → Grows parts d result
    → Grows (x ∷ parts) d (x ∷ result)
Grows-behind x parts d result other (inl (before, t, after, free, e, r)) =
    inl (x ∷ before, t, after, rw other free, ap (◌∷◌ x) e, ap (◌∷◌ x) r)
Grows-behind x parts d result other (inr (free, r)) = inr (rw other free, ap (◌∷◌ x) r)

append_text_part-Grows : (parts : List Part) (d : String) → Grows parts d (append_text_part parts d)
unfolding append_text_part append_at add_text
append_text_part-Grows [] d = inr (refl, refl)
append_text_part-Grows (text t ∷ parts) d = inl ([], t, parts, refl, refl, refl)
append_text_part-Grows (x ∷ parts) d =
    subst (Grows (x ∷ parts) d) (sym (append_at-raise (find_index is_text_part parts) x parts d))
      (Grows-behind x parts d _ refl (append_text_part-Grows parts d))

append_behind :
    (before after : List Part) (t d : String)
    → any is_text_part before ≡ false
    → append_text_part (before ++ text t ∷ after) d ≡ before ++ text (t <> d) ∷ after
unfolding append_text_part append_at add_text
append_behind [] after t d free = refl
append_behind (text u ∷ before) after t d free = absurd (cc)
append_behind (x ∷ before) after t d free =
    append_at-raise (find_index is_text_part (before ++ text t ∷ after)) x
      (before ++ text t ∷ after) d
    ∙ ap (◌∷◌ x) (append_behind before after t d free)

append_all_behind :
    (before after : List Part) (t : String) (ds : List String)
    → any is_text_part before ≡ false
    → append_all (before ++ text t ∷ after) ds ≡ before ++ text (t <> joined ds) ∷ after
append_all_behind before after t [] free = ap (λ u. before ++ text u ∷ after) (sym (append-nil t))
append_all_behind before after t (d ∷ ds) free =
    ap (λ parts. append_all parts ds) (append_behind before after t d free)
    ∙ append_all_behind before after (t <> d) ds free
    ∙ ap (λ u. before ++ text u ∷ after) (append_assoc t d (joined ds))

-- After a run of one delta or more, the first text part of the message is as it was, followed by the deltas in
-- order, or, where there was none, a text part of the deltas stands behind the other parts; every other part,
-- a further text part included, is as it was, in its place.
pub append_all-Grows :
    (parts : List Part) (d : String) (ds : List String)
    → Grows parts (joined (d ∷ ds)) (append_all parts (d ∷ ds))
append_all-Grows parts d ds = elim (append_text_part-Grows parts d) [
  | inl (before, t, after, free, e, r) ↦ inl (
    before,
    t,
    after,
    free,
    e,
    ap (λ q. append_all q ds) r
        ∙ append_all_behind before after (t <> d) ds free
        ∙ ap (λ u. before ++ text u ∷ after) (append_assoc t d (joined ds)),
  )
  | inr (free, r) ↦ inr (free, ap (λ q. append_all q ds) r ∙ append_all_behind parts [] d ds free)
]
