-- ===== src/Chat/Merge/Woven.antt =====
-- mergeStreamedPartsOntoTerminal of web/app/src/components/chat/chat-stream-state.ts: what the merge makes of
-- each part, the terminal's own and those that were streamed.
use fleet_prime_agent.Prelude.{
  ℕ, ◌≡◌, Bool, true, false, ◌⊎◌, List, [], ◌∷◌, Option, none, some, String,
}
use fleet_prime_agent.Prelude.Text.{is_blank}
use fleet_prime_agent.Chat.{Part, text, reasoning, complete}
use fleet_prime_agent.Chat.Merge.{Insertions}

abbrev pub In : Part → List Part → Type 0
In p [] = ⊥
In p (q ∷ parts) = (q ≡ p) ⊎ In p parts

-- How a part of the terminal is kept: reasoning may be completed, and a blank text may give way to a text that
-- was streamed and is not blank; every other part is kept as it is.
abbrev pub Keeps : List Part → Part → Part → Type 0
Keeps streamed (reasoning r) kept =
    (kept ≡ reasoning r) ⊎ (kept ≡ reasoning (record r { state = complete }))
Keeps streamed (text t) kept =
    (kept ≡ text t)
    ⊎ ((is_blank t ≡ true)
        × ((s : String) × In (text s) streamed × (is_blank s ≡ false) × (kept ≡ text s)))
Keeps streamed part kept = kept ≡ part

-- How a part that was streamed is carried over: its reasoning is completed.
abbrev pub completed_part : Part → Part
completed_part (reasoning r) = reasoning (record r { state = complete })
completed_part part = part

abbrev pub blank : Part → Bool
blank (text t) = is_blank t
blank part = false

abbrev pub Carried : List Part → Part → Type 0
Carried streamed part = (q : Part) × In q streamed × (blank q ≡ false) × (part ≡ completed_part q)

-- The terminal's parts in their order, each kept, with parts that were streamed between them.
pub data Woven (streamed : List Part) : List Part → List Part → Type 0 where
  ends : Woven streamed [] []
  keeps :
      {part kept : Part} {terminal merged : List Part}
      → Keeps streamed part kept
      → Woven streamed terminal merged
      → Woven streamed (part ∷ terminal) (kept ∷ merged)
  carries :
      {part : Part} {terminal merged : List Part}
      → Carried streamed part
      → Woven streamed terminal merged
      → Woven streamed terminal (part ∷ merged)

module _ (streamed : List Part) where
  abbrev AllCarried : List Part → Type 0
  AllCarried [] = Unit {0}
  AllCarried (part ∷ parts) = Carried streamed part × AllCarried parts

  abbrev Inserts : Insertions → Type 0
  Inserts [] = Unit {0}
  Inserts ((i, parts) ∷ ins) = AllCarried parts × Inserts ins

  -- The pairs are about parts that were streamed.
  abbrev Paired : List (Part × Option ℕ) → Type 0
  Paired [] = Unit {0}
  Paired ((part, i) ∷ pairs) = In part streamed × Paired pairs

  abbrev Taken : Option Part → Type 0
  Taken none = Unit {0}
  Taken (some part) = In part streamed
