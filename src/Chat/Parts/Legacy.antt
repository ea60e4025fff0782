-- ===== src/Chat/Parts/Legacy.antt =====
-- The parts with raw thinking that older adapters left, and the messages without them.
use fleet_prime_agent.Prelude.{◌≡◌, refl, Bool, true, not, List, [], ◌∷◌, map, arith, all, filter}
use fleet_prime_agent.Chat.{Part, Role, user, assistant, ChatMessage}
use fleet_prime_agent.Chat.Parts.{is_legacy_thinking, strip_as, strip_legacy_thinking_parts}

-- A message of the assistant shows no raw thinking.
abbrev pub is_clean : ChatMessage → Bool
is_clean m = elim m.role [
  | user ↦ true
  | assistant ↦ all (λ part. not (is_legacy_thinking part)) m.parts
]

all-filter : (p : Part → Bool) (parts : List Part) → all p (filter p parts) ≡ true
all-filter p [] = refl
all-filter p (x ∷ parts) = ground (arith, all-filter p parts)

is_clean-strip_as :
    (role : Role) (m : ChatMessage) → m.role ≡ role → is_clean (strip_as role m) ≡ true
unfolding strip_as
is_clean-strip_as user m e = rw e refl
is_clean-strip_as assistant m e = rw e (all-filter (λ part. not (is_legacy_thinking part)) m.parts)

pub all_clean-strip :
    (ms : List ChatMessage) → all is_clean (map strip_legacy_thinking_parts ms) ≡ true
unfolding strip_legacy_thinking_parts
all_clean-strip [] = refl
all_clean-strip (m ∷ ms) = rw (is_clean-strip_as m.role m refl) (all_clean-strip ms)
