-- ===== src/Chat/Stream/Echo.antt =====
-- How the server's copy of a message of the user replaces the optimistic one.
use fleet_prime_agent.Prelude.{
  ℕ, ◌≡◌, refl, ap, sym, Bool, ◌&&◌, List, [], ◌∷◌, ◌++◌, Option, none, some, or_else, modify,
  find_index, raise, any, Bool-cases, inl, inr, ◌⊎◌, false, true,
}
use mathlib.Core.Path.{subst}
use fleet_prime_agent.Chat.{Role, user, ChatMessage, Transition, message}
use fleet_prime_agent.Chat.InFlight.{is_user, has_id}
use fleet_prime_agent.Chat.Stream.{
  adopt, user_at, apply_user_message, apply_message, apply_message_as, apply_chat_stream_event,
}

abbrev pub is_pending : ChatMessage → Bool
is_pending m = is_user m && m.optimistic

-- The first message that passes, with those before it and after it.
pub record First (p : ChatMessage → Bool) (ms : List ChatMessage) : Type 0 where
  pub before : List ChatMessage
  pub current : ChatMessage
  pub after : List ChatMessage
  pub whole : ms ≡ before ++ current ∷ after
  pub none_before : any p before ≡ false
  pub passes : p current ≡ true

-- The message of the event stands where the first that passes stood, under its id.
abbrev pub TakesPlace :
    ChatMessage → (p : ChatMessage → Bool) (ms : List ChatMessage) → List ChatMessage → Type 0
TakesPlace next p ms result =
    (f : First p ms) × (result ≡ f.before ++ record next { id = f.current.id } ∷ f.after)

abbrev Placed : ChatMessage → (p : ChatMessage → Bool) (ms : List ChatMessage) → Option ℕ → Type 0
Placed next p ms none = any p ms ≡ false
Placed next p ms (some i) = TakesPlace next p ms (modify i (adopt next) ms)

Placed-raise :
    (next : ChatMessage) (p : ChatMessage → Bool) (m : ChatMessage) (ms : List ChatMessage)
    (at : Option ℕ)
    → p m ≡ false
    → Placed next p ms at
    → Placed next p (m ∷ ms) (raise at)
Placed-raise next p m ms none off h = rw off h
Placed-raise next p m ms (some i) off (f, e) = (
  record {
    before = m ∷ f.before;
    current = f.current;
    after = f.after;
    whole = ap (◌∷◌ m) f.whole;
    none_before = rw off f.none_before;
    passes = f.passes;
  },
  ap (◌∷◌ m) e,
)

find_index-Placed :
    (next : ChatMessage) (p : ChatMessage → Bool) (ms : List ChatMessage)
    → Placed next p ms (find_index p ms)
unfolding adopt
find_index-Placed next p [] = refl
find_index-Placed next p (m ∷ ms) = elim (Bool-cases (p m)) [
  | inl here ↦ rw here (
    record {
      before = [];
      current = m;
      after = ms;
      whole = refl;
      none_before = refl;
      passes = here;
    },
    refl,
  )
  | inr off ↦ rw off (Placed-raise next p m ms (find_index p ms) off (find_index-Placed next p ms))
]

-- What a message of the user makes of the transcript.
abbrev pub Echoed : ChatMessage → List ChatMessage → List ChatMessage → Type 0
Echoed next ms result =
    TakesPlace next (has_id next.id) ms result
    ⊎ ((any (has_id next.id) ms ≡ false) × TakesPlace next is_pending ms result)
    ⊎ ((any (has_id next.id) ms ≡ false) × (any is_pending ms ≡ false) × (result ≡ ms ++ next ∷ []))

user_at-Echoed :
    (next : ChatMessage) (ms : List ChatMessage) (known pending : Option ℕ)
    → Placed next (has_id next.id) ms known
    → Placed next is_pending ms pending
    → Echoed next ms (user_at ms next (or_else known pending))
unfolding user_at
user_at-Echoed next ms (some i) pending h k = inl h
user_at-Echoed next ms none (some i) h k = inr (inl (h, k))
user_at-Echoed next ms none none h k = inr (inr (h, k, refl))

-- A message of the user that arrives takes the place of the first message with its id; where there is none,
-- that of the first optimistic message of the user, under the id that the transcript shows already; and only
-- where there is neither is it appended. All other messages stay, in their order.
pub apply-Echoed :
    (t : Transition) (next : ChatMessage) (now : ℕ)
    → next.role ≡ user
    → Echoed next t.snapshot.messages
        (apply_chat_stream_event t (message next) now).snapshot.messages
unfolding apply_chat_stream_event apply_message apply_message_as apply_user_message
apply-Echoed t next now mine =
    let ms : List ChatMessage = t.snapshot.messages in
    subst (λ (r : Role). Echoed next ms (apply_message_as r t next now).snapshot.messages)
      (sym mine)
      (user_at-Echoed next ms (find_index (has_id next.id) ms) (find_index is_pending ms)
        (find_index-Placed next (has_id next.id) ms) (find_index-Placed next is_pending ms))
