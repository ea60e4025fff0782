-- ===== src/Prelude/Indices.antt =====
-- Elements of a list found and changed by their index: `findIndex`, assignment and insertion.
use Prim.Native.Nat.{◌<◌, ℕ, zero, suc, ◌≤◌}
use mathlib.Core.Path.{◌≡◌, refl, ap}
use mathlib.Core.Logic.{◌≢◌}
use mathlib.Core.Bool.{Bool, true}
use mathlib.Core.List.{List, [], ◌∷◌, ◌++◌}
use mathlib.Core.Option.{Option, none, some}
use native.Mathlib.Omega.{arith}
use fleet_prime_agent.Prelude.Lists.{length, get_elem?}
use fleet_prime_agent.Prelude.Tests.{if◌then◌else◌}

-- An index in the tail, counted from the head.
abbrev pub raise : Option ℕ → Option ℕ
raise none = none
raise (some i) = some (suc i)

find_index-raise : (o : Option ℕ) → raise o ≢ some 0
find_index-raise none = λ e. cc
find_index-raise (some i) = λ e. cc

raise-suc : (o : Option ℕ) (i : ℕ) → raise o ≡ some (suc i) → o ≡ some i
raise-suc none i e = absurd (cc)
raise-suc (some j) i e = ground arith

raise-none : (o : Option ℕ) → raise o ≡ none → o ≡ none
raise-none none e = refl
raise-none (some j) e = absurd (cc)

module _ {ℓ} {A : Type ℓ} where
  abbrev pub modify : ℕ → (A → A) → List A → List A
  modify i f [] = []
  modify zero f (x ∷ xs) = f x ∷ xs
  modify (suc i) f (x ∷ xs) = x ∷ modify i f xs

  abbrev pub Option_map : (A → A) → Option A → Option A
  Option_map f none = none
  Option_map f (some a) = some (f a)

  pub get_elem?-modify_self :
      (i : ℕ) (f : A → A) (xs : List A)
      → get_elem? (modify i f xs) i ≡ Option_map f (get_elem? xs i)
  get_elem?-modify_self i f [] = refl
  get_elem?-modify_self zero f (x ∷ xs) = refl
  get_elem?-modify_self (suc i) f (x ∷ xs) = get_elem?-modify_self i f xs

  pub get_elem?-modify_ne :
      (i j : ℕ) (f : A → A) (xs : List A) → i ≢ j → get_elem? (modify i f xs) j ≡ get_elem? xs j
  get_elem?-modify_ne i j f [] h = refl
  get_elem?-modify_ne zero zero f (x ∷ xs) h = absurd (h refl)
  get_elem?-modify_ne zero (suc j) f (x ∷ xs) h = refl
  get_elem?-modify_ne (suc i) zero f (x ∷ xs) h = refl
  get_elem?-modify_ne (suc i) (suc j) f (x ∷ xs) h =
      get_elem?-modify_ne i j f xs (λ e. h (ap suc e))

  -- `findIndex`
  abbrev pub find_index : (A → Bool) → List A → Option ℕ
  find_index p [] = none
  find_index p (x ∷ xs) = if p x then some 0 else raise (find_index p xs)

  -- `[...xs.slice(0, i), x, ...xs.slice(i)]`
  abbrev pub insert_at : ℕ → A → List A → List A
  insert_at zero a xs = a ∷ xs
  insert_at (suc i) a [] = a ∷ []
  insert_at (suc i) a (x ∷ xs) = x ∷ insert_at i a xs

  pub modify_idem :
      (i : ℕ) (f : A → A) (xs : List A)
      → ((x : A) → f (f x) ≡ f x)
      → modify i f (modify i f xs) ≡ modify i f xs
  modify_idem i f [] h = refl
  modify_idem zero f (x ∷ xs) h = ap (λ y. y ∷ xs) (h x)
  modify_idem (suc i) f (x ∷ xs) h = ap (◌∷◌ x) (modify_idem i f xs h)

  -- The first element that passes still passes, and none before it does.
  pub find_index-modify :
      (p : A → Bool) (f : A → A) (xs : List A) (i : ℕ)
      → ((x : A) → p x ≡ true → p (f x) ≡ true)
      → find_index p xs ≡ some i
      → find_index p (modify i f xs) ≡ some i
  find_index-modify p f [] i h e = absurd (cc)
  find_index-modify p f (x ∷ xs) zero h e = ground (arith, h x, find_index-raise (find_index p xs))
  find_index-modify p f (x ∷ xs) (suc i) h e =
      ground (arith, h x, find_index-modify p f xs i h, raise-suc (find_index p xs) i)

  pub find_index-insert_at :
      (p : A → Bool) (a : A) (xs : List A) (i : ℕ)
      → i ≤ length xs
      → find_index p xs ≡ none
      → p a ≡ true
      → find_index p (insert_at i a xs) ≡ some i
  find_index-insert_at p a xs zero h e ha = rw ha
  find_index-insert_at p a [] (suc i) h e ha = absurd (omega arith)
  find_index-insert_at p a (x ∷ xs) (suc i) h e ha =
      ground (arith, find_index-insert_at p a xs i (omega arith), raise-none (find_index p xs))

  pub modify-insert_at :
      (f : A → A) (a : A) (xs : List A) (i : ℕ)
      → i ≤ length xs
      → modify i f (insert_at i a xs) ≡ insert_at i (f a) xs
  modify-insert_at f a xs zero h = refl
  modify-insert_at f a [] (suc i) h = absurd (omega arith)
  modify-insert_at f a (x ∷ xs) (suc i) h = ap (◌∷◌ x) (modify-insert_at f a xs i (omega arith))

  pub find_index-lt :
      (p : A → Bool) (xs : List A) (i : ℕ) → find_index p xs ≡ some i → i < length xs
  find_index-lt p [] i e = absurd (cc)
  find_index-lt p (x ∷ xs) zero e = omega arith
  find_index-lt p (x ∷ xs) (suc i) e =
      ground (arith, find_index-lt p xs i, raise-suc (find_index p xs) i)

  pub insert_at-length : (a : A) (xs : List A) → insert_at (length xs) a xs ≡ xs ++ a ∷ []
  insert_at-length a [] = refl
  insert_at-length a (x ∷ xs) = ap (◌∷◌ x) (insert_at-length a xs)
