-- ===== src/Prelude/NatMap.antt =====
-- A JavaScript `Map` and a `Set` with numbers as keys: lists in insertion order, where writing a key
-- that is there keeps its place. `member` also tests a list of numbers as a `Set` does.
use Prim.Native.Nat.{ℕ}
use mathlib.Core.Path.{◌≡◌, refl}
use mathlib.Core.Logic.{◌≢◌}
use mathlib.Core.Bool.{Bool, true, false, ◌||◌}
use mathlib.Core.List.{List, [], ◌∷◌, ◌++◌}
use mathlib.Core.Option.{Option, none, some}
use native.Mathlib.Omega.{arith}
use fleet_prime_agent.Prelude.Tests.{nat_eq, if◌then◌else◌}

abbrev pub NatMap {ℓ} : Type ℓ → Type ℓ
NatMap V = List (ℕ × V)

unfoldable pub member : ℕ → List ℕ → Bool
member n [] = false
member n (m ∷ ms) = nat_eq m n || member n ms

-- `set.add(n)`
unfoldable pub add : ℕ → List ℕ → List ℕ
unfolding member
add n ms = if member n ms then ms else ms ++ n ∷ []

unfoldable pub without : ℕ → List ℕ → List ℕ
without n [] = []
without n (m ∷ ms) = let rest = without n ms in if nat_eq m n then rest else m ∷ rest

module _ {ℓ} {V : Type ℓ} where
  unfoldable pub get : ℕ → NatMap V → Option V
  get key [] = none
  get key ((k, value) ∷ rest) = if nat_eq k key then some value else get key rest

  unfoldable pub set : ℕ → V → NatMap V → NatMap V
  set key new [] = (key, new) ∷ []
  set key new ((k, value) ∷ rest) =
      if nat_eq k key then (k, new) ∷ rest else (k, value) ∷ set key new rest

  unfoldable pub remove : ℕ → NatMap V → NatMap V
  remove key [] = []
  remove key ((k, value) ∷ rest) =
      let others = remove key rest in if nat_eq k key then others else (k, value) ∷ others

  -- The key that was written first last: `[...map.keys()].at(-1)`.
  unfoldable pub last_key : NatMap V → Option ℕ
  last_key [] = none
  last_key ((k, value) ∷ []) = some k
  last_key ((k, value) ∷ next ∷ rest) = last_key (next ∷ rest)

  pub set-absent :
      (key : ℕ) (new : V) (entries : NatMap V)
      → get key entries ≡ none
      → set key new entries ≡ entries ++ (key, new) ∷ []
  unfolding get set
  set-absent key new [] h = refl
  set-absent key new ((k, value) ∷ rest) h = ground (arith, set-absent key new rest)

  pub get-set_self :
      (key : ℕ) (new : V) (entries : NatMap V) → get key (set key new entries) ≡ some new
  unfolding get set
  get-set_self key new [] = ground arith
  get-set_self key new ((k, value) ∷ rest) = ground (arith, get-set_self key new rest)

  pub get-remove_self : (key : ℕ) (entries : NatMap V) → get key (remove key entries) ≡ none
  unfolding get remove
  get-remove_self key [] = refl
  get-remove_self key ((k, value) ∷ rest) = ground (arith, get-remove_self key rest)

  pub remove-set_absent :
      (key : ℕ) (new : V) (entries : NatMap V)
      → get key entries ≡ none
      → remove key (set key new entries) ≡ entries
  unfolding get set remove
  remove-set_absent key new [] h = ground arith
  remove-set_absent key new ((k, value) ∷ rest) h = ground (arith, remove-set_absent key new rest)

  pub remove-absent :
      (key : ℕ) (entries : NatMap V) → get key entries ≡ none → remove key entries ≡ entries
  unfolding get remove
  remove-absent key [] h = refl
  remove-absent key ((k, value) ∷ rest) h = ground (arith, remove-absent key rest)

pub member-append : (n : ℕ) (xs ys : List ℕ) → member n (xs ++ ys) ≡ (member n xs || member n ys)
unfolding member
member-append n [] ys = refl
member-append n (x ∷ xs) ys = ground (arith, member-append n xs ys)

pub member-add : (n m : ℕ) (xs : List ℕ) → member n (add m xs) ≡ (nat_eq m n || member n xs)
unfolding add member
member-add n m xs = ground (arith, member-append n xs (m ∷ []))

pub member-without :
    (n m : ℕ) (xs : List ℕ) → m ≢ n → member n xs ≡ true → member n (without m xs) ≡ true
unfolding member without
member-without n m [] d h = h
member-without n m (x ∷ xs) d h = ground (arith, member-without n m xs d)

pub member-without_old :
    (n m : ℕ) (xs : List ℕ) → member n (without m xs) ≡ true → member n xs ≡ true
unfolding member without
member-without_old n m [] h = h
member-without_old n m (x ∷ xs) h = ground (arith, member-without_old n m xs)
