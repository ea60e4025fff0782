-- ===== src/Prelude/Dict.antt =====
-- A JavaScript `Map` with text keys: an association list in insertion order, where writing a key
-- that is there keeps its place and deleting a key removes it.
use mathlib.Core.Path.{◌≡◌, refl}
use mathlib.Core.Logic.{◌⊎◌, inl, inr}
use mathlib.Core.List.{List, [], ◌∷◌}
use mathlib.Core.Option.{Option, none, some}
use Prim.Native.String.{String}
use native.Mathlib.Omega.{arith}
use fleet_prime_agent.Prelude.Tests.{◌==◌, ==_iff, if◌then◌else◌, Bool-cases}

abbrev pub Dict {ℓ} : Type ℓ → Type ℓ
Dict V = List (String × V)

module _ {ℓ} {V : Type ℓ} where
  unfoldable pub lookup : String → Dict V → Option V
  lookup key [] = none
  lookup key ((name, value) ∷ rest) = if name == key then some value else lookup key rest

  unfoldable pub insert : String → V → Dict V → Dict V
  insert key new [] = (key, new) ∷ []
  insert key new ((name, value) ∷ rest) =
      if name == key then (name, new) ∷ rest else (name, value) ∷ insert key new rest

  unfoldable pub delete : String → Dict V → Dict V
  delete key [] = []
  delete key ((name, value) ∷ rest) =
      if name == key then delete key rest else (name, value) ∷ delete key rest

  unfoldable pub values : Dict V → List V
  values [] = []
  values ((name, value) ∷ rest) = value ∷ values rest

  pub lookup-insert :
      (key asked : String) (new : V) (dict : Dict V)
      → lookup asked (insert key new dict) ≡ (if key == asked then some new else lookup asked dict)
  unfolding lookup insert
  lookup-insert key asked new [] = refl
  lookup-insert key asked new ((name, value) ∷ rest) = ground (
    arith,
    lookup-insert key asked new rest,
    ==_iff name key,
    ==_iff name asked,
    ==_iff key asked,
  )

  pub lookup-delete :
      (key asked : String) (dict : Dict V)
      → lookup asked (delete key dict) ≡ (if key == asked then none else lookup asked dict)
  unfolding lookup delete
  lookup-delete key asked [] = ground arith
  lookup-delete key asked ((name, value) ∷ rest) =
      ground
        (arith, lookup-delete key asked rest, ==_iff name key, ==_iff name asked, ==_iff key asked)

-- Membership by recursion.
abbrev pub In : {A : Type 0} → A → List A → Type 0
In a [] = ⊥
In a (x ∷ xs) = (x ≡ a) ⊎ In a xs

pub lookup-In :
    {V : Type 0} (k : String) {v : V} (m : Dict V) → lookup k m ≡ some v → In v (values m)
unfolding lookup values
lookup-In k [] h = cc
lookup-In k ((j, w) ∷ m) h = elim (Bool-cases (j == k)) [
  | inl here ↦ inl (ground arith)
  | inr there ↦ inr (lookup-In k m (ground arith))
]
