-- ===== src/DaemonSocket/Counts.antt =====
-- How often a key stands in a list of entries, and an id in a list of ids; web/server/src/daemon-socket-client.ts
-- keeps its requests and timers in such lists.
use fleet_prime_agent.Prelude.{
  ℕ, ◌+◌, ◌≤◌, ◌≡◌, String, List, [], ◌∷◌, ◌++◌, some, arith, ◌==◌, ==_iff, if◌then◌else◌, bit,
}
use fleet_prime_agent.Prelude.Dict.{Dict, lookup, insert, delete}

module _ {ℓ} {V : Type ℓ} where
  unfoldable pub count : String → List (String × V) → ℕ
  count id [] = 0
  count id ((key, value) ∷ rest) = bit (key == id) + count id rest

  pub count-append :
      (id : String) (xs ys : List (String × V)) → count id (xs ++ ys) ≡ count id xs + count id ys
  unfolding count
  count-append id [] ys = omega arith
  count-append id ((key, value) ∷ xs) ys = omega (arith, count-append id xs ys)

  -- A new key stands in the entries once more.
  pub count-insert :
      (id key : String) (value : V) (entries : Dict V)
      → count key entries ≡ 0
      → count id (insert key value entries) ≡ count id entries + bit (key == id)
  unfolding count insert
  count-insert id key value [] h = omega arith
  count-insert id key value ((k, v) ∷ rest) h =
      ground (arith, count-insert id key value rest, ==_iff k key)

  pub count-delete :
      (id key : String) (entries : Dict V)
      → count id (delete key entries) ≡ (if key == id then 0 else count id entries)
  unfolding count delete
  count-delete id key [] = ground arith
  count-delete id key ((k, v) ∷ rest) =
      ground (arith, count-delete id key rest, ==_iff k key, ==_iff k id, ==_iff key id)

  pub lookup-counted :
      (key : String) (entries : Dict V) (value : V)
      → lookup key entries ≡ some value
      → 1 ≤ count key entries
  unfolding count lookup
  lookup-counted key [] value h = absurd (cc)
  lookup-counted key ((k, v) ∷ rest) value h = ground (arith, lookup-counted key rest value)

unfoldable pub times : String → List String → ℕ
times id [] = 0
times id (key ∷ rest) = bit (key == id) + times id rest

pub times-append :
    (id : String) (xs ys : List String) → times id (xs ++ ys) ≡ times id xs + times id ys
unfolding times
times-append id [] ys = omega arith
times-append id (key ∷ xs) ys = omega (arith, times-append id xs ys)
