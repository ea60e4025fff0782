-- ===== src/Prelude/Text/Decimals.antt =====
-- A number is read back from its decimal numeral, so two numbers do not share one.
use Prim.Native.Nat.{ℕ, zero, suc, ◌+◌, ◌*◌, ◌%◌, ◌/◌, ◌-◌, ◌<◌}
use Prim.Native.Char.{code}
use Prim.Native.String.{String}
use mathlib.Core.Path.{◌≡◌, refl, sym, ap, ◌∙◌}
use mathlib.Core.Logic.{inl, inr}
use native.Mathlib.Omega.{arith}
use fleet_prime_agent.Prelude.Tests.{leb, Bool-cases}
use fleet_prime_agent.Prelude.Text.{decimal, decimal_from, digit}

-- The number that digits spell behind a number.
pub read_from : String → ℕ → ℕ
read_from String.[] n = n
read_from (String.◌∷◌ c s) n = read_from s (10 * n + (code c - 48))

read_from-digit :
    (d : ℕ) (s : String) (n : ℕ)
    → d < 10
    → read_from (String.◌∷◌ (digit d) s) n ≡ read_from s (10 * n + d)
unfolding read_from digit
read_from-digit zero s n h = refl
read_from-digit (suc zero) s n h = refl
read_from-digit (suc (suc zero)) s n h = refl
read_from-digit (suc (suc (suc zero))) s n h = refl
read_from-digit (suc (suc (suc (suc zero)))) s n h = refl
read_from-digit (suc (suc (suc (suc (suc zero))))) s n h = refl
read_from-digit (suc (suc (suc (suc (suc (suc zero)))))) s n h = refl
read_from-digit (suc (suc (suc (suc (suc (suc (suc zero))))))) s n h = refl
read_from-digit (suc (suc (suc (suc (suc (suc (suc (suc zero)))))))) s n h = refl
read_from-digit (suc (suc (suc (suc (suc (suc (suc (suc (suc zero))))))))) s n h = refl
read_from-digit (suc (suc (suc (suc (suc (suc (suc (suc (suc (suc n')))))))))) s n h =
    absurd (omega arith)

-- A numeral spells its number behind whatever digits come after it, with a step for each digit.
read_from-decimal_from :
    (fuel n : ℕ) (behind : String)
    → n < fuel
    → read_from (decimal_from fuel n behind) 0 ≡ read_from behind n
unfolding decimal_from
read_from-decimal_from zero n behind h = absurd (omega arith)
read_from-decimal_from (suc fuel) n behind h = elim (Bool-cases (leb n 9)) [
  | inl last ↦
      let small : n % 10 ≡ n = ground arith in
      rw last
        (read_from-digit (n % 10) behind 0 (omega arith) ∙ ap (read_from behind) (omega arith))
  | inr more ↦
      let here = String.◌∷◌ (digit (n % 10)) behind in
      rw more (
        read_from-decimal_from fuel (n / 10) here (ground arith)
        ∙ read_from-digit (n % 10) behind (n / 10) (omega arith)
        ∙ ap (read_from behind) (omega arith))
]

pub read_from-decimal : (n : ℕ) → read_from (decimal n) 0 ≡ n
unfolding decimal read_from
read_from-decimal n = read_from-decimal_from (suc n) n "" (omega arith)

pub decimal-injective : (n m : ℕ) → decimal n ≡ decimal m → n ≡ m
decimal-injective n m h =
    sym (read_from-decimal n) ∙ ap (λ (s : String). read_from s 0) h ∙ read_from-decimal m
