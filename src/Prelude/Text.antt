-- ===== src/Prelude/Text.antt =====
-- Texts: joining, and the tests of `trim` and truthiness. A text is a sequence of code points, and the
-- white space is what `String.prototype.trim` removes.
pub mod Decimals
use Prim.Native.Nat.{ℕ, zero, suc, ◌%◌, ◌/◌}
use Prim.Native.Char.{Char, code}
use Prim.Native.String.{String}
use Prim.Native.String.{◌++◌ as joined}
use mathlib.Core.Bool.{Bool, true, false, not, ◌&&◌, ◌||◌}
use mathlib.Core.Option.{Option, none, some}
use fleet_prime_agent.Prelude.Tests.{leb, nat_eq, ◌==◌, if◌then◌else◌}

infixr 65 ◌<>◌
abbrev pub ◌<>◌ : String → String → String
a <> b = joined a b

pub is_white : ℕ → Bool
is_white c =
    (leb 9 c && leb c 13)
    || nat_eq c 32
    || nat_eq c 160
    || nat_eq c 0x1680
    || (leb 0x2000 c && leb c 0x200a)
    || nat_eq c 0x2028
    || nat_eq c 0x2029
    || nat_eq c 0x202f
    || nat_eq c 0x205f
    || nat_eq c 0x3000
    || nat_eq c 0xfeff

-- `text.trim().length === 0`
unfoldable pub is_blank : String → Bool
unfolding is_white
is_blank String.[] = true
is_blank (String.◌∷◌ c s) = is_white (code c) && is_blank s

-- The white space in front removed.
unfoldable pub trim_start : String → String
unfolding is_white
trim_start String.[] = String.[]
trim_start (String.◌∷◌ c s) =
    let rest = trim_start s in if is_white (code c) then rest else String.◌∷◌ c s

-- The white space behind removed.
unfoldable pub trim_end : String → String
unfolding is_blank
trim_end String.[] = String.[]
trim_end (String.◌∷◌ c s) =
    if is_blank (String.◌∷◌ c s) then String.[] else String.◌∷◌ c (trim_end s)

-- `text.trim()`
unfoldable pub trim : String → String
unfolding trim_start trim_end
trim s = trim_end (trim_start s)

-- `text.replace(/\s+/g, " ")`; the second argument says whether white space came just before.
squeeze_from : String → Bool → String
unfolding is_white
squeeze_from String.[] before = String.[]
squeeze_from (String.◌∷◌ c s) before =
    let rest : String = squeeze_from s (is_white (code c)) in
    if not (is_white (code c)) then String.◌∷◌ c rest else if before then rest else " " <> rest

unfoldable pub squeeze : String → String
unfolding squeeze_from
squeeze s = squeeze_from s false

-- The first characters of a text, and how many there are.
unfoldable pub first_characters : String → ℕ → String
first_characters String.[] n = String.[]
first_characters (String.◌∷◌ c s) zero = String.[]
first_characters (String.◌∷◌ c s) (suc n) = String.◌∷◌ c (first_characters s n)

unfoldable pub characters : String → ℕ
characters String.[] = 0
characters (String.◌∷◌ c s) = suc (characters s)

-- A text that is used as a condition: the empty one is false.
abbrev pub truthy : String → Bool
truthy s = not (s == "")

-- `value?.trim() || undefined`, and `value || undefined`.
abbrev pub or_undefined : String → Option String
or_undefined s = if s == "" then none else some s

abbrev pub truthy? : Option String → Option String
truthy? none = none
truthy? (some s) = or_undefined s

-- A number in decimal, as a template literal writes it. A number has at most as many digits as it
-- counts, and one.
unfoldable pub digit : ℕ → Char
digit zero = "0"
digit (suc zero) = "1"
digit (suc (suc zero)) = "2"
digit (suc (suc (suc zero))) = "3"
digit (suc (suc (suc (suc zero)))) = "4"
digit (suc (suc (suc (suc (suc zero))))) = "5"
digit (suc (suc (suc (suc (suc (suc zero)))))) = "6"
digit (suc (suc (suc (suc (suc (suc (suc zero))))))) = "7"
digit (suc (suc (suc (suc (suc (suc (suc (suc zero)))))))) = "8"
digit _ = "9"

unfoldable pub decimal_from : ℕ → ℕ → String → String
unfolding digit
decimal_from zero n behind = behind
decimal_from (suc fuel) n behind =
    let here : String = String.◌∷◌ (digit (n % 10)) behind in
    let rest : String = decimal_from fuel (n / 10) here in if leb n 9 then here else rest

unfoldable pub decimal : ℕ → String
unfolding decimal_from
decimal n = decimal_from (suc n) n ""

-- `text.startsWith(front)` and `text.endsWith(back)`
unfoldable pub starts_with : String → String → Bool
starts_with s String.[] = true
starts_with String.[] (String.◌∷◌ d t) = false
starts_with (String.◌∷◌ c s) (String.◌∷◌ d t) = nat_eq (code c) (code d) && starts_with s t

unfoldable pub ends_with : String → String → Bool
ends_with String.[] back = String.[] == back
ends_with (String.◌∷◌ c s) back = (String.◌∷◌ c s) == back || ends_with s back
