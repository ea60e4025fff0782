-- ===== src/DaemonSocket/Lines.antt =====
-- web/server/src/daemon-socket-client.ts: the lines of the text that a socket has brought (#onData).
use fleet_prime_agent.Prelude.{
  String, false, List, [], ◌∷◌, ◌++◌, ◌≡◌, refl, nat_eq, if◌then◌else◌, Bool-cases, inl, inr,
}
use fleet_prime_agent.Prelude.Text.{◌<>◌}
use text.Mathlib.TextLemmas.{cons-append}
use Prim.Native.Char.{Char, code}

-- The complete lines, and what follows the last line end.
pub record Split : Type 0 where
  pub lines : List String
  pub rest : String

-- A character in front of the first line, or of the rest where there is no line.
put_first : Char → List String → String → Split
put_first c [] rest = record { lines = []; rest = String.◌∷◌ c rest }
put_first c (line ∷ lines) rest = record { lines = (String.◌∷◌ c line) ∷ lines; rest = rest }

-- The loop over the line ends of the buffer.
unfoldable pub split_lines : String → Split
unfolding put_first
split_lines String.[] = record { lines = []; rest = String.[] }
split_lines (String.◌∷◌ c s) =
    let split = split_lines s in
    if nat_eq (code c) 10
    then record { lines = "" ∷ split.lines; rest = split.rest }
    else put_first c split.lines split.rest

-- More lines behind those that are there.
abbrev pub behind : List String → Split → Split
behind lines split = record { lines = lines ++ split.lines; rest = split.rest }

put_first-behind :
    (c : Char) (lines : List String) (rest t : String)
    → nat_eq (code c) 10 ≡ false
    → put_first c (lines ++ (split_lines (rest <> t)).lines) (split_lines (rest <> t)).rest
      ≡ behind (put_first c lines rest).lines (split_lines ((put_first c lines rest).rest <> t))
unfolding put_first split_lines
put_first-behind c [] rest t other = rw (cons-append c rest t, other) refl
put_first-behind c (line ∷ lines) rest t other = refl

-- The lines of a text that came in two pieces: those of the first piece, and those of what was left of
-- it with the second piece.
pub split_lines-append :
    (s t : String)
    → split_lines (s <> t) ≡ behind (split_lines s).lines (split_lines ((split_lines s).rest <> t))
unfolding split_lines
split_lines-append String.[] t = refl
split_lines-append (String.◌∷◌ c s) t = elim (Bool-cases (nat_eq (code c) 10)) [
  | inl end ↦ rw (cons-append c s t, end, split_lines-append s t) refl
  | inr other ↦
      rw (cons-append c s t, other, split_lines-append s t)
        (put_first-behind c (split_lines s).lines (split_lines s).rest t other)
]
