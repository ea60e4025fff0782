-- ===== src/DaemonSocket/Framing.antt =====
-- web/server/src/daemon-socket-client.ts: how a text is cut into chunks makes no difference.
use fleet_prime_agent.Prelude.{◌≡◌, refl, String, List, [], ◌∷◌, ◌++◌, Option}
use fleet_prime_agent.Prelude.Text.{◌<>◌}
use fleet_prime_agent.Prelude.Json.{Value}
use fleet_prime_agent.DaemonSocket.{Session, Client}
use fleet_prime_agent.DaemonSocket.Frames.{on_line, on_lines, on_data}
use text.Mathlib.TextLemmas.{append_assoc}
use fleet_prime_agent.DaemonSocket.Lines.{split_lines-append}

on_lines-append :
    (parse : String → Option Value) (s : Session) (xs ys : List String)
    → on_lines parse s (xs ++ ys) ≡ on_lines parse (on_lines parse s xs) ys
unfolding on_lines
on_lines-append parse s [] ys = refl
on_lines-append parse s (x ∷ xs) ys = on_lines-append parse (on_line parse s x) xs ys

-- A text that comes in two chunks leaves the client as the whole text in one chunk does, wherever it is
-- cut: inside a line, at a line end, or at the ends of the text.
pub on_data-append :
    (parse : String → Option Value) (c : Client) (s t : String)
    → on_data parse (on_data parse c s) t ≡ on_data parse c (s <> t)
unfolding on_data
on_data-append parse c s t =
    rw (← append_assoc c.buffer s t, split_lines-append (c.buffer <> s) t, on_lines-append) refl
