-- ===== src/EventMapper/Lives.antt =====
-- web/server/src/event-mapper.ts: the life of a content index, as a client sees it in the frames of a run.
-- An index is started at most once, gets deltas while it is open, and nothing after its end.
pub mod Opened
pub mod Kept
pub mod Finalized
pub mod Followed
pub mod Closing
pub mod Streamed
pub mod Frames
pub mod Runs
use fleet_prime_agent.Prelude.{
  ℕ, String, Bool, true, false, List, [], ◌∷◌, Option, none, some, if◌then◌else◌, ◌==◌,
}
use fleet_prime_agent.Prelude.NatMap.{member, without}
use fleet_prime_agent.Chat
use fleet_prime_agent.Chat.{Event, reasoning_text, state}

-- The indexes that are open, and those that the run's frames have named.
pub record Watch : Type 0 where
  pub opened : List ℕ
  pub seen : List ℕ

abbrev pub nothing_seen : Watch
nothing_seen = record { opened = []; seen = [] }

-- An end of an index that was not open is its whole life: the episode's start was not seen.
unfoldable pub watch_text : Watch → Chat.Phase → ℕ → Option Watch
watch_text w Chat.Phase.starts i =
    if member i w.seen then none else some (record { opened = i ∷ w.opened; seen = i ∷ w.seen })
watch_text w Chat.Phase.delta i = if member i w.opened then some w else none
watch_text w Chat.Phase.ends i =
    if member i w.opened
    then some (record w { opened = without i w.opened })
    else if member i w.seen
    then none
    else some (record w { seen = i ∷ w.seen })

-- A run that starts has named no index.
unfoldable pub watch : Watch → Event → Option Watch
watch w (reasoning_text frame id) = watch_text w frame.phase frame.content_index
watch w (state name) = some (if name == "agent_start" then nothing_seen else w)
watch w _ = some w

abbrev pub and_then : Option Watch → (Watch → Option Watch) → Option Watch
and_then none next = none
and_then (some w) next = next w

-- `none` where a frame breaks an index's life.
unfoldable pub watch_all : Watch → List Event → Option Watch
watch_all w [] = some w
watch_all w (frame ∷ frames) = and_then (watch w frame) (λ next. watch_all next frames)
