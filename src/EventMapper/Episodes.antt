-- ===== src/EventMapper/Episodes.antt =====
-- web/server/src/event-mapper.ts: the thinking episodes of a run. Each gets an index of its own, which no
-- other episode of the run has had; the loop that looks for one gets one step more than there are
-- indexes in use.
use fleet_prime_agent.Prelude.{
  ℕ, zero, suc, String, Bool, true, false, List, [], ◌∷◌, Option, none, some, max, if◌then◌else◌,
  ltb, get_or, length,
}
use fleet_prime_agent.Prelude.Text.{◌<>◌, decimal, truthy?}
use fleet_prime_agent.Prelude.NatMap
use fleet_prime_agent.Prelude.NatMap.{NatMap, member, add}
use fleet_prime_agent.Chat
use fleet_prime_agent.Chat.{Event, reasoning_text}
use fleet_prime_agent.EventMapper.{MapperState, Block, thinking}

-- `state.currentMessageId = `${state.runId}-a${state.messageSeq++}`` unless there is one.
unfoldable pub name_message_as : Option String → MapperState → MapperState
name_message_as (some id) s = s
name_message_as none s = record s {
  message_seq = suc s.message_seq;
  current_message_id = some (s.run_id <> "-a" <> decimal s.message_seq);
}

unfoldable pub name_message : MapperState → MapperState
unfolding name_message_as
name_message s = name_message_as (truthy? s.current_message_id) s

pub is_thinking : Block → Bool
is_thinking (thinking t) = true
is_thinking _ = false

-- The last index from here on that holds a thinking block.
pub last_thinking : ℕ → List Block → Option ℕ → Option ℕ
unfolding is_thinking
last_thinking i [] found = found
last_thinking i (b ∷ bs) found = last_thinking (suc i) bs (if is_thinking b then some i else found)

abbrev pub is_safe : Option ℕ → Bool
is_safe none = false
is_safe (some i) = ltb i 9007199254740992

abbrev pub in_partial : Option (List Block) → Option ℕ
in_partial none = none
in_partial (some bs) = last_thinking 0 bs none

-- The second argument is what `partial` shows, the third the last key of the open episodes.
index_from : Option ℕ → Option ℕ → Option ℕ → ℕ
index_from (some i) seen open_key = if is_safe (some i) then i else get_or seen (get_or open_key 0)
index_from none seen open_key = get_or seen (get_or open_key 0)

-- `reasoningContentIndex`
unfoldable pub reasoning_content_index : MapperState → Option ℕ → Option (List Block) → ℕ
unfolding index_from
reasoning_content_index s index partial =
    index_from index (in_partial partial) (NatMap.last_key s.active)

-- `while (state.claimedReasoningIndexes.has(fleetIndex)) fleetIndex++`
unfoldable pub next_unclaimed : ℕ → List ℕ → ℕ → ℕ
next_unclaimed zero claimed i = i
next_unclaimed (suc fuel) claimed i =
    let rest = next_unclaimed fuel claimed (suc i) in if member i claimed then rest else i

-- The index of an episode: its runtime index, or one that is free if that is in use.
unfoldable pub fleet_index_for : MapperState → ℕ → ℕ
unfolding next_unclaimed
fleet_index_for s runtime_index =
    if member runtime_index s.claimed
    then next_unclaimed (suc (length s.claimed)) s.claimed (max s.episode_seq (suc runtime_index))
    else runtime_index

-- The index is in use from now on, and stands for the runtime index in the message.
unfoldable pub claim : ℕ → ℕ → MapperState → MapperState
claim runtime_index index s = record s {
  claimed = add index s.claimed;
  episode_seq = max s.episode_seq (suc index);
  fleet_index = NatMap.set runtime_index index s.fleet_index;
}

-- An episode is open: its runtime index stands for its index.
unfoldable pub open_episode : ℕ → ℕ → MapperState → MapperState
unfolding claim
open_episode runtime_index index s =
    let s' = claim runtime_index index s in
    record s' { active = NatMap.set runtime_index index s'.active }

-- `beginReasoningEpisode`
unfoldable pub begin_reasoning_episode : MapperState → ℕ → MapperState × ℕ
unfolding fleet_index_for open_episode
begin_reasoning_episode s runtime_index =
    let index = fleet_index_for s runtime_index in (open_episode runtime_index index s, index)

unfoldable pub resolve_as : Option ℕ → MapperState → ℕ → MapperState × ℕ
unfolding begin_reasoning_episode
resolve_as (some index) s runtime_index = (s, index)
resolve_as none s runtime_index = begin_reasoning_episode s runtime_index

-- `resolveActiveReasoningEpisode`
unfoldable pub resolve_active_reasoning_episode : MapperState → ℕ → MapperState × ℕ
unfolding resolve_as
resolve_active_reasoning_episode s runtime_index =
    resolve_as (NatMap.get runtime_index s.active) s runtime_index

-- A `reasoning_text` frame under the current message.
unfoldable pub text_frame : MapperState → Chat.Phase → ℕ → String → Event
text_frame s phase index text =
    reasoning_text
      (record { phase = phase; content_index = index; text = text; duration_ms = none })
      s.current_message_id

abbrev pub text_so_far : MapperState → ℕ → String
text_so_far s index = get_or (NatMap.get index s.reasoning_text) ""

unfoldable pub forget_active : ℕ → MapperState → MapperState
forget_active runtime_index s = record s { active = NatMap.remove runtime_index s.active }

-- The loop of `closeActiveReasoningEpisodes` over a copy of the open episodes.
unfoldable pub close_each : NatMap ℕ → MapperState → MapperState × List Event
unfolding text_frame forget_active
close_each [] s = (s, [])
close_each ((runtime_index, index) ∷ rest) s =
    let (s', frames) = close_each rest (forget_active runtime_index s) in
    (s', text_frame s Chat.Phase.ends index (text_so_far s index) ∷ frames)

unfoldable pub close_as : NatMap ℕ → MapperState → MapperState × List Event
unfolding close_each name_message
close_as [] s = (s, [])
close_as (entry ∷ entries) s = close_each (entry ∷ entries) (name_message s)

-- `closeActiveReasoningEpisodes`
unfoldable pub close_active_reasoning_episodes : MapperState → MapperState × List Event
unfolding close_as
close_active_reasoning_episodes s = close_as s.active s
