-- ===== src/EventMapper/Lives/Streamed.antt =====
-- web/server/src/event-mapper.ts: every event of the assistant's stream gives frames that keep the lives
-- of the indexes.
use fleet_prime_agent.Prelude.{
  ℕ, String, ◌≡◌, refl, ap, true, [], ◌∷◌, Option, none, some, Option-cases, inl, inr,
}
use fleet_prime_agent.Prelude.Text.{◌<>◌}
use fleet_prime_agent.Prelude.NatMap
use fleet_prime_agent.Prelude.NatMap.{NatMap, member, get-set_self, get-remove_self}
use fleet_prime_agent.Chat
use fleet_prime_agent.Chat.{Event}
use fleet_prime_agent.EventMapper.{MapperState, Phase, Hydrator, StreamEvent}
use fleet_prime_agent.EventMapper.Episodes.{
  text_frame, forget_active, open_episode, fleet_index_for, begin_reasoning_episode, name_message,
  close_active_reasoning_episodes, resolve_active_reasoning_episode, text_so_far,
  reasoning_content_index,
}
use fleet_prime_agent.EventMapper.Stream.{
  reasoning_frame, map_assistant_stream_event, on_text_delta, on_thinking_delta, on_thinking_start,
  on_thinking_end, on_start, write_final, write_text, grow_text, end_previous,
}
use fleet_prime_agent.EventMapper.Lives.{watch_all}
use fleet_prime_agent.EventMapper.Lives.Opened.{fleet_index_for-free}
use fleet_prime_agent.EventMapper.Lives.Kept.{
  Keeps, same, Keeps-refl, Keeps-trans, name_message-Keeps, remember-Keeps,
}
use fleet_prime_agent.EventMapper.Lives.Followed.{
  Tracks-keeps, Follows, Follows-trans, Quiet, silent, quiet, start-Follows, end-Follows,
  delta-Follows, lone-Follows,
}
use fleet_prime_agent.EventMapper.Lives.Closing.{
  reasoning_frame-Quiet, reasoning_frame-Keeps, after-Quiet, Follows-keeps, close-Follows,
  delta-Quiet,
}

pub on_text_delta-Follows :
    (s : MapperState) (added : String) (now : ℕ)
    → Follows s (on_text_delta s added now).1 (on_text_delta s added now).0
unfolding on_text_delta
on_text_delta-Follows s added now =
    let s₁ = (close_active_reasoning_episodes s).0 in
    let written = record (name_message s₁) {
      current_text = (name_message s₁).current_text <> added;
    } in
    let s₂ = (reasoning_frame written Phase.responding true now).0 in
    let naming = name_message-Keeps s₁ in
    let kept =
      Keeps-trans (record { claims = naming.claims; opens = naming.opens })
        (reasoning_frame-Keeps written Phase.responding true now) in
    Follows-trans s s₁ s₂ (close_active_reasoning_episodes s).1 _ (close-Follows s) (
      after-Quiet s₁ s₂ s₂ _ _ (reasoning_frame-Quiet written Phase.responding true now) kept (
        quiet s₂ s₂ (Event.delta_text added s₂.current_message_id)
          (λ w. delta-Quiet added s₂.current_message_id w) (Keeps-refl s₂)))

write_text-Keeps : (index : ℕ) (t : String) (s : MapperState) → Keeps s (write_text index t s)
unfolding write_text
write_text-Keeps index t s = same refl refl

write_final-Keeps :
    (t : Option String) (index : ℕ) (s : MapperState) → Keeps s (write_final t index s)
unfolding write_final
write_final-Keeps none index s = Keeps-refl s
write_final-Keeps (some t) index s = write_text-Keeps index t s

-- Once the runtime index has no open episode, one begins.
begun-Follows :
    (s t : MapperState) (k : ℕ)
    → NatMap.get k s.active ≡ none
    → Keeps (begin_reasoning_episode s k).0 t
    → Follows s (text_frame t Chat.Phase.starts (begin_reasoning_episode s k).1 "" ∷ []) t
unfolding begin_reasoning_episode
begun-Follows s t k absent kept =
    start-Follows s t (fleet_index_for s k) k "" absent (fleet_index_for-free s k) kept

begun_open :
    (s t : MapperState) (k : ℕ)
    → Keeps (begin_reasoning_episode s k).0 t
    → NatMap.get k t.active ≡ some (begin_reasoning_episode s k).1
unfolding begin_reasoning_episode open_episode
begun_open s t k kept = rw kept.opens (get-set_self k (fleet_index_for s k) s.active)

-- The frames of a delta, once its episode is known; `t` is the state that they leave.
opened_delta-Follows :
    (s t : MapperState) (k index : ℕ) (phase : Event) (added : String)
    → NatMap.get k s.active ≡ some index
    → Quiet phase
    → Keeps s t
    → Follows s (phase ∷ text_frame t Chat.Phase.delta index added ∷ []) t
opened_delta-Follows s t k index phase added e q kept =
    after-Quiet s t t phase _ q kept (delta-Follows t index k added (rw kept.opens e))

begun_delta-Follows :
    (s t : MapperState) (k : ℕ) (phase : Event) (added : String)
    → NatMap.get k s.active ≡ none
    → Quiet phase
    → Keeps (begin_reasoning_episode s k).0 t
    → Follows s
        (phase
          ∷ text_frame t Chat.Phase.starts (begin_reasoning_episode s k).1 ""
          ∷ text_frame t Chat.Phase.delta (begin_reasoning_episode s k).1 added
          ∷ [])
        t
begun_delta-Follows s t k phase added e q kept = after-Quiet s s t phase _ q (Keeps-refl s) (
    Follows-trans s t t (text_frame t Chat.Phase.starts (begin_reasoning_episode s k).1 "" ∷ [])
      (text_frame t Chat.Phase.delta (begin_reasoning_episode s k).1 added ∷ [])
      (begun-Follows s t k e kept)
      (delta-Follows t (begin_reasoning_episode s k).1 k added (begun_open s t k kept)))

grow_text-Keeps :
    (s : MapperState) (index : ℕ) (added : String) (now : ℕ)
    → Keeps s (grow_text s index added now).0
unfolding grow_text
grow_text-Keeps s index added now =
    let named = name_message s in
    let t = text_so_far named index <> added in
    Keeps-trans (name_message-Keeps s) (
      Keeps-trans (write_text-Keeps index t named)
        (reasoning_frame-Keeps (write_text index t named) Phase.planning true now))

grow_text-Quiet :
    (s : MapperState) (index : ℕ) (added : String) (now : ℕ) → Quiet (grow_text s index added now).1
unfolding grow_text
grow_text-Quiet s index added now =
    let named = name_message s in
    let t = text_so_far named index <> added in
    reasoning_frame-Quiet (write_text index t named) Phase.planning true now

on_thinking_delta-Follows :
    (s : MapperState) (k : ℕ) (added : String) (now : ℕ)
    → Follows s (on_thinking_delta s k added now).1 (on_thinking_delta s k added now).0
unfolding on_thinking_delta resolve_active_reasoning_episode
on_thinking_delta-Follows s k added now = elim (Option-cases (NatMap.get k s.active)) [
  | inl e ↦
      let (s₁, index) = begin_reasoning_episode s k in
      let (s₂, phase) = grow_text s₁ index added now in
      rw e (
        begun_delta-Follows s s₂ k phase added e (grow_text-Quiet s₁ index added now)
          (grow_text-Keeps s₁ index added now))
  | inr (index, e) ↦
      let (s₂, phase) = grow_text s index added now in
      rw e (
        opened_delta-Follows s s₂ k index phase added e (grow_text-Quiet s index added now)
          (grow_text-Keeps s index added now))
]

end_previous-Follows :
    (o : Option ℕ) (s : MapperState) (k : ℕ)
    → NatMap.get k s.active ≡ o
    → Follows s (end_previous o s k).1 (end_previous o s k).0
unfolding end_previous
end_previous-Follows none s k e = silent s s (Keeps-refl s)
end_previous-Follows (some index) s k e = end-Follows s s index k (text_so_far s index) e

end_previous-none :
    (o : Option ℕ) (s : MapperState) (k : ℕ)
    → NatMap.get k s.active ≡ o
    → NatMap.get k (end_previous o s k).0.active ≡ none
unfolding end_previous forget_active
end_previous-none none s k e = e
end_previous-none (some index) s k e = get-remove_self k s.active

-- The frames of an episode that begins, from a state where the runtime index has none.
begin_frames-Follows :
    (s : MapperState) (k now : ℕ)
    → NatMap.get k s.active ≡ none
    → let (s', index) = begin_reasoning_episode s k in
      let (t, phase) = reasoning_frame (write_text index "" s') Phase.planning true now in
      Follows s (phase ∷ text_frame t Chat.Phase.starts index "" ∷ []) t
begin_frames-Follows s k now e =
    let (s', index) = begin_reasoning_episode s k in
    let written = write_text index "" s' in
    let (t, phase) = reasoning_frame written Phase.planning true now in
    after-Quiet s s t phase (text_frame t Chat.Phase.starts index "" ∷ [])
      (reasoning_frame-Quiet written Phase.planning true now) (Keeps-refl s)
      (begun-Follows s t k e (
        Keeps-trans (write_text-Keeps index "" s')
          (reasoning_frame-Keeps written Phase.planning true now)))

on_thinking_start-Follows :
    (s : MapperState) (k now : ℕ)
    → Follows s (on_thinking_start s k now).1 (on_thinking_start s k now).0
unfolding on_thinking_start
on_thinking_start-Follows s k now =
    let named = name_message s in
    let (s₁, ended) = end_previous (NatMap.get k named.active) named k in
    let t = (on_thinking_start s k now).0 in
    Follows-keeps s named t t _ (name_message-Keeps s)
      (Follows-trans named s₁ t ended _
        (end_previous-Follows (NatMap.get k named.active) named k refl)
        (begin_frames-Follows s₁ k now
          (end_previous-none (NatMap.get k named.active) named k refl)))
      (Keeps-refl t)

forget-Keeps :
    {s t : MapperState} (k : ℕ) → Keeps s t → Keeps (forget_active k s) (forget_active k t)
unfolding forget_active
forget-Keeps k h = record { claims = h.claims; opens = ap (NatMap.remove k) h.opens }

-- An end closes the open episode, or is the whole life of one.
on_thinking_end-Follows :
    (s : MapperState) (k : ℕ) (final : Option String)
    → Follows s (on_thinking_end s k final).1 (on_thinking_end s k final).0
unfolding on_thinking_end resolve_active_reasoning_episode
on_thinking_end-Follows s k final = elim (Option-cases (NatMap.get k s.active)) [
  | inl e ↦
      let (s₁, index) = begin_reasoning_episode s k in
      let t = forget_active k (write_final final index s₁) in
      rw e (
        lone-Follows s t index k (text_so_far t index) e (fleet_index_for-free s k)
          (forget-Keeps k (write_final-Keeps final index s₁)))
  | inr (index, e) ↦
      let t = forget_active k (write_final final index s) in
      let kept = write_final-Keeps final index s in
      rw e (
        Follows-keeps s s (forget_active k s) t _ (Keeps-refl s)
          (end-Follows s t index k (text_so_far t index) e) (forget-Keeps k kept))
]

on_start-Follows : (s : MapperState) → Follows s [] (on_start s)
unfolding on_start watch_all
on_start-Follows s w tracks =
    let named = Tracks-keeps (name_message-Keeps s) tracks in
    (w, refl, record { named = named.named; within = named.within; opens = tt; apart = tt })

pub map_assistant_stream_event-Follows :
    (h : Hydrator) (s : MapperState) (event : StreamEvent) (now : ℕ)
    → Follows s
        (map_assistant_stream_event h s event now).1
        (map_assistant_stream_event h s event now).0
unfolding map_assistant_stream_event
map_assistant_stream_event-Follows h s StreamEvent.start now = on_start-Follows s
map_assistant_stream_event-Follows h s (StreamEvent.text_delta added) now =
    on_text_delta-Follows s added now
map_assistant_stream_event-Follows h s (StreamEvent.thinking_start index partial) now =
    on_thinking_start-Follows s (reasoning_content_index s index partial) now
map_assistant_stream_event-Follows h s (StreamEvent.thinking_delta index partial added) now =
    on_thinking_delta-Follows s (reasoning_content_index s index partial) added now
map_assistant_stream_event-Follows h s (StreamEvent.thinking_end index partial content) now =
    on_thinking_end-Follows s (reasoning_content_index s index partial) _
map_assistant_stream_event-Follows h s StreamEvent.text_start now = close-Follows s
map_assistant_stream_event-Follows h s StreamEvent.toolcall_start now = close-Follows s
map_assistant_stream_event-Follows h s (StreamEvent.done message) now =
    silent s _ (remember-Keeps h s message)
map_assistant_stream_event-Follows h s StreamEvent.ignored now = silent s s (Keeps-refl s)
