-- ===== src/EventMapper/Lives/Closing.antt =====
-- web/server/src/event-mapper.ts: the frames that close the open episodes, and a quiet frame before others.
use fleet_prime_agent.Prelude.{ℕ, String, ◌≡◌, refl, ◌∙◌, Bool, List, [], ◌∷◌, Option, some, arith}
use fleet_prime_agent.Prelude.NatMap
use fleet_prime_agent.Prelude.NatMap.{NatMap, member, get-set_self, get-remove_self}
use fleet_prime_agent.Chat
use fleet_prime_agent.Chat.{Event}
use fleet_prime_agent.EventMapper.{MapperState, Phase}
use fleet_prime_agent.EventMapper.Episodes.{
  text_frame, forget_active, name_message, close_each, close_as, close_active_reasoning_episodes,
  text_so_far,
}
use fleet_prime_agent.EventMapper.Stream.{reasoning_frame}
use fleet_prime_agent.EventMapper.Lives.{watch}
use fleet_prime_agent.EventMapper.Lives.Opened.{Apart, remove-Away}
use fleet_prime_agent.EventMapper.Lives.Kept.{Keeps, same, Keeps-refl, name_message-Keeps}
use fleet_prime_agent.EventMapper.Lives.Followed.{
  Tracks-keeps, Follows, Follows-trans, Quiet, silent, quiet, end-Follows,
}

pub reasoning_frame-Quiet :
    (s : MapperState) (p : Phase) (b : Bool) (now : ℕ) → Quiet (reasoning_frame s p b now).1
unfolding reasoning_frame watch
reasoning_frame-Quiet s p b now w = refl

pub delta-Quiet : (added : String) (id : Option String) → Quiet (Event.delta_text added id)
unfolding watch
delta-Quiet added id w = refl

pub reasoning_frame-Keeps :
    (s : MapperState) (p : Phase) (b : Bool) (now : ℕ) → Keeps s (reasoning_frame s p b now).0
unfolding reasoning_frame
reasoning_frame-Keeps s p b now = same refl refl

-- A quiet frame before others.
pub after-Quiet :
    (s t u : MapperState) (f : Event) (fs : List Event)
    → Quiet f
    → Keeps s t
    → Follows t fs u
    → Follows s (f ∷ fs) u
after-Quiet s t u f fs q k h = Follows-trans s t u (f ∷ []) fs (quiet s t f q k) h

-- States of which the one keeps the other, before and after.
pub Follows-keeps :
    (s s' t t' : MapperState) (fs : List Event)
    → Keeps s s'
    → Follows s' fs t
    → Keeps t t'
    → Follows s fs t'
Follows-keeps s s' t t' fs k h l w tracks =
    let (w', e, tracks') = h w (Tracks-keeps k tracks) in (w', e, Tracks-keeps l tracks')

close_each-Follows :
    (entries : NatMap ℕ) (s : MapperState)
    → s.active ≡ entries
    → Apart entries
    → Follows s (close_each entries s).1 (close_each entries s).0
unfolding close_each forget_active NatMap.get NatMap.remove
close_each-Follows [] s e a = silent s s (Keeps-refl s)
close_each-Follows ((k, v) ∷ rest) s e (a, h) =
    let s' = forget_active k s in
    let here : NatMap.get k s.active ≡ some v = rw e (ground arith) in
    let left : s'.active ≡ rest = rw e (ground (arith, remove-Away k v rest a)) in
    Follows-trans s s' (close_each rest s').0
      (text_frame s Chat.Phase.ends v (text_so_far s v) ∷ []) (close_each rest s').1
      (end-Follows s s v k _ here) (close_each-Follows rest s' left h)

close_as-Follows :
    (entries : NatMap ℕ) (s : MapperState)
    → s.active ≡ entries
    → Apart entries
    → Follows s (close_as entries s).1 (close_as entries s).0
unfolding close_as
close_as-Follows [] s e a = silent s s (Keeps-refl s)
close_as-Follows (entry ∷ rest) s e a =
    let named = name_message s in
    let k = name_message-Keeps s in
    let frames = close_each (entry ∷ rest) named in
    Follows-keeps s named frames.0 frames.0 frames.1 k
      (close_each-Follows (entry ∷ rest) named (k.opens ∙ e) a) (Keeps-refl frames.0)

pub close-Follows :
    (s : MapperState)
    → Follows s (close_active_reasoning_episodes s).1 (close_active_reasoning_episodes s).0
unfolding close_active_reasoning_episodes
close-Follows s w tracks = close_as-Follows s.active s refl tracks.apart w tracks
