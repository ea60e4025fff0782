-- ===== src/EventMapper/Lives/Followed.antt =====
-- web/server/src/event-mapper.ts: the frames of an episode, as they are watched: its start, its deltas and
-- its end, from a state whose open episodes are open to the watcher.
use fleet_prime_agent.Prelude.{
  ℕ, String, ◌≡◌, refl, true, false, List, [], ◌∷◌, ◌++◌, none, some, arith, nat_eq, Bool-cases,
  Option-cases, inl, inr,
}
use fleet_prime_agent.Prelude.NatMap
use fleet_prime_agent.Prelude.NatMap.{
  NatMap, member, without, add, member-add, set-absent, remove-absent, remove-set_absent,
  member-without_old,
}
use fleet_prime_agent.Chat
use fleet_prime_agent.Chat.{Event}
use fleet_prime_agent.EventMapper.{MapperState}
use fleet_prime_agent.EventMapper.Episodes.{text_frame, forget_active, open_episode}
use fleet_prime_agent.EventMapper.Lives.{Watch, watch, watch_all, watch_text}
use fleet_prime_agent.EventMapper.Lives.Opened.{
  Apart, AllOpen, AllOpen-mono, AllOpen-remove, AllOpen-get, AllOpen-append, Apart-append,
  Apart-remove,
}
use fleet_prime_agent.EventMapper.Lives.Kept.{Keeps}
use fleet_prime_agent.EventMapper.Lives.Finalized.{member-add_old}

-- What the watcher knows of the mapper: an index that a frame named is in use, and the open episodes,
-- each with a runtime index and an index of its own, are open to the watcher too.
pub record Tracks (w : Watch) (s : MapperState) : Type 0 where
  pub named : (n : ℕ) → member n w.seen ≡ true → member n s.claimed ≡ true
  pub within : (n : ℕ) → member n w.opened ≡ true → member n w.seen ≡ true
  pub opens : AllOpen s.active w.opened s.claimed
  pub apart : Apart s.active

-- Whatever the watcher saw before, the frames lead it from what it knows of the one state to the other.
abbrev pub Follows : MapperState → List Event → MapperState → Type 0
Follows s frames t =
    (w : Watch) → Tracks w s → (w' : Watch) × (watch_all w frames ≡ some w') × Tracks w' t

pub watch_all-append :
    (w w' : Watch) (fs gs : List Event)
    → watch_all w fs ≡ some w'
    → watch_all w (fs ++ gs) ≡ watch_all w' gs
unfolding watch_all
watch_all-append w w' [] gs h = ground arith
watch_all-append w w' (f ∷ fs) gs h = elim (Option-cases (watch w f)) [
  | inl stuck ↦ absurd (ground arith)
  | inr (next, e) ↦ rw e (watch_all-append next w' fs gs (rw e at h))
]

pub Follows-trans :
    (s t u : MapperState) (fs gs : List Event)
    → Follows s fs t
    → Follows t gs u
    → Follows s (fs ++ gs) u
Follows-trans s t u fs gs h k w tracks =
    let (w', e, tracks') = h w tracks in
    let (w'', e', tracks'') = k w' tracks' in (w'', rw (watch_all-append w w' fs gs e) e', tracks'')

pub Tracks-keeps : {w : Watch} {s t : MapperState} → Keeps s t → Tracks w s → Tracks w t
Tracks-keeps {w} {s} {t} k h = record {
  named = λ n m. k.claims n (h.named n m);
  within = h.within;
  opens =
      rw k.opens
        (AllOpen-mono s.active w.opened w.opened s.claimed t.claimed (λ n m. m) k.claims h.opens);
  apart = rw k.opens h.apart;
}

-- A frame that is not of an episode and starts no run.
abbrev pub Quiet : Event → Type 0
Quiet f = (w : Watch) → watch w f ≡ some w

pub silent : (s t : MapperState) → Keeps s t → Follows s [] t
unfolding watch_all
silent s t k w tracks = (w, refl, Tracks-keeps k tracks)

pub quiet : (s t : MapperState) (f : Event) → Quiet f → Keeps s t → Follows s (f ∷ []) t
unfolding watch_all
quiet s t f q k w tracks = (w, rw (q w) refl, Tracks-keeps k tracks)

-- An open episode gets a delta.
pub delta-Follows :
    (s : MapperState) (index runtime_index : ℕ) (text : String)
    → NatMap.get runtime_index s.active ≡ some index
    → Follows s (text_frame s Chat.Phase.delta index text ∷ []) s
unfolding watch_all watch watch_text text_frame
delta-Follows s index runtime_index text h w tracks =
    let (seen, _) = AllOpen-get s.active w.opened s.claimed runtime_index index h tracks.opens in
    (w, rw seen refl, tracks)

-- An open episode ends, with the message id of any state.
pub end-Follows :
    (s u : MapperState) (index runtime_index : ℕ) (text : String)
    → NatMap.get runtime_index s.active ≡ some index
    → Follows s (text_frame u Chat.Phase.ends index text ∷ []) (forget_active runtime_index s)
unfolding watch_all watch watch_text text_frame forget_active
end-Follows s u index runtime_index text h w tracks =
    let (seen, _) = AllOpen-get s.active w.opened s.claimed runtime_index index h tracks.opens in
    (
      record w { opened = without index w.opened },
      rw seen refl,
      record {
        named = tracks.named;
        within = λ n m. tracks.within n (member-without_old n index w.opened m);
        opens =
            AllOpen-remove runtime_index index s.active w.opened s.claimed tracks.apart h
              tracks.opens;
        apart = Apart-remove runtime_index s.active tracks.apart;
      },
    )

-- What no frame has named: an index that is not in use.
unseen :
    (w : Watch) (s : MapperState) (n : ℕ)
    → Tracks w s
    → member n s.claimed ≡ false
    → member n w.seen ≡ false
unseen w s n tracks free = elim (Bool-cases (member n w.seen)) [
  | inl seen ↦ let used = tracks.named n seen in absurd (cc)
  | inr fresh ↦ fresh
]

named_add :
    (w : Watch) (s : MapperState) (i n : ℕ)
    → Tracks w s
    → member n (i ∷ w.seen) ≡ true
    → member n (add i s.claimed) ≡ true
unfolding member
named_add w s i n tracks h = elim (Bool-cases (nat_eq i n)) [
  | inl same ↦ rw (member-add, same) refl
  | inr other ↦ member-add_old n i s.claimed (tracks.named n (rw other at h))
]

member-cons : (n m : ℕ) (ms : List ℕ) → member n ms ≡ true → member n (m ∷ ms) ≡ true
unfolding member
member-cons n m ms h = ground arith

member-head : (n : ℕ) (ms : List ℕ) → member n (n ∷ ms) ≡ true
unfolding member
member-head n ms = ground arith

member-add_self : (n : ℕ) (ms : List ℕ) → member n (add n ms) ≡ true
unfolding member
member-add_self n ms = rw member-add (ground arith)

within_cons :
    (opened seen : List ℕ) (i n : ℕ)
    → (member n opened ≡ true → member n seen ≡ true)
    → member n (i ∷ opened) ≡ true
    → member n (i ∷ seen) ≡ true
unfolding member
within_cons opened seen i n f h = ground arith

opened-Tracks :
    (s : MapperState) (index runtime_index : ℕ)
    → NatMap.get runtime_index s.active ≡ none
    → member index s.claimed ≡ false
    → (w : Watch) → Tracks w s
    → Tracks
        (record { opened = index ∷ w.opened; seen = index ∷ w.seen })
        (open_episode runtime_index index s)
unfolding open_episode
opened-Tracks s index runtime_index absent free w tracks = record {
  named = λ n h. named_add w s index n tracks h;
  within = λ n h. within_cons w.opened w.seen index n (tracks.within n) h;
  opens = rw (set-absent runtime_index index s.active absent) (
      AllOpen-append s.active (index ∷ w.opened) (add index s.claimed) runtime_index index
        (AllOpen-mono s.active w.opened (index ∷ w.opened) s.claimed (add index s.claimed)
          (λ n h. member-cons n index w.opened h) (λ n h. member-add_old n index s.claimed h)
          tracks.opens)
        (member-head index w.opened) (member-add_self index s.claimed));
  apart = rw (set-absent runtime_index index s.active absent) (
      Apart-append s.active w.opened s.claimed runtime_index index tracks.apart tracks.opens absent
        free);
}

-- An episode begins under an index of its own.
pub start-Follows :
    (s t : MapperState) (index runtime_index : ℕ) (text : String)
    → NatMap.get runtime_index s.active ≡ none
    → member index s.claimed ≡ false
    → Keeps (open_episode runtime_index index s) t
    → Follows s (text_frame t Chat.Phase.starts index text ∷ []) t
unfolding watch_all watch watch_text text_frame
start-Follows s t index runtime_index text absent free k w tracks =
    let fresh = unseen w s index tracks free in
    (
      record { opened = index ∷ w.opened; seen = index ∷ w.seen },
      rw fresh refl,
      Tracks-keeps k (opened-Tracks s index runtime_index absent free w tracks),
    )

unopened :
    (w : Watch) (s : MapperState) (n : ℕ)
    → Tracks w s
    → member n w.seen ≡ false
    → member n w.opened ≡ false
unopened w s n tracks fresh = elim (Bool-cases (member n w.opened)) [
  | inl opened ↦ let seen = tracks.within n opened in absurd (cc)
  | inr shut ↦ shut
]

lone-Tracks :
    (s : MapperState) (index runtime_index : ℕ)
    → NatMap.get runtime_index s.active ≡ none
    → (w : Watch) → Tracks w s
    → Tracks
        (record w { seen = index ∷ w.seen })
        (forget_active runtime_index (open_episode runtime_index index s))
unfolding open_episode forget_active
lone-Tracks s index runtime_index absent w tracks = record {
  named = λ n h. named_add w s index n tracks h;
  within = λ n h. member-cons n index w.seen (tracks.within n h);
  opens = rw (remove-set_absent runtime_index index s.active absent) (
      AllOpen-mono s.active w.opened w.opened s.claimed (add index s.claimed) (λ n h. h)
        (λ n h. member-add_old n index s.claimed h) tracks.opens);
  apart = rw (remove-set_absent runtime_index index s.active absent) tracks.apart;
}

-- An episode that begins and ends at once, as an end that no start came before.
pub lone-Follows :
    (s t : MapperState) (index runtime_index : ℕ) (text : String)
    → NatMap.get runtime_index s.active ≡ none
    → member index s.claimed ≡ false
    → Keeps (forget_active runtime_index (open_episode runtime_index index s)) t
    → Follows s (text_frame t Chat.Phase.ends index text ∷ []) t
unfolding watch_all watch watch_text text_frame
lone-Follows s t index runtime_index text absent free k w tracks =
    let fresh = unseen w s index tracks free in
    let shut = unopened w s index tracks fresh in
    (
      record w { seen = index ∷ w.seen },
      rw (shut, fresh) refl,
      Tracks-keeps k (lone-Tracks s index runtime_index absent w tracks),
    )
