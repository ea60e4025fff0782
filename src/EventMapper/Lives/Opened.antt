-- ===== src/EventMapper/Lives/Opened.antt =====
-- web/server/src/event-mapper.ts: the open episodes have runtime indexes and indexes of their own, and
-- closing one leaves the others open.
use fleet_prime_agent.Prelude.{
  ℕ, zero, suc, ◌≤◌, ◌<◌, ◌≡◌, ◌≢◌, refl, sym, true, false, List, [], ◌∷◌, ◌++◌, none, some, arith,
  nat_eq, leb, Bool-cases, inl, inr, max, length, filter, length-filter-le,
}
use fleet_prime_agent.Prelude.NatMap
use fleet_prime_agent.Prelude.NatMap.{NatMap, member, without, member-without}
use fleet_prime_agent.EventMapper.{MapperState}
use fleet_prime_agent.EventMapper.Episodes.{next_unclaimed, fleet_index_for}

-- No entry has this key or this value.
abbrev pub Away : ℕ → ℕ → NatMap ℕ → Type 0
Away k v [] = Unit {0}
Away k v ((j, u) ∷ m) = (j ≢ k) × (u ≢ v) × Away k v m

abbrev pub Apart : NatMap ℕ → Type 0
Apart [] = Unit {0}
Apart ((k, v) ∷ m) = Away k v m × Apart m

-- Every value is among the open indexes and among those in use.
abbrev pub AllOpen : NatMap ℕ → List ℕ → List ℕ → Type 0
AllOpen [] opened claimed = Unit {0}
AllOpen ((k, v) ∷ m) opened claimed =
    (member v opened ≡ true) × (member v claimed ≡ true) × AllOpen m opened claimed

pub AllOpen-mono :
    (m : NatMap ℕ) (o o' c c' : List ℕ)
    → ((n : ℕ) → member n o ≡ true → member n o' ≡ true)
    → ((n : ℕ) → member n c ≡ true → member n c' ≡ true)
    → AllOpen m o c
    → AllOpen m o' c'
AllOpen-mono [] o o' c c' f g h = tt
AllOpen-mono ((k, v) ∷ m) o o' c c' f g (a, b, h) = (f v a, g v b, AllOpen-mono m o o' c c' f g h)

pub remove-Away : (k v : ℕ) (m : NatMap ℕ) → Away k v m → NatMap.remove k m ≡ m
unfolding NatMap.remove
remove-Away k v [] h = refl
remove-Away k v ((j, u) ∷ m) (a, b, h) = ground (arith, remove-Away k v m h)

get-Away : (k v key i : ℕ) (m : NatMap ℕ) → Away k v m → NatMap.get key m ≡ some i → i ≢ v
unfolding NatMap.get
get-Away k v key i [] h e = absurd (cc)
get-Away k v key i ((j, u) ∷ m) (a, b, h) e = ground (arith, get-Away k v key i m h)

Away-remove : (k v key : ℕ) (m : NatMap ℕ) → Away k v m → Away k v (NatMap.remove key m)
unfolding NatMap.remove
Away-remove k v key [] h = tt
Away-remove k v key ((j, u) ∷ m) (a, b, h) = ground (arith, Away-remove k v key m h)

pub Apart-remove : (key : ℕ) (m : NatMap ℕ) → Apart m → Apart (NatMap.remove key m)
unfolding NatMap.remove
Apart-remove key [] h = tt
Apart-remove key ((k, v) ∷ m) (a, h) = ground (arith, Apart-remove key m h, Away-remove k v key m a)

AllOpen-without :
    (k v : ℕ) (m : NatMap ℕ) (o c : List ℕ) → Away k v m → AllOpen m o c → AllOpen m (without v o) c
AllOpen-without k v [] o c h hs = tt
AllOpen-without k v ((j, u) ∷ m) o c (a, b, h) (d, e, hs) =
    (member-without u v o (λ p. b (sym p)) d, e, AllOpen-without k v m o c h hs)

-- Closing an episode leaves the others open.
pub AllOpen-remove :
    (key i : ℕ) (m : NatMap ℕ) (o c : List ℕ)
    → Apart m
    → NatMap.get key m ≡ some i
    → AllOpen m o c
    → AllOpen (NatMap.remove key m) (without i o) c
unfolding NatMap.remove NatMap.get
AllOpen-remove key i [] o c h e hs = tt
AllOpen-remove key i ((k, v) ∷ m) o c (a, h) e (d, f, hs) = elim (Bool-cases (nat_eq k key)) [
  | inl same ↦
      let value : v ≡ i = ground arith in
      let named : k ≡ key = ground arith in
      let away : Away key i m = ground arith in
      rw (same, remove-Away key i m away) (AllOpen-without key i m o c away hs)
  | inr other ↦
      let found : NatMap.get key m ≡ some i = ground arith in
      let apart : i ≢ v = get-Away k v key i m a found in
      let kept = AllOpen-remove key i m o c h found hs in
      rw other (member-without v i o apart d, f, kept)
]

pub AllOpen-get :
    (m : NatMap ℕ) (o c : List ℕ) (key i : ℕ)
    → NatMap.get key m ≡ some i
    → AllOpen m o c
    → (member i o ≡ true) × (member i c ≡ true)
unfolding NatMap.get
AllOpen-get [] o c key i e hs = absurd (cc)
AllOpen-get ((k, v) ∷ m) o c key i e (d, f, hs) = ground (arith, AllOpen-get m o c key i)

-- An episode with a key and a value of its own joins.
Away-append :
    (k v key i : ℕ) (m : NatMap ℕ) → Away k v m → key ≢ k → i ≢ v → Away k v (m ++ (key, i) ∷ [])
Away-append k v key i [] h d e = (d, e, tt)
Away-append k v key i ((j, u) ∷ m) (a, b, h) d e = (a, b, Away-append k v key i m h d e)

pub Apart-append :
    (m : NatMap ℕ) (o c : List ℕ) (key i : ℕ)
    → Apart m
    → AllOpen m o c
    → NatMap.get key m ≡ none
    → member i c ≡ false
    → Apart (m ++ (key, i) ∷ [])
unfolding NatMap.get
Apart-append [] o c key i h hs e free = (tt, tt)
Apart-append ((k, v) ∷ m) o c key i (a, h) (d, f, hs) e free = elim (Bool-cases (nat_eq k key)) [
  | inl same ↦ absurd (ground arith)
  | inr other ↦
      let rest : NatMap.get key m ≡ none = ground arith in
      let key_apart : key ≢ k = ground arith in
      let apart : i ≢ v = λ equal. cc in
      (Away-append k v key i m a key_apart apart, Apart-append m o c key i h hs rest free)
]

pub AllOpen-append :
    (m : NatMap ℕ) (o c : List ℕ) (key i : ℕ)
    → AllOpen m o c
    → member i o ≡ true
    → member i c ≡ true
    → AllOpen (m ++ (key, i) ∷ []) o c
AllOpen-append [] o c key i hs d f = (d, f, tt)
AllOpen-append ((k, v) ∷ m) o c key i (a, b, hs) d f = (a, b, AllOpen-append m o c key i hs d f)

-- The loop that looks for an index: fewer indexes in use lie at or above each next one, so it ends at
-- one that is not in use.
abbrev above : ℕ → List ℕ → ℕ
above i claimed = length (filter (leb i) claimed)

above-suc-le : (i : ℕ) (claimed : List ℕ) → above (suc i) claimed ≤ above i claimed
above-suc-le i [] = omega arith
above-suc-le i (n ∷ ns) = ground (arith, above-suc-le i ns)

above-suc-lt :
    (i : ℕ) (claimed : List ℕ) → member i claimed ≡ true → above (suc i) claimed < above i claimed
unfolding member
above-suc-lt i [] h = absurd (cc)
above-suc-lt i (n ∷ ns) h = ground (arith, above-suc-lt i ns, above-suc-le i ns)

next_unclaimed-free :
    (fuel : ℕ) (claimed : List ℕ) (i : ℕ)
    → above i claimed < fuel
    → member (next_unclaimed fuel claimed i) claimed ≡ false
unfolding next_unclaimed
next_unclaimed-free zero claimed i h = absurd (omega arith)
next_unclaimed-free (suc fuel) claimed i h = elim (Bool-cases (member i claimed)) [
  | inl taken ↦
      let fewer = above-suc-lt i claimed taken in
      rw taken (next_unclaimed-free fuel claimed (suc i) (omega arith))
  | inr free ↦ rw free free
]

-- An episode's index is not in use.
pub fleet_index_for-free :
    (s : MapperState) (i : ℕ) → member (fleet_index_for s i) s.claimed ≡ false
unfolding fleet_index_for
fleet_index_for-free s i = elim (Bool-cases (member i s.claimed)) [
  | inl taken ↦
      let first = max s.episode_seq (suc i) in
      let few : above first s.claimed < suc (length s.claimed) =
        omega (arith, length-filter-le (leb first) s.claimed) in
      rw taken (next_unclaimed-free (suc (length s.claimed)) s.claimed first few)
  | inr free ↦ rw free free
]
