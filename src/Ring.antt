-- ===== src/Ring.antt =====
-- web/server/src/ring-buffer.ts: the frames kept for replay to a client that reconnects. The event
-- type is a parameter; the fresh id that `crypto.randomUUID` draws is an argument of the operations
-- that draw one. A sequence number and a capacity are natural numbers and do not wrap.
pub mod Log
pub mod Refinement
mod Tests
use fleet_prime_agent.Prelude.{
  ℕ, ◌+◌, ◌-◌, max, String, Bool, true, false, List, [], ◌∷◌, ◌++◌, Option, none, some, ltb, length,
  drop, filter, last?, if◌then◌else◌,
}

pub record RingBufferEntry {ℓ} (E : Type ℓ) : Type ℓ where
  pub seq : ℕ
  pub event : E

pub record RingBuffer {ℓ} (E : Type ℓ) : Type ℓ where
  pub entries : List (RingBufferEntry E)
  pub capacity : ℕ
  pub next_seq : ℕ
  pub generation : String

pub record Replay {ℓ} (E : Type ℓ) : Type ℓ where
  pub replayed : List (RingBufferEntry E)
  pub overflowed : Bool

module _ {ℓ} {E : Type ℓ} where
  -- The constructor.
  pub new : ℕ → String → RingBuffer E
  new capacity uuid = record {
    entries = [];
    capacity = max 1 capacity;
    next_seq = 1;
    generation = uuid;
  }

  -- `decorate ? decorate(seq, generation) : event`
  pub decorated : Option (ℕ → String → E) → E → ℕ → String → E
  decorated none event seq generation = event
  decorated (some decorate) event seq generation = decorate seq generation

  -- The `splice` that drops the oldest entries over the capacity.
  pub trim : ℕ → List (RingBufferEntry E) → List (RingBufferEntry E)
  trim capacity entries =
      if ltb capacity (length entries) then drop (length entries - capacity) entries else entries

  pub push : RingBuffer E → E → Option (ℕ → String → E) → RingBuffer E × RingBufferEntry E
  unfolding decorated
  push r event decorate =
      let entry : RingBufferEntry E = record {
        seq = r.next_seq;
        event = decorated decorate event r.next_seq r.generation;
      } in
      (
        record r { entries = trim r.capacity (r.entries ++ entry ∷ []); next_seq = r.next_seq + 1 },
        entry,
      )

  -- `this.entries.at(-1)?.seq ?? 0`
  pub last_seq : Option (RingBufferEntry E) → ℕ
  last_seq none = 0
  last_seq (some entry) = entry.seq

  pub latest_sequence : RingBuffer E → ℕ
  unfolding last_seq
  latest_sequence r = last_seq (last? r.entries)

  unfoldable pub size : RingBuffer E → ℕ
  size r = length r.entries

  -- The part of `replaySince` behind the first test, by the oldest entry. On numbers from 0 the
  -- test `last < seq - 1` reads alike with a difference that stops at 0.
  pub replay_from : ℕ → List (RingBufferEntry E) → Replay E
  replay_from last [] = record { replayed = []; overflowed = false }
  replay_from last (oldest ∷ rest) =
      if ltb last (oldest.seq - 1)
      then record { replayed = oldest ∷ rest; overflowed = true }
      else record {
        replayed = filter (λ entry. ltb last entry.seq) (oldest ∷ rest);
        overflowed = false;
      }

  pub replay_since : RingBuffer E → ℕ → Replay E
  replay_since r last =
      if ltb (latest_sequence r) last
      then record { replayed = r.entries; overflowed = true }
      else replay_from last r.entries

  pub clear : RingBuffer E → String → RingBuffer E
  clear r uuid = record r { entries = []; next_seq = 1; generation = uuid }
