-- ===== src/Sequence.antt =====
-- Crash-safe sequence number reservations (custom_components/amaran_ble/amaranble/sequence.py).
-- A Python integer that the code keeps non-negative is a native number. The mapping that is stored
-- has the two keys that the code reads and writes, each present or not.
pub mod Stores
pub mod Allocator
pub mod Steps
pub mod Fresh
pub mod Laws
mod Examples
use ha_amaran_ble.Base.{
  ℕ, ◌+◌, ◌-◌, ◌*◌, ◌/◌, min, max, Option, none, some, Result, ok, err, guard, value_error,
  sequence_exhausted, leb, ltb, if◌then◌else◌, ◌>>=◌, ◌>>◌,
}

abbrev pub max_sequence : ℕ
max_sequence = 0xFFFFFF

abbrev pub sequence_space : ℕ
sequence_space = max_sequence + 1

pub record Stored : Type 0 where
  pub reserved_until : Option ℕ
  pub sequence : Option ℕ

pub record SequenceReservation : Type 0 where
  pub next_sequence : ℕ
  pub reserved_until : ℕ
  pub block_size : ℕ

-- With no store, `minimum_sequence` is raised to a block and rounded up to a whole block.
abbrev pub first_sequence : Stored → ℕ → ℕ → ℕ
first_sequence stored block_size minimum_sequence = elim stored.reserved_until [
  | some r ↦ max r minimum_sequence
  | none ↦ elim stored.sequence [
    | some s ↦ max (s + block_size) minimum_sequence
    | none ↦ (max minimum_sequence block_size + block_size - 1) / block_size * block_size
  ]
]

unfoldable pub create : Stored → ℕ → ℕ → Result SequenceReservation
create stored block_size minimum_sequence = do
  guard (leb 1 block_size) value_error
  let next_sequence = first_sequence stored block_size minimum_sequence
  ok (record {
    next_sequence = next_sequence;
    reserved_until = next_sequence;
    block_size = block_size;
  })

-- The end of the block that starts at `sequence`, which is what is written.
abbrev pub block_end : SequenceReservation → ℕ → ℕ
block_end r sequence = min (sequence + r.block_size) sequence_space

abbrev pub block_record : ℕ → Stored
block_record n = record { reserved_until = some n; sequence = some n }

-- `ensure_reserved`, over whatever state `S` the `save` callback changes: memory follows a save
-- that succeeded, and an exception of `save` leaves the reservation as it was.
module _ {S : Type 0} (save : Stored → S → Result (Unit {0}) × S) where
  abbrev after_save :
      SequenceReservation → ℕ → Result (Unit {0}) × S → Result (Unit {0}) × SequenceReservation × S
  after_save r reserved_until (ok _, s) = (ok tt, record r { reserved_until = reserved_until }, s)
  after_save r reserved_until (err e, s) = (err e, r, s)

  unfoldable pub ensure_reserved :
      SequenceReservation → S → ℕ → Result (Unit {0}) × SequenceReservation × S
  ensure_reserved r s sequence =
      if ltb max_sequence sequence
      then (err sequence_exhausted, r, s)
      else if ltb sequence r.reserved_until
      then (ok tt, r, s)
      else after_save r (block_end r sequence) (save (block_record (block_end r sequence)) s)

unfoldable pub mark_next : SequenceReservation → ℕ → SequenceReservation
mark_next r sequence = record r { next_sequence = sequence }
