-- ===== src/Sequence/Laws.antt =====
-- What a reservation starts from, and when an allocation succeeds.
use native.Mathlib.Nat.{lt-div-mul-add}
use ha_amaran_ble.Base.{
  ℕ, ◌+◌, ◌-◌, ◌≤◌, max, ◌≡◌, refl, none, some, ok, err, proxy_error, arith, ltb, if◌then◌else◌,
}
use ha_amaran_ble.Sequence.{Stored, SequenceReservation, max_sequence, first_sequence, create}
use ha_amaran_ble.Sequence.Stores.{Disk, written, save_sequence_stores}
use ha_amaran_ble.Sequence.Allocator.{Memory, next_seq}

-- A mark that the stored mapping speaks for.
abbrev pub stored_mark : Stored → ℕ → ℕ
stored_mark c block_size = elim c.reserved_until [
  | some r ↦ r
  | none ↦ elim c.sequence [ some q ↦ q + block_size | none ↦ block_size ]
]

-- With a block size of at least one, `create` succeeds and reserves nothing yet: the first number
-- is the exclusive bound itself, it is not below `minimum_sequence`, and it is not below the
-- stored high-water mark, a legacy mark plus one block, or one block with an empty store.
pub create_bounds :
    (c : Stored) (block_size minimum : ℕ)
    → 1 ≤ block_size
    → (r : SequenceReservation) × (create c block_size minimum ≡ ok r)
      × (r.reserved_until ≡ r.next_sequence)
      × (minimum ≤ r.next_sequence)
      × (stored_mark c block_size ≤ r.next_sequence)
unfolding create
create_bounds c block_size minimum h = (
  record {
    next_sequence = first_sequence c block_size minimum;
    reserved_until = first_sequence c block_size minimum;
    block_size = block_size;
  },
  ground arith,
  refl,
  ground (arith, lt-div-mul-add {a = max minimum block_size + block_size - 1} h),
  ground (arith, lt-div-mul-add {a = max minimum block_size + block_size - 1} h),
)

-- With both writes going through, every number up to 0xFFFFFF is handed out, whatever the stores
-- held and whatever is reserved; above it the call fails.
pub next_seq_outcome :
    (m : Memory) (d : Disk)
    → (next_seq written written m d).0
      ≡ (if ltb max_sequence m.proxy_sequence then err proxy_error else ok m.proxy_sequence)
unfolding next_seq save_sequence_stores
next_seq_outcome m d = ground arith
