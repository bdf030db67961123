-- ===== src/Sequence/Examples.antt =====
-- Runs of the sequence allocator on concrete stores, and the theorems applied to them.
use ha_amaran_ble.Base.{
  ◌≤◌, ◌<◌, ◌≡◌, refl, none, some, ok, err, [], ◌∷◌, All, arith, proxy_error, storage_error, ℕ,
}
use ha_amaran_ble.Sequence.{Stored, SequenceReservation, create, first_sequence}
use ha_amaran_ble.Sequence.Stores.{Disk, written, lost, load_sequence_stores, save_sequence_stores}
use ha_amaran_ble.Sequence.Allocator.{Memory, async_start, next_seq}
use ha_amaran_ble.Sequence.Steps.{
  System, Reach, start, allocate, crash, here, later, durable_mark, IsDecreasing, IsAtRest,
}
use ha_amaran_ble.Sequence.Fresh.{Reach-IsDecreasing}
use ha_amaran_ble.Sequence.Laws.{create_bounds, next_seq_outcome}

-- A rollback-compatible entry whose stable store is still empty.
abbrev old_disk : Disk
old_disk = record {
  stable = none;
  compatibility = some (some (record { reserved_until = none; sequence = some 700 }));
}

abbrev at_rest : System
at_rest = record { disk = old_disk; memory = none; used = 1100 ∷ 3 ∷ [] }

abbrev memory_at : ℕ → ℕ → Memory
memory_at n reserved = record {
  reservation = record { next_sequence = n; reserved_until = reserved; block_size = 512 };
  sequence = n;
  proxy_sequence = n;
}

abbrev saved_disk : Disk
saved_disk = record {
  stable = some (record { reserved_until = some 1724; sequence = some 1724 });
  compatibility = some (some (record { reserved_until = some 1724; sequence = some 1724 }));
}

starts : async_start old_disk 0 ≡ ok (memory_at 1212 1212)
unfolding async_start
starts = refl

allocates :
    next_seq written written (memory_at 1212 1212) old_disk
    ≡ (ok 1212, memory_at 1213 1724, saved_disk)
unfolding next_seq save_sequence_stores
allocates = refl

-- A write that is lost is noticed, and nothing is handed out.
refuses :
    next_seq lost written (memory_at 1212 1212) old_disk
    ≡ (err storage_error, memory_at 1212 1212, old_disk)
unfolding next_seq save_sequence_stores
refuses = refl

restarts : async_start saved_disk 0 ≡ ok (memory_at 1724 1724)
unfolding async_start
restarts = refl

abbrev crashed : System
crashed = record { disk = saved_disk; memory = none; used = 1212 ∷ 1100 ∷ 3 ∷ [] }

crash_run : Reach at_rest crashed
crash_run =
    later
      (later (later here (start 0 (memory_at 1212 1212) starts)) (
        allocate written written (memory_at 1212 1212) (memory_at 1213 1724) saved_disk 1212 refl
          allocates))
      crash

durable_mark-old_disk : durable_mark old_disk ≡ 1212
unfolding load_sequence_stores
durable_mark-old_disk = refl

at_rest-IsAtRest : IsAtRest at_rest
at_rest-IsAtRest = record {
  stopped = refl;
  below = rw durable_mark-old_disk (omega arith);
  decreasing = omega arith;
}

Reach-IsDecreasing_example :
    IsDecreasing (1212 ∷ 1100 ∷ 3 ∷ [])
    × All (λ u. u < durable_mark saved_disk) (1212 ∷ 1100 ∷ 3 ∷ [])
Reach-IsDecreasing_example = Reach-IsDecreasing at_rest crashed at_rest-IsAtRest crash_run

abbrev empty_store : Stored
empty_store = record { reserved_until = none; sequence = none }

create_bounds_example :
    (r : SequenceReservation) × (create empty_store 512 700 ≡ ok r)
    × (r.reserved_until ≡ r.next_sequence)
    × (700 ≤ r.next_sequence)
    × (512 ≤ r.next_sequence)
create_bounds_example = create_bounds empty_store 512 700 (omega arith)

create_rounds_up : first_sequence empty_store 512 700 ≡ 1024
create_rounds_up = refl

next_seq_outcome_example :
    (next_seq written written (memory_at 0x1000000 0x1000000) old_disk).0 ≡ err proxy_error
next_seq_outcome_example = next_seq_outcome (memory_at 0x1000000 0x1000000) old_disk
