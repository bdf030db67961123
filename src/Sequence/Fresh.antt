-- ===== src/Sequence/Fresh.antt =====
-- No sequence number is used twice, whatever is written, lost, restarted or cut short.
use ha_amaran_ble.Base.{
  ℕ, ◌+◌, ◌≤◌, ◌<◌, ◌≡◌, Option, none, some, Error, Result, ok, err, List, [], ◌∷◌, All, arith,
}
use ha_amaran_ble.Sequence.{block_end, block_record}
use ha_amaran_ble.Sequence.Stores.{Disk, Fate, disk_high_water, save_sequence_stores}
use ha_amaran_ble.Sequence.Allocator.{Memory, async_start, reconnect, next_seq}
use ha_amaran_ble.Sequence.Steps.{
  System, Step, Reach, start, allocate, refuse, new_connection, crash, crash_in_save, here, later,
  durable_mark, IsDecreasing, IsAtRest,
}

-- One more than the newest number: a decreasing list lies below it.
abbrev above : List ℕ → ℕ
above [] = 0
above (n ∷ _) = n + 1

-- A save keeps a bound below the mark, and one that succeeds moves the mark to the new record.
save_mark :
    (f g : Fate) (n b : ℕ) (d : Disk)
    → b ≤ n
    → b ≤ durable_mark d
    → b ≤ durable_mark (save_sequence_stores f g (block_record n) d).1
unfolding save_sequence_stores disk_high_water
save_mark f g n b d p q = ground arith

save_mark_ok :
    (f g : Fate) (n : ℕ) (d : Disk)
    → (save_sequence_stores f g (block_record n) d).0 ≡ ok tt
    → n ≤ durable_mark (save_sequence_stores f g (block_record n) d).1
unfolding save_sequence_stores disk_high_water
save_mark_ok f g n d p = ground arith

-- What relates memory to the disk and to the numbers used.
record IsSound (m : Memory) (mark next : ℕ) : Type 0 where
  synced : m.proxy_sequence ≡ m.sequence
  ahead : next ≤ m.sequence
  block : 1 ≤ m.reservation.block_size
  reserved : m.sequence < m.reservation.reserved_until → m.reservation.reserved_until ≤ mark

Sound? : Option Memory → ℕ → ℕ → Type 0
Sound? none mark next = Unit
Sound? (some m) mark next = IsSound m mark next

record Inv (s : System) : Type 0 where
  covered : above s.used ≤ durable_mark s.disk
  memory : Sound? s.memory (durable_mark s.disk) (above s.used)
  decreasing : IsDecreasing s.used

async_start-IsSound :
    (d : Disk) (initial_sequence next : ℕ) (m : Memory)
    → next ≤ durable_mark d
    → async_start d initial_sequence ≡ ok m
    → IsSound m (durable_mark d) next
unfolding async_start disk_high_water
async_start-IsSound d i next m h e = ground arith

-- The record that an allocation writes, if it writes one.
abbrev next_block : Memory → ℕ
next_block m = block_end m.reservation m.proxy_sequence

next_seq-mark :
    (f g : Fate) (m m' : Memory) (d d' : Disk) (r : Result ℕ) (next : ℕ)
    → IsSound m (durable_mark d) next
    → next ≤ durable_mark d
    → next_seq f g m d ≡ (r, m', d')
    → next ≤ durable_mark d'
unfolding next_seq
next_seq-mark f g m m' d d' r next v h e = ground (arith, save_mark f g (next_block m) next d)

-- After a refusal memory still fits the disk.
next_seq-IsSound_err :
    (f g : Fate) (m m' : Memory) (d d' : Disk) (x : Error) (next : ℕ)
    → IsSound m (durable_mark d) next
    → next_seq f g m d ≡ (err x, m', d')
    → IsSound m' (durable_mark d') next
unfolding next_seq
next_seq-IsSound_err f g m m' d d' x next v e = ground (arith, save_mark f g (next_block m) next d)

-- A number that is handed out lies above all that were used, and below the mark on the disk.
next_seq-IsSound_ok :
    (f g : Fate) (m m' : Memory) (d d' : Disk) (n next : ℕ)
    → IsSound m (durable_mark d) next
    → next_seq f g m d ≡ (ok n, m', d')
    → (next ≤ n) × (n < durable_mark d') × IsSound m' (durable_mark d') (n + 1)
unfolding next_seq
next_seq-IsSound_ok f g m m' d d' n next v e = ground (arith, save_mark_ok f g (next_block m) d)

below_above : (b : ℕ) (l : List ℕ) → IsDecreasing l → above l ≤ b → All (λ u. u < b) l
below_above b [] d h = tt
below_above b (n ∷ l) d h = (omega arith, all_lt_trans l d.0)
  where
    all_lt_trans : (k : List ℕ) → All (λ u. u < n) k → All (λ u. u < b) k
    all_lt_trans [] x = tt
    all_lt_trans (u ∷ k) x = (omega (arith, x.0), all_lt_trans k x.1)

above_below : (b : ℕ) (l : List ℕ) → All (λ u. u < b) l → above l ≤ b
above_below b [] h = omega arith
above_below b (n ∷ l) h = omega arith

IsAtRest-Inv : (s : System) → IsAtRest s → Inv s
unfolding Sound?
IsAtRest-Inv s r = record {
  covered = above_below (durable_mark s.disk) s.used r.below;
  memory = rw r.stopped tt;
  decreasing = r.decreasing;
}

IsSound-of :
    (s : System) (m : Memory)
    → s.memory ≡ some m
    → Inv s
    → IsSound m (durable_mark s.disk) (above s.used)
unfolding Sound?
IsSound-of s m e v = rw e at v.memory

reconnect-IsSound :
    (m : Memory) (mark next : ℕ) → IsSound m mark next → IsSound (reconnect m) mark next
unfolding reconnect
reconnect-IsSound m mark next v = ground arith

Step-Inv : (s t : System) → Step s t → Inv s → Inv t
unfolding Sound?
Step-Inv s _ (start i m e) v = record {
  covered = v.covered;
  memory = async_start-IsSound s.disk i (above s.used) m v.covered e;
  decreasing = v.decreasing;
}
Step-Inv s _ (allocate f g m m' d n e r) v =
    let (low, high, sound) =
      next_seq-IsSound_ok f g m m' s.disk d n (above s.used) (IsSound-of s m e v) r in
    record {
      covered = omega arith;
      memory = sound;
      decreasing = (below_above n s.used v.decreasing low, v.decreasing);
    }
Step-Inv s _ (refuse f g m m' d {e = x} e r) v = record {
  covered = next_seq-mark f g m m' s.disk d (err x) (above s.used) (IsSound-of s m e v) v.covered r;
  memory = next_seq-IsSound_err f g m m' s.disk d x (above s.used) (IsSound-of s m e v) r;
  decreasing = v.decreasing;
}
Step-Inv s _ (new_connection m e) v = record {
  covered = v.covered;
  memory = reconnect-IsSound m (durable_mark s.disk) (above s.used) (IsSound-of s m e v);
  decreasing = v.decreasing;
}
Step-Inv s _ crash v = record { covered = v.covered; memory = tt; decreasing = v.decreasing }
Step-Inv s _ (crash_in_save f g m m' d r e q) v = record {
  covered = next_seq-mark f g m m' s.disk d r (above s.used) (IsSound-of s m e v) v.covered q;
  memory = tt;
  decreasing = v.decreasing;
}

Reach-Inv : (s t : System) → Reach s t → Inv s → Inv t
Reach-Inv s _ here v = v
Reach-Inv s _ (later {t = u} {u = t} r st) v = Step-Inv u t st (Reach-Inv s u r v)

-- From a mesh at rest, after any starts, allocations with failing or succeeding writes,
-- reconnections and crashes, each sequence number that was used is above all used before it, and
-- all of them lie below the mark on the disk from which the next start begins.
pub Reach-IsDecreasing :
    (s t : System)
    → IsAtRest s
    → Reach s t
    → IsDecreasing t.used × All (λ u. u < durable_mark t.disk) t.used
Reach-IsDecreasing s t rest r =
    let v : Inv t = Reach-Inv s t r (IsAtRest-Inv s rest) in
    (v.decreasing, below_above (durable_mark t.disk) t.used v.decreasing v.covered)
