-- ===== src/Sequence/Steps.antt =====
-- The life of one mesh's sequence numbers as a step relation: starts, allocations whose writes
-- succeed or fail, reconnections, and crashes at any point, also between the two writes of a save.
use ha_amaran_ble.Base.{
  ℕ, ◌+◌, ◌≤◌, ◌<◌, ◌≡◌, Option, none, some, Result, ok, err, List, [], ◌∷◌, All,
}
use ha_amaran_ble.Sequence.Stores.{Disk, Fate, disk_high_water}
use ha_amaran_ble.Sequence.Allocator.{Memory, async_start, reconnect, next_seq}

-- `used` lists the numbers handed to the mesh so far, the newest first.
pub record System : Type 0 where
  pub disk : Disk
  pub memory : Option Memory
  pub used : List ℕ

pub data Step (s : System) : System → Type 0 where
  start :
      (initial_sequence : ℕ) (m : Memory)
      → async_start s.disk initial_sequence ≡ ok m
      → Step s (record s { memory = some m })
  allocate :
      (f g : Fate) (m m' : Memory) (d : Disk) (n : ℕ)
      → s.memory ≡ some m
      → next_seq f g m s.disk ≡ (ok n, m', d)
      → Step s (record { disk = d; memory = some m'; used = n ∷ s.used })
  refuse :
      (f g : Fate) (m m' : Memory) (d : Disk) {e : ha_amaran_ble.Base.Error}
      → s.memory ≡ some m
      → next_seq f g m s.disk ≡ (err e, m', d)
      → Step s (record { disk = d; memory = some m'; used = s.used })
  new_connection :
      (m : Memory) → s.memory ≡ some m → Step s (record s { memory = some (reconnect m) })
  crash : Step s (record s { memory = none })
  crash_in_save :
      (f g : Fate) (m m' : Memory) (d : Disk) (r : Result ℕ)
      → s.memory ≡ some m
      → next_seq f g m s.disk ≡ (r, m', d)
      → Step s (record { disk = d; memory = none; used = s.used })

pub data Reach (s : System) : System → Type 0 where
  here : Reach s s
  later : {t u : System} → Reach s t → Step t u → Reach s u

-- The mark that a restart would begin from; 0 with empty stores.
abbrev pub durable_mark : Disk → ℕ
durable_mark d = elim (disk_high_water d) [ none ↦ 0 | some h ↦ h ]

-- Each number is above all that were used before it.
abbrev pub IsDecreasing : List ℕ → Type 0
IsDecreasing [] = Unit {0}
IsDecreasing (n ∷ rest) = All (λ u. u < n) rest × IsDecreasing rest

-- A mesh at rest: nothing runs, and what was used lies below the durable mark.
pub record IsAtRest (s : System) : Type 0 where
  pub stopped : s.memory ≡ none
  pub below : All (λ u. u < durable_mark s.disk) s.used
  pub decreasing : IsDecreasing s.used
