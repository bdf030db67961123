-- ===== src/Sequence/Stores.antt =====
-- The two durable stores behind a reservation (custom_components/amaran_ble/device.py,
-- `_async_verified_sequence_save` to `_async_save_sequence_stores`). Home Assistant's `Store` is
-- not part of the repository: a write either replaces the stored mapping or, its failure being
-- logged and not raised, leaves the old one. Which of the two happens is an input, a `Fate`.
use ha_amaran_ble.Base.{
  ℕ, ◌+◌, max, Bool, true, false, ◌&&◌, Option, none, some, Result, ok, err, storage_error, ◌==◌,
  if◌then◌else◌,
}
use ha_amaran_ble.Sequence.{Stored, block_record}

abbrev pub sequence_checkpoint : ℕ
sequence_checkpoint = 512

pub data Fate : Type 0 where
  written lost : Fate

-- What `Store.async_load` returns: `none` before the first write.
abbrev pub Contents : Type 0
Contents = Option Stored

-- Stable store, and the compatibility store of an older entry, which may be absent.
pub record Disk : Type 0 where
  pub stable : Contents
  pub compatibility : Option Contents

abbrev pub async_save : Fate → Contents → Stored → Contents
async_save written old new = some new
async_save lost old new = old

abbrev same_entry : Option ℕ → Option ℕ → Bool
same_entry (some a) (some b) = a == b
same_entry none none = true
same_entry _ _ = false

abbrev same_contents : Contents → Stored → Bool
same_contents none d = false
same_contents (some c) d =
    same_entry c.reserved_until d.reserved_until && same_entry c.sequence d.sequence

-- The write, and the read-back that makes its failure visible.
unfoldable pub verified_sequence_save : Fate → Contents → Stored → Result (Unit {0}) × Contents
verified_sequence_save fate old new =
    let persisted = async_save fate old new in
    if same_contents persisted new then (ok tt, persisted) else (err storage_error, persisted)

unfoldable pub sequence_high_water : Contents → Option ℕ
sequence_high_water none = none
sequence_high_water (some c) = elim c.reserved_until [
  | some r ↦ some r
  | none ↦ elim c.sequence [ some s ↦ some (s + sequence_checkpoint) | none ↦ none ]
]

-- `max` over the high-water marks that are there.
abbrev pub merge_high_waters : Option ℕ → Option ℕ → Option ℕ
merge_high_waters none b = b
merge_high_waters (some a) none = some a
merge_high_waters (some a) (some b) = some (max a b)

abbrev compatibility_high_water : Option Contents → Option ℕ
compatibility_high_water none = none
compatibility_high_water (some c) = sequence_high_water c

unfoldable pub disk_high_water : Disk → Option ℕ
unfolding sequence_high_water
disk_high_water d =
    merge_high_waters (sequence_high_water d.stable) (compatibility_high_water d.compatibility)

-- An absent mark loads as the empty mapping.
unfoldable pub load_sequence_stores : Disk → Stored
unfolding disk_high_water
load_sequence_stores d = elim (disk_high_water d) [
  | none ↦ record { reserved_until = none; sequence = none }
  | some h ↦ block_record h
]

abbrev save_compatibility : Fate → Disk → Stored → Result (Unit {0}) × Disk
save_compatibility fate d new = elim d.compatibility [
  | none ↦ (ok tt, d)
  | some c ↦
      let (r, c') = verified_sequence_save fate c new in (r, record d { compatibility = some c' })
]

-- Stable first; the compatibility store is written only after the stable write was verified.
unfoldable pub save_sequence_stores : Fate → Fate → Stored → Disk → Result (Unit {0}) × Disk
unfolding verified_sequence_save
save_sequence_stores stable_fate compatibility_fate new d =
    let (r, c) = verified_sequence_save stable_fate d.stable new in
    let d' = record d { stable = c } in
    elim r [ err e ↦ (err e, d') | ok _ ↦ save_compatibility compatibility_fate d' new ]
