-- ===== src/Sequence/Allocator.antt =====
-- Sequence numbers as the running integration hands them out: `ProxyClient._next_seq`
-- (custom_components/amaran_ble/amaranble/proxy.py) with the hooks that
-- custom_components/amaran_ble/device.py installs (`async_start`, `_async_before_sequence`,
-- `_on_sequence`, `_async_save_sequence`). The proxy's lock serialises the calls, so each is a step.
use ha_amaran_ble.Base.{ℕ, ◌+◌, Result, ok, err, proxy_error, ltb, if◌then◌else◌, ◌>>=◌}
use ha_amaran_ble.Sequence.{SequenceReservation, max_sequence, create, ensure_reserved, mark_next}
use ha_amaran_ble.Sequence.Stores.{
  Disk, Fate, sequence_checkpoint, load_sequence_stores, save_sequence_stores,
}

-- The device's own copy of the next number outlives a proxy, which starts from it.
pub record Memory : Type 0 where
  pub reservation : SequenceReservation
  pub sequence : ℕ
  pub proxy_sequence : ℕ

-- `AmaranDevice.async_start`, and the proxy of the first connection.
unfoldable pub async_start : Disk → ℕ → Result Memory
unfolding create load_sequence_stores
async_start d initial_sequence = do
  r ← create (load_sequence_stores d) sequence_checkpoint initial_sequence
  ok (record { reservation = r; sequence = r.next_sequence; proxy_sequence = r.next_sequence })

-- A new `ProxyClient` on a new connection.
unfoldable pub reconnect : Memory → Memory
reconnect m = record m { proxy_sequence = m.sequence }

-- `_on_sequence`, after the proxy has advanced its own counter.
unfoldable pub on_sequence : Memory → ℕ → Memory
unfolding mark_next
on_sequence m sequence = record m {
  reservation = mark_next m.reservation sequence;
  sequence = sequence;
}

abbrev hand_out : Memory → Result (Unit {0}) × SequenceReservation × Disk → Result ℕ × Memory × Disk
hand_out m (err e, r, d) = (err e, record m { reservation = r }, d)
hand_out m (ok _, r, d) =
    let m' = record m { reservation = r; proxy_sequence = m.proxy_sequence + 1 } in
    (ok m.proxy_sequence, on_sequence m' (m.proxy_sequence + 1), d)

unfoldable pub next_seq : Fate → Fate → Memory → Disk → Result ℕ × Memory × Disk
unfolding ensure_reserved on_sequence
next_seq stable_fate compatibility_fate m d =
    if ltb max_sequence m.proxy_sequence
    then (err proxy_error, m, d)
    else hand_out m (
        ensure_reserved (save_sequence_stores stable_fate compatibility_fate) m.reservation d
          m.proxy_sequence)
