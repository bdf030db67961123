-- ===== src/Proxy/Sending/Segmented.antt =====
-- `_send_segmented` of ProxyClient (custom_components/amaran_ble/amaranble/proxy.py).
use ha_amaran_ble.Base.{
  ℕ, zero, suc, ◌+◌, Bool, true, false, Option, none, some, List, [], ◌∷◌, Result, ok, err,
  proxy_error, leb, ◌==◌, if◌then◌else◌, length,
}
use ha_amaran_ble.Base.Bits.{shr, low_bits}
use ha_amaran_ble.Base.Bytes.{Bytes}
use ha_amaran_ble.Base.Dict.{Dict, get, put, remove, nat_Eq}
use ha_amaran_ble.Base.Exec.{Exec, lift, pure, raise, modify, ◌>>=◌, ◌>>◌}
use ha_amaran_ble.Network.Segments.{SegmentAck, build_access_segments}
use ha_amaran_ble.Proxy.{PendingSegmentAck, Output, acknowledged_by}
use ha_amaran_ble.Proxy.Sending.{Link, Sending, next_seq, transmit, upper_pdu, arrive}

-- The first segment of the first attempt goes under the number of the encryption.
abbrev pub number_for : Sending → Option ℕ → Exec Link ℕ
number_for a none = next_seq a.before_sequence
number_for a (some seq) = pure seq

-- `for index in sorted(outstanding)`
unfoldable pub send_round : Sending → Option ℕ → List (ℕ × Bytes) → Exec Link (Unit {0})
send_round a first [] = pure tt
send_round a first ((index, segment) ∷ rest) = do
  seq ← number_for a first
  transmit a seq segment
  send_round a none rest

-- The acknowledgement that completes the future of this transaction.
abbrev pub ack_for : ℕ → List Output → Option SegmentAck
ack_for seq_zero [] = none
ack_for seq_zero (acknowledged_by z ack ∷ rest) =
    if z == seq_zero then some ack else ack_for seq_zero rest
ack_for seq_zero (_ ∷ rest) = ack_for seq_zero rest

-- `asyncio.wait_for(asyncio.shield(pending_ack.future), timeout=1.5)`, with `none` for a timeout.
unfoldable pub wait_ack : Sending → ℕ → Exec Link (Option SegmentAck)
wait_ack a seq_zero = do outputs ← arrive a.cipher; pure (ack_for seq_zero outputs)

-- The segments whose bit is not set in the mask.
abbrev pub missing : ℕ → List (ℕ × Bytes) → List (ℕ × Bytes)
missing mask [] = []
missing mask ((index, segment) ∷ rest) =
    if low_bits (shr mask index) 1 == 0
    then (index, segment) ∷ missing mask rest
    else missing mask rest

abbrev pub acknowledged_of : Option PendingSegmentAck → ℕ
acknowledged_of none = 0
acknowledged_of (some p) = p.acknowledged

abbrev pub mask_of : ℕ → Link → ℕ
mask_of seq_zero s = acknowledged_of (get seq_zero s.client.pending_ack)

-- `pending_ack.future = loop.create_future()`
abbrev pub renewed :
    Option PendingSegmentAck → ℕ → Dict ℕ PendingSegmentAck → Dict ℕ PendingSegmentAck
renewed none seq_zero d = d
renewed (some p) seq_zero d = put seq_zero (record p { done = false }) d

abbrev pub renew_future : ℕ → Link → Link
renew_future seq_zero s = record s {
  client = record s.client {
    pending_ack = renewed (get seq_zero s.client.pending_ack) seq_zero s.client.pending_ack;
  };
}

abbrev pub unless_complete :
    ℕ → (List (ℕ × Bytes) → Exec Link (Unit {0})) → List (ℕ × Bytes) → Exec Link (Unit {0})
unless_complete seq_zero rest [] s = (ok tt, s)
unless_complete seq_zero rest (m ∷ ms) s = rest (m ∷ ms) (renew_future seq_zero s)

-- What one wait leads to: `rest` is the next attempt.
abbrev pub decide :
    ℕ
    → List (ℕ × Bytes)
    → List (ℕ × Bytes)
    → (List (ℕ × Bytes) → Exec Link (Unit {0}))
    → Option SegmentAck
    → Exec Link (Unit {0})
decide seq_zero segments outstanding rest none s = rest outstanding s
decide seq_zero segments outstanding rest (some ack) s =
    if ack.block_ack == 0
    then (err proxy_error, s)
    else unless_complete seq_zero rest (missing (mask_of seq_zero s) segments) s

abbrev pub unless_group : Bool → Exec Link (Unit {0}) → Exec Link (Unit {0})
unless_group true wait s = (ok tt, s)
unless_group false wait s = wait s

-- `for attempt in range(4)`; group and broadcast destinations are never acknowledged.
unfoldable pub attempts :
    Sending → ℕ → List (ℕ × Bytes) → ℕ → Option ℕ → List (ℕ × Bytes) → Exec Link (Unit {0})
attempts a seq_zero segments zero first outstanding = raise proxy_error
attempts a seq_zero segments (suc n) first outstanding = do
  send_round a first outstanding
  unless_group (leb 0x8000 a.dst) (
      wait_ack a seq_zero
      >>= decide seq_zero segments outstanding (attempts a seq_zero segments n none))

abbrev pub numbered : ℕ → List Bytes → List (ℕ × Bytes)
numbered index [] = []
numbered index (segment ∷ rest) = (index, segment) ∷ numbered (index + 1) rest

abbrev pub put_pending : ℕ → PendingSegmentAck → Link → Link
put_pending seq_zero p s = record s {
  client = record s.client { pending_ack = put seq_zero p s.client.pending_ack };
}

-- `finally: self._pending_ack.pop(seq_zero, None)`
abbrev pub pop_pending : ℕ → Result (Unit {0}) × Link → Result (Unit {0}) × Link
pop_pending seq_zero (r, s) = (
  r,
  record s { client = record s.client { pending_ack = remove seq_zero s.client.pending_ack } },
)

abbrev pub new_pending : ℕ → ℕ → PendingSegmentAck
new_pending dst count = record { done = false; dst = dst; segment_count = count; acknowledged = 0 }

unfoldable pub send_segmented : Sending → Bytes → Exec Link (Unit {0})
send_segmented a access_pdu = do
  seq ← next_seq a.before_sequence
  upper ← upper_pdu a seq access_pdu
  let seq_zero = low_bits seq 13
  segments ← lift (build_access_segments a.akf a.aid seq_zero upper 0)
  modify (put_pending seq_zero (new_pending a.dst (length segments)))
  λ s.
      pop_pending seq_zero
        (attempts a seq_zero (numbered 0 segments) 4 (some seq) (numbered 0 segments) s)
