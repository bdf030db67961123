-- ===== src/Network/Reassembler.antt =====
-- `SegmentReassembler` (custom_components/amaran_ble/amaranble/network.py): bounded, expiring
-- reassembly by source, destination and SeqAuth. Every operation takes the current time, a number
-- of ticks, and returns the state also beside an error, since what was changed before a raise stays.
mod State
pub mod Watermark
pub mod Capacity
unfoldable pub use State.*
use ha_amaran_ble.Base.{
  ℕ, zero, suc, ◌+◌, ◌-◌, ◌^◌, max, ◌≡◌, ◌↔◌, refl, Bool, true, false, not, ◌&&◌, ◌||◌, Option,
  none, some, List, [], ◌∷◌, ◌++◌, map, Result, ok, err, Error, network_decode_error, key_error,
  ltb, leb, ◌==◌, if◌then◌else◌, length, bit_or, arith, ◌>>=◌,
}
use ha_amaran_ble.Base.Bits.{shl}
use ha_amaran_ble.Base.Bytes.{Bytes}
use ha_amaran_ble.Base.Dict.{Dict, Eq, nat_Eq, get, put, remove}
use ha_amaran_ble.Network.Segments.{AccessSegment}

abbrev pub new_pending : AccessSegment → ℕ → PendingSegments
new_pending s now = record {
  akf = s.akf;
  aid = s.aid;
  szmic = s.szmic;
  seg_n = s.seg_n;
  segments = [];
  segment_sequences = [];
  updated_at = now;
}

abbrev pub same_metadata : PendingSegments → AccessSegment → Bool
same_metadata p s =
    (p.akf == s.akf) && (p.aid == s.aid) && (p.szmic == s.szmic) && (p.seg_n == s.seg_n)

abbrev pub same_completed : CompletedSegments → AccessSegment → Bool
same_completed c s =
    (s.akf == c.akf) && (s.aid == c.aid) && (s.szmic == c.szmic) && (s.seg_n == c.seg_n)

abbrev pub same_bytes : Bytes → Bytes → Bool
same_bytes [] [] = true
same_bytes (x ∷ xs) (y ∷ ys) = (x == y) && same_bytes xs ys
same_bytes _ _ = false

-- pending.segments[i] for i in range(index, index + count), joined
unfoldable pub join_segments : ℕ → ℕ → Dict ℕ Bytes → Result Bytes
join_segments zero index d = ok []
join_segments (suc count) index d = elim (get index d) [
  | none ↦ err key_error
  | some chunk ↦ (do more ← join_segments count (index + 1) d; ok (chunk ++ more))
]

abbrev pub key_of : Pair → AccessSegment → Key
key_of pair s = record { pair = pair; seq_auth = s.seq_auth }

abbrev pub finish : Reassembler → Pair → AccessSegment → ℕ → Reassembler
finish r pair s full_ack = record r {
  pending = remove (key_of pair s) r.pending;
  discarded = remove pair r.discarded;
  completed =
      put pair
        (record {
          seq_auth = s.seq_auth;
          acked_segments = full_ack;
          akf = s.akf;
          aid = s.aid;
          szmic = s.szmic;
          seg_n = s.seg_n;
        })
        r.completed;
}

abbrev pub deliver :
    Reassembler
    → Pair
    → AccessSegment
    → ℕ
    → Result Bytes
    → Option ℕ
    → Result AddResult × Reassembler
deliver r pair s full_ack (err e) last = (err e, r)
deliver r pair s full_ack (ok upper) none = (err key_error, r)
deliver r pair s full_ack (ok upper) (some last) = (
  ok (record {
    segment = s;
    block_ack = full_ack;
    upper_pdu = some upper;
    last_segment_seq = some last;
    already_complete = false;
  }),
  finish r pair s full_ack,
)

-- The entry with the segment stored in it.
abbrev pub store_segment : PendingSegments → ℕ → AccessSegment → ℕ → PendingSegments
store_segment p seq s now = record p {
  segments = put s.seg_o s.payload p.segments;
  segment_sequences =
      put s.seg_o (elim (get s.seg_o p.segment_sequences) [ none ↦ seq | some q ↦ max seq q ])
        p.segment_sequences;
  updated_at = now;
}

abbrev pub changed_payload : PendingSegments → AccessSegment → Bool
changed_payload p s = elim (get s.seg_o p.segments) [
  | none ↦ false
  | some old ↦ not (same_bytes old s.payload)
]

-- From `old_payload` on: `p` is the entry of the key, which is among the pending ones.
unfoldable pub add_to_pending :
    Reassembler → Pair → ℕ → AccessSegment → ℕ → PendingSegments → Result AddResult × Reassembler
add_to_pending r pair seq s now p =
    let p' = store_segment p seq s now in
    let r' = record r { pending = put (key_of pair s) p' r.pending } in
    let block_ack = bitmap p'.segments 0 in
    let full_ack = 2 ^ (s.seg_n + 1) - 1 in
    if changed_payload p s
    then (err network_decode_error, r)
    else if not (block_ack == full_ack)
    then (
      ok (record {
        segment = s;
        block_ack = block_ack;
        upper_pdu = none;
        last_segment_seq = none;
        already_complete = false;
      }),
      r',
    )
    else deliver r' pair s full_ack (join_segments (s.seg_n + 1) 0 p'.segments)
        (get s.seg_n p'.segment_sequences)

-- The first segment of a transaction: older ones of the pair go, and the capacities are checked.
unfoldable pub add_new : Reassembler → Pair → ℕ → AccessSegment → ℕ → Result AddResult × Reassembler
add_new r pair seq s now =
    let (stale, pending) = supersede (keys r.pending) pair s.seq_auth r.pending in
    let r' = record r { pending = pending } in
    let tracked = tracked_pairs r pending in
    let p = new_pending s now in
    if stale
    then (err network_decode_error, r')
    else if leb r.max_pending (length pending)
    then (err network_decode_error, r')
    else if not (contains pair tracked) && leb r.max_completed (length tracked)
    then (err network_decode_error, r')
    else add_to_pending (record r { pending = put (key_of pair s) p pending }) pair seq s now p

unfoldable pub add_known :
    Reassembler
    → Pair
    → ℕ
    → AccessSegment
    → ℕ
    → Option PendingSegments
    → Result AddResult × Reassembler
add_known r pair seq s now none = add_new r pair seq s now
add_known r pair seq s now (some p) =
    if same_metadata p s then add_to_pending r pair seq s now p else (err network_decode_error, r)

abbrev pub add_open : Reassembler → Pair → ℕ → AccessSegment → ℕ → Result AddResult × Reassembler
add_open r pair seq s now = add_known r pair seq s now (get (key_of pair s) r.pending)

unfoldable pub add_completed :
    Reassembler
    → Pair
    → ℕ
    → AccessSegment
    → ℕ
    → Option CompletedSegments
    → Result AddResult × Reassembler
add_completed r pair seq s now none = add_open r pair seq s now
add_completed r pair seq s now (some c) =
    if ltb s.seq_auth c.seq_auth
    then (err network_decode_error, r)
    else if not (s.seq_auth == c.seq_auth)
    then add_open r pair seq s now
    else if same_completed c s
    then (
      ok (record {
        segment = s;
        block_ack = c.acked_segments;
        upper_pdu = none;
        last_segment_seq = none;
        already_complete = true;
      }),
      r,
    )
    else (err network_decode_error, r)

-- `add` with the parsed segment that its caller hands over.
unfoldable pub add : Reassembler → Pair → ℕ → AccessSegment → ℕ → Result AddResult × Reassembler
add r0 pair seq s now =
    let r = prune now r0 in
    if is_discarded r pair s.seq_auth
    then (err network_decode_error, r)
    else add_completed r pair seq s now (get pair r.completed)
