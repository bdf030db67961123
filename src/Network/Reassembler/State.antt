-- ===== src/Network/Reassembler/State.antt =====
-- The state of `SegmentReassembler` (custom_components/amaran_ble/amaranble/network.py), what expires
-- from it, and the count of what it tracks.
use ha_amaran_ble.Base.{
  ℕ, ◌+◌, max, ◌≡◌, ◌↔◌, Bool, true, false, not, ◌&&◌, ◌||◌, Option, none, some, List, [], ◌∷◌, ltb,
  leb, ◌==◌, if◌then◌else◌, bit_or, arith,
}
use ha_amaran_ble.Base.Bits.{shl}
use ha_amaran_ble.Base.Bytes.{Bytes}
use ha_amaran_ble.Base.Dict.{Dict, Eq, nat_Eq, get, put, remove}
use ha_amaran_ble.Network.Segments.{AccessSegment}

-- (src, dst) and (src, dst, seq_auth)
pub record Pair : Type 0 where
  pub src : ℕ
  pub dst : ℕ

pub record Key : Type 0 where
  pub pair : Pair
  pub seq_auth : ℕ

abbrev pub pair_beq : Pair → Pair → Bool
pair_beq p q = (p.src == q.src) && (p.dst == q.dst)

pub pair_beq_iff : (p q : Pair) → (pair_beq p q ≡ true) ↔ (p ≡ q)
pair_beq_iff p q = ground arith

instance abbrev pub pair_Eq : Eq Pair
pair_Eq = record { beq = pair_beq; beq_iff = pair_beq_iff }

abbrev pub key_beq : Key → Key → Bool
key_beq k j = pair_beq k.pair j.pair && (k.seq_auth == j.seq_auth)

pub key_beq_iff : (k j : Key) → (key_beq k j ≡ true) ↔ (k ≡ j)
key_beq_iff k j = ground arith

instance abbrev pub key_Eq : Eq Key
key_Eq = record { beq = key_beq; beq_iff = key_beq_iff }

pub record PendingSegments : Type 0 where
  pub akf : ℕ
  pub aid : ℕ
  pub szmic : ℕ
  pub seg_n : ℕ
  pub segments : Dict ℕ Bytes
  pub segment_sequences : Dict ℕ ℕ
  pub updated_at : ℕ

pub record CompletedSegments : Type 0 where
  pub seq_auth : ℕ
  pub acked_segments : ℕ
  pub akf : ℕ
  pub aid : ℕ
  pub szmic : ℕ
  pub seg_n : ℕ

pub record Reassembler : Type 0 where
  pub timeout : ℕ
  pub max_pending : ℕ
  pub max_completed : ℕ
  pub pending : Dict Key PendingSegments
  pub completed : Dict Pair CompletedSegments
  pub discarded : Dict Pair ℕ

pub record AddResult : Type 0 where
  pub segment : AccessSegment
  pub block_ack : ℕ
  pub upper_pdu : Option Bytes
  pub last_segment_seq : Option ℕ
  pub already_complete : Bool

-- `self._discarded.get(pair, -1) >= seq_auth`
abbrev pub is_discarded : Reassembler → Pair → ℕ → Bool
is_discarded r pair seq_auth = elim (get pair r.discarded) [
  | none ↦ false
  | some d ↦ leb seq_auth d
]

abbrev pub raised_mark : Reassembler → Key → ℕ
raised_mark r key = elim (get key.pair r.discarded) [
  | none ↦ key.seq_auth
  | some d ↦ max key.seq_auth d
]

abbrev pub is_superseded : Reassembler → Key → Bool
is_superseded r key = elim (get key.pair r.completed) [
  | none ↦ false
  | some c ↦ leb c.seq_auth key.seq_auth
]

-- One expired transaction: its SeqAuth becomes a watermark that also replaces an older completion.
unfoldable pub discard : Reassembler → Key → Reassembler
discard r key = record r {
  pending = remove key r.pending;
  discarded = put key.pair (raised_mark r key) r.discarded;
  completed = if is_superseded r key then remove key.pair r.completed else r.completed;
}

-- The loop of `_prune` over the entries that were pending when it began.
unfoldable pub prune_entries : ℕ → Dict Key PendingSegments → Reassembler → Reassembler
prune_entries now [] r = r
prune_entries now ((key, p) ∷ rest) r =
    prune_entries now rest (if leb (p.updated_at + r.timeout) now then discard r key else r)

unfoldable pub prune : ℕ → Reassembler → Reassembler
unfolding prune_entries discard
prune now r = prune_entries now r.pending r

unfoldable pub bitmap : Dict ℕ Bytes → ℕ → ℕ
bitmap [] acc = acc
bitmap ((seg_o, _) ∷ rest) acc = bitmap rest (bit_or acc (shl 1 seg_o))

abbrev pub acked_of : Option CompletedSegments → ℕ → Option ℕ
acked_of none seq_auth = none
acked_of (some c) seq_auth = if c.seq_auth == seq_auth then some c.acked_segments else none

unfoldable pub completed_ack : Reassembler → Pair → ℕ → ℕ → Option ℕ × Reassembler
completed_ack r pair seq_auth now =
    let r' = prune now r in
    (if is_discarded r' pair seq_auth then none else acked_of (get pair r'.completed) seq_auth, r')

-- An earlier transaction of the pair is dropped, a later one makes the segment stale; the flag
-- says that the loop was left by the raise.
unfoldable pub supersede :
    List Key → Pair → ℕ → Dict Key PendingSegments → Bool × Dict Key PendingSegments
supersede [] pair seq_auth d = (false, d)
supersede (key ∷ rest) pair seq_auth d =
    let others = supersede rest pair seq_auth d in
    let newer = supersede rest pair seq_auth (remove key d) in
    if not (pair_beq key.pair pair)
    then others
    else if ltb seq_auth key.seq_auth
    then (true, d)
    else newer

abbrev pub keys {ℓ} : {K V : Type ℓ} → Dict K V → List K
keys [] = []
keys ((k, _) ∷ d) = k ∷ keys d

abbrev pub pending_pairs : Dict Key PendingSegments → List Pair
pending_pairs [] = []
pending_pairs ((k, _) ∷ d) = k.pair ∷ pending_pairs d

unfoldable pub contains : Pair → List Pair → Bool
contains p [] = false
contains p (q ∷ rest) = pair_beq q p || contains p rest

-- `set(...)` and its updates.
unfoldable pub insert_all : List Pair → List Pair → List Pair
unfolding contains
insert_all [] set = set
insert_all (p ∷ rest) set = insert_all rest (if contains p set then set else p ∷ set)

unfoldable pub tracked_pairs : Reassembler → Dict Key PendingSegments → List Pair
unfolding insert_all
tracked_pairs r pending =
    insert_all (pending_pairs pending)
      (insert_all (keys r.discarded) (insert_all (keys r.completed) []))
