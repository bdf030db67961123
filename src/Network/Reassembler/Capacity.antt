-- ===== src/Network/Reassembler/Capacity.antt =====
-- The reassembler never holds more transactions than it was configured for.
use ha_amaran_ble.Base.Dict.{
  Dict, get, get-put, length-put-le, length-put_present, length-remove-le, put, remove,
}
use ha_amaran_ble.Base.{ℕ, ◌≤◌, ◌≡◌, refl, Option, none, some, List, [], ◌∷◌, length, arith}
use ha_amaran_ble.Network.Segments.{AccessSegment}
use ha_amaran_ble.Network.Reassembler.{
  Pair, Key, key_beq_iff, key_Eq, pair_Eq, PendingSegments, CompletedSegments, Reassembler, discard,
  prune_entries, prune, add_to_pending, add_new, add_known, add_completed, add, supersede,
  store_segment, key_of, keys, new_pending,
}

-- As many transactions as the limit allows at most, under the limits given at the start.
pub record IsBounded (most : ℕ) (r : Reassembler) : Type 0 where
  pub limit : r.max_pending ≡ most
  pub held : length r.pending ≤ most

prune_entries-IsBounded :
    (most now : ℕ) (entries : Dict Key PendingSegments) (r : Reassembler)
    → IsBounded most r
    → IsBounded most (prune_entries now entries r)
unfolding prune_entries discard
prune_entries-IsBounded most now [] r v = v
prune_entries-IsBounded most now ((key, q) ∷ rest) r v =
    prune_entries-IsBounded most now rest _ (ground (arith, length-remove-le key r.pending))

add_to_pending-IsBounded :
    (most : ℕ) (r : Reassembler) (pair : Pair) (seq : ℕ) (s : AccessSegment) (now : ℕ)
    (q p : PendingSegments)
    → get (key_of pair s) r.pending ≡ some p
    → IsBounded most r
    → IsBounded most (add_to_pending r pair seq s now q).1
unfolding add_to_pending
add_to_pending-IsBounded most r pair seq s now q p e v = ground (
  arith,
  length-put_present (key_of pair s) (store_segment q seq s now) p r.pending e,
  length-remove-le (key_of pair s) (put (key_of pair s) (store_segment q seq s now) r.pending),
)

length-supersede :
    (ks : List Key) (pair : Pair) (n : ℕ) (d : Dict Key PendingSegments)
    → length (supersede ks pair n d).1 ≤ length d
unfolding supersede
length-supersede [] pair n d = omega arith
length-supersede (k ∷ ks) pair n d = ground (
  arith,
  length-supersede ks pair n d,
  length-supersede ks pair n (remove k d),
  length-remove-le k d,
)

add_new-IsBounded :
    (most : ℕ) (r : Reassembler) (pair : Pair) (seq : ℕ) (s : AccessSegment) (now : ℕ)
    → IsBounded most r
    → IsBounded most (add_new r pair seq s now).1
unfolding add_new
add_new-IsBounded most r pair seq s now v =
    let pending : Dict Key PendingSegments =
      (supersede (keys r.pending) pair s.seq_auth r.pending).1 in
    let p = new_pending s now in
    let added = put (key_of pair s) p pending in
    let there : get (key_of pair s) added ≡ some p = ground (
      arith,
      get-put (key_of pair s) (key_of pair s) p pending,
      key_beq_iff (key_of pair s) (key_of pair s),
    ) in
    let stored = λ (h : IsBounded most (record r { pending = added })).
      add_to_pending-IsBounded most (record r { pending = added }) pair seq s now p p there h in
    ground (
      arith,
      length-supersede (keys r.pending) pair s.seq_auth r.pending,
      length-put-le (key_of pair s) p pending,
      stored,
    )

add_known-IsBounded :
    (most : ℕ) (r : Reassembler) (pair : Pair) (seq : ℕ) (s : AccessSegment) (now : ℕ)
    (o : Option PendingSegments)
    → get (key_of pair s) r.pending ≡ o
    → IsBounded most r
    → IsBounded most (add_known r pair seq s now o).1
unfolding add_known
add_known-IsBounded most r pair seq s now none e v = add_new-IsBounded most r pair seq s now v
add_known-IsBounded most r pair seq s now (some p) e v =
    let stored = add_to_pending-IsBounded most r pair seq s now p p e v in ground (arith, stored)

prune-IsBounded : (most now : ℕ) (r : Reassembler) → IsBounded most r → IsBounded most (prune now r)
unfolding prune
prune-IsBounded most now r v = prune_entries-IsBounded most now r.pending r v

add_completed-IsBounded :
    (most : ℕ) (r : Reassembler) (pair : Pair) (seq : ℕ) (s : AccessSegment) (now : ℕ)
    (o : Option CompletedSegments)
    → IsBounded most r
    → IsBounded most (add_completed r pair seq s now o).1
unfolding add_completed
add_completed-IsBounded most r pair seq s now none v =
    add_known-IsBounded most r pair seq s now _ refl v
add_completed-IsBounded most r pair seq s now (some c) v =
    let known = add_known-IsBounded most r pair seq s now (get (key_of pair s) r.pending) refl v in
    ground (arith, known)

-- Whatever segment arrives at a reassembler that holds at most `max_pending` transactions, as an empty
-- one does, and on every branch, it still holds at most that many.
pub add-IsBounded :
    (most : ℕ) (r : Reassembler) (pair : Pair) (seq : ℕ) (s : AccessSegment) (now : ℕ)
    → IsBounded most r
    → IsBounded most (add r pair seq s now).1
unfolding add
add-IsBounded most r pair seq s now v =
    let pruned = prune-IsBounded most now r v in
    let checked =
      add_completed-IsBounded most (prune now r) pair seq s now (get pair (prune now r).completed)
        pruned in
    ground (arith, pruned, checked)
