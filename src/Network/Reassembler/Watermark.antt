-- ===== src/Network/Reassembler/Watermark.antt =====
-- No transaction is delivered twice (custom_components/amaran_ble/amaranble/network.py).
use ha_amaran_ble.Base.Dict.{Dict, get, get-put, get-remove, put}
use ha_amaran_ble.Base.{
  ℕ, ◌+◌, ◌-◌, ◌^◌, ◌≤◌, max, ◌≡◌, refl, sym, ap, ◌∙◌, Bool, true, false, Option, none, some, List,
  [], ◌∷◌, Result, ok, err, ltb, if◌then◌else◌, arith, Bool-cases, inl, inr,
}
use native.Mathlib.Nat.{le_trans, le_refl}
use ha_amaran_ble.Network.Segments.{AccessSegment}
use ha_amaran_ble.Network.Reassembler.{
  Pair, Key, pair_beq, pair_beq_iff, pair_Eq, key_Eq, PendingSegments, CompletedSegments,
  Reassembler, AddResult, discard, raised_mark, prune_entries, prune, keys, new_pending, add_known,
  add_to_pending, add_new, add_completed, add, is_discarded, supersede, key_of,
}

abbrev completed_mark : Option CompletedSegments → ℕ
completed_mark none = 0
completed_mark (some c) = c.seq_auth + 1

abbrev discarded_mark : Option ℕ → ℕ
discarded_mark none = 0
discarded_mark (some d) = d + 1

-- The least SeqAuth of a pair that may still be delivered.
pub watermark : Reassembler → Pair → ℕ
watermark r p = max (completed_mark (get p r.completed)) (discarded_mark (get p r.discarded))

discard-watermark :
    (r : Reassembler) (key : Key) (p : Pair) → watermark r p ≤ watermark (discard r key) p
unfolding watermark discard
discard-watermark r key p = ground (
  arith,
  pair_beq_iff key.pair p,
  get-put key.pair p (raised_mark r key) r.discarded,
  get-remove key.pair p r.completed,
)

prune_entries-watermark :
    (now : ℕ) (entries : Dict Key PendingSegments) (r : Reassembler) (p : Pair)
    → watermark r p ≤ watermark (prune_entries now entries r) p
unfolding prune_entries
prune_entries-watermark now [] r p = le_refl (watermark r p)
prune_entries-watermark now ((key, q) ∷ rest) r p = ground (
  arith,
  discard-watermark r key p,
  prune_entries-watermark now rest (discard r key) p,
  prune_entries-watermark now rest r p,
)

abbrev pub delivered : Result AddResult → Bool
delivered (err e) = false
delivered (ok a) = elim a.upper_pdu [ none ↦ false | some _ ↦ true ]

-- What an operation on the pair `pair` with SeqAuth `n` may do to the watermarks.
abbrev pub Advances : Reassembler → Pair → ℕ → Result AddResult × Reassembler → Type 0
Advances r pair n (result, r') =
    ((p : Pair) → watermark r p ≤ watermark r' p)
    × (delivered result ≡ true → (watermark r pair ≤ n) × (watermark r' pair ≡ n + 1))

add_to_pending-Advances :
    (r : Reassembler) (pair : Pair) (seq : ℕ) (s : AccessSegment) (now : ℕ) (q : PendingSegments)
    → watermark r pair ≤ s.seq_auth
    → Advances r pair s.seq_auth (add_to_pending r pair seq s now q)
unfolding watermark add_to_pending
add_to_pending-Advances r pair seq s now q h = (
  λ p. ground (
    arith,
    pair_beq_iff pair p,
    get-put pair p (new_completion s) r.completed,
    get-remove pair p r.discarded,
  ),
  λ d. ground (
    arith,
    pair_beq_iff pair pair,
    get-put pair pair (new_completion s) r.completed,
    get-remove pair pair r.discarded,
  ),
)
  where
    new_completion : AccessSegment → CompletedSegments
    new_completion s = record {
      seq_auth = s.seq_auth;
      acked_segments = 2 ^ (s.seg_n + 1) - 1;
      akf = s.akf;
      aid = s.aid;
      szmic = s.szmic;
      seg_n = s.seg_n;
    }

-- The state in which a new transaction's first segment is stored.
abbrev opened : Reassembler → Pair → AccessSegment → ℕ → Reassembler
opened r pair s now =
    let pending = (supersede (keys r.pending) pair s.seq_auth r.pending).1 in
    record r { pending = put (key_of pair s) (new_pending s now) pending }

add_new-Advances :
    (r : Reassembler) (pair : Pair) (seq : ℕ) (s : AccessSegment) (now : ℕ)
    → watermark r pair ≤ s.seq_auth
    → Advances r pair s.seq_auth (add_new r pair seq s now)
unfolding watermark add_new
add_new-Advances r pair seq s now h =
    let (grows, fresh) =
      add_to_pending-Advances (opened r pair s now) pair seq s now (new_pending s now) h in
    (λ p. ground (arith, grows p), λ d. ground (arith, fresh))

add_known-Advances :
    (r : Reassembler) (pair : Pair) (seq : ℕ) (s : AccessSegment) (now : ℕ)
    (o : Option PendingSegments)
    → watermark r pair ≤ s.seq_auth
    → Advances r pair s.seq_auth (add_known r pair seq s now o)
unfolding add_known
add_known-Advances r pair seq s now none h = add_new-Advances r pair seq s now h
add_known-Advances r pair seq s now (some q) h =
    let (grows, fresh) = add_to_pending-Advances r pair seq s now q h in
    (λ p. ground (arith, grows p), λ d. ground (arith, fresh))

add_completed-Advances :
    (r : Reassembler) (pair : Pair) (seq : ℕ) (s : AccessSegment) (now : ℕ)
    (o : Option CompletedSegments)
    → get pair r.completed ≡ o
    → is_discarded r pair s.seq_auth ≡ false
    → Advances r pair s.seq_auth (add_completed r pair seq s now o)
unfolding add_completed
add_completed-Advances r pair seq s now none e h =
    add_known-Advances r pair seq s now _ (unfold watermark in ground arith)
add_completed-Advances r pair seq s now (some c) e h =
    elim (Bool-cases (ltb c.seq_auth s.seq_auth)) [
      | inl newer ↦
          let (grows, fresh) =
            add_known-Advances r pair seq s now (get (key_of pair s) r.pending)
              (unfold watermark in ground arith) in
          (λ p. ground (arith, grows p), λ d. ground (arith, fresh))
      | inr older ↦ (λ p. ground arith, λ d. ground arith)
    ]

prune-watermark : (now : ℕ) (r : Reassembler) (p : Pair) → watermark r p ≤ watermark (prune now r) p
unfolding prune
prune-watermark now r p = prune_entries-watermark now r.pending r p

add-Advances :
    (r : Reassembler) (pair : Pair) (seq : ℕ) (s : AccessSegment) (now : ℕ)
    → Advances r pair s.seq_auth (add r pair seq s now)
unfolding add
add-Advances r pair seq s now = elim (Bool-cases (is_discarded (prune now r) pair s.seq_auth)) [
  | inl late ↦ (λ p. ground (arith, prune-watermark now r p), λ d. ground arith)
  | inr fine ↦
      let (grows, fresh) = add_completed-Advances (prune now r) pair seq s now _ refl fine in
      (
        λ p. ground (arith, prune-watermark now r p, grows p),
        λ d. ground (arith, prune-watermark now r pair, fresh),
      )
]

-- A segment as it arrives: the pair, its own sequence number, its fields and the time.
pub record Arrival : Type 0 where
  pub pair : Pair
  pub seq : ℕ
  pub segment : AccessSegment
  pub now : ℕ

-- The transactions that a series of arrivals delivers, in order.
unfoldable pub deliveries : Reassembler → List Arrival → List Key
deliveries r [] = []
deliveries r (a ∷ rest) =
    let (result, r') = add r a.pair a.seq a.segment a.now in
    let more = deliveries r' rest in
    if delivered result
    then record { pair = a.pair; seq_auth = a.segment.seq_auth } ∷ more
    else more

-- The SeqAuths of one pair rise, and begin at or above `b`.
abbrev pub RisesFrom : ℕ → Pair → List Key → Type 0
RisesFrom b p [] = Unit {0}
RisesFrom b p (k ∷ rest) =
    if pair_beq k.pair p
    then (b ≤ k.seq_auth) × RisesFrom (k.seq_auth + 1) p rest
    else RisesFrom b p rest

RisesFrom-mono : (a b : ℕ) (p : Pair) (ks : List Key) → a ≤ b → RisesFrom b p ks → RisesFrom a p ks
RisesFrom-mono a b p [] h d = tt
RisesFrom-mono a b p (k ∷ rest) h d = elim (Bool-cases (pair_beq k.pair p)) [
  | inl e ↦ let d' = rw e at d in rw e (le_trans h d'.0, d'.1)
  | inr e ↦ rw e (RisesFrom-mono a b p rest h (rw e at d))
]

-- Whatever segments arrive, in whatever order and at whatever times, the transactions that are
-- delivered for one source and destination have ever greater SeqAuths: none is delivered twice, and
-- none after a later one.
pub deliveries-RisesFrom :
    (r : Reassembler) (arrivals : List Arrival) (p : Pair)
    → RisesFrom (watermark r p) p (deliveries r arrivals)
unfolding deliveries
deliveries-RisesFrom r [] p = tt
deliveries-RisesFrom r (a ∷ rest) p =
    let (grows, fresh) = add-Advances r a.pair a.seq a.segment a.now in
    let r' = (add r a.pair a.seq a.segment a.now).1 in
    let later = deliveries-RisesFrom r' rest p in
    elim (Bool-cases (delivered (add r a.pair a.seq a.segment a.now).0)) [
      | inl d ↦ rw d (elim (Bool-cases (pair_beq a.pair p)) [
        | inl e ↦
            let same : a.pair ≡ p = (pair_beq_iff a.pair p).0 e in
            let (low, mark) = fresh d in
            let mark' : watermark r' p ≡ a.segment.seq_auth + 1 =
              ap (watermark r') (sym same) ∙ mark in
            rw e (
              rw same at low,
              RisesFrom-mono _ _ p (deliveries r' rest) (omega (arith, mark')) later,
            )
        | inr e ↦ rw e (RisesFrom-mono _ _ p (deliveries r' rest) (grows p) later)
      ])
      | inr d ↦ rw d (RisesFrom-mono _ _ p (deliveries r' rest) (grows p) later)
    ]
