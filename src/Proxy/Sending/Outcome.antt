-- ===== src/Proxy/Sending/Outcome.antt =====
-- What a segmented sending promises when it returns, and how much it writes at most
-- (custom_components/amaran_ble/amaranble/proxy.py, `_send_segmented`).
use native.Mathlib.Nat.{zero-div}
use mathlib.Core.List.{Memᴰ}
use mathlib.Core.List.Memᴰ.{head, tail}
use ha_amaran_ble.Base.{
  ◌^◌, ℕ, zero, suc, ◌+◌, ◌*◌, ◌≤◌, ◌≡◌, refl, ap, Bool, true, false, Bool-cases, inl, inr, ◌⊎◌,
  ◌==◌, leb, Option, none, some, List, [], ◌∷◌, arith, length, length-append, not, ltb, proxy_error,
}
use ha_amaran_ble.Base.Bits.{shr, low_bits}
use ha_amaran_ble.Base.Dict.{get, nat_Eq}
use ha_amaran_ble.Proxy.{Client, PendingSegmentAck}
use ha_amaran_ble.Proxy.Sending.Heard.{
  AreHeard, IsTold, IsHearing, meantime_told, renew_future-IsHearing, new_pending-IsTold,
}
use ha_amaran_ble.Base.Bytes.{Bytes}
use ha_amaran_ble.Base.Exec.{
  Exec, Ensures, Ensures-then_do, Ensures-lift, Ensures-last, Ensures-require,
}
use ha_amaran_ble.Gatt
use ha_amaran_ble.Gatt.{type_network}
use ha_amaran_ble.Network.Segments.{SegmentAck}
use ha_amaran_ble.Sequence.{max_sequence}
use ha_amaran_ble.Proxy.Sending.{
  Link, Meantime, Sending, next_seq, pause_of, log_sent, network_pdu, transmit, arrive,
}
use ha_amaran_ble.Proxy.Sending.Segmented.{
  number_for, send_round, wait_ack, missing, mask_of, renew_future, decide, unless_complete,
  unless_group, attempts, acknowledged_of, new_pending,
}

missing-length-le :
    (mask : ℕ) (segments : List (ℕ × Bytes)) → length (missing mask segments) ≤ length segments
missing-length-le mask [] = omega arith
missing-length-le mask ((index, segment) ∷ rest) = ground (arith, missing-length-le mask rest)

-- A segment that is not missing has its bit set.
missing-bit :
    (mask index : ℕ) (segment : Bytes) (segments : List (ℕ × Bytes))
    → missing mask segments ≡ []
    → Memᴰ (index, segment) segments
    → low_bits (shr mask index) 1 ≡ 1
missing-bit mask index segment [] e none_there = elim none_there [ ]
missing-bit mask index segment ((i, other) ∷ rest) e (head here) =
    let same : index ≡ i = ap (λ (t : ℕ × Bytes). t.0) here in rw same (ground (arith, e))
missing-bit mask index segment ((i, other) ∷ rest) e (tail later) =
    missing-bit mask index segment rest (ground (arith, e)) later

module _ (c : Client) (waits : List Meantime) (a : Sending) (seq_zero limit : ℕ) where
  -- There is room for `spare` PDUs below the limit, and each bit that is set was heard.
  abbrev pub HasRoom : ℕ → Link → Type 0
  HasRoom spare s = (length s.sent + spare ≤ limit) × IsHearing a.cipher c waits a.dst seq_zero s

  abbrev IsWithin : Link → Type 0
  IsWithin s = length s.sent ≤ limit

  number_for-HasRoom :
      (first : Option ℕ) (spare : ℕ) (s : Link)
      → HasRoom spare s
      → Ensures (λ _. HasRoom spare) IsWithin (number_for a first s)
  unfolding next_seq
  number_for-HasRoom (some seq) spare s h = h
  number_for-HasRoom none spare s h =
      Ensures-require (not (ltb max_sequence s.sequence)) proxy_error _ _ _ s (omega (arith, h.0))
        (λ _. Ensures-lift (a.before_sequence s.sequence) _ _ _ s (omega (arith, h.0)) (λ _ _. h))

  transmit-HasRoom :
      (seq : ℕ) (segment : Bytes) (spare : ℕ) (s : Link)
      → HasRoom (suc spare) s
      → Ensures (λ _. HasRoom spare) IsWithin (transmit a seq segment s)
  unfolding transmit
  transmit-HasRoom seq segment spare s h =
      Ensures-lift (network_pdu a s.client seq segment) _ _ _ s (omega (arith, h.0)) (λ pdu _.
        Ensures-lift (Gatt.send type_network pdu) _ _ _ s (omega (arith, h.0)) (λ frames _.
          let logged = length-append s.sent (record { seq = seq; pdu = pdu } ∷ []) in
          Ensures-last (pause_of s.pauses).0.result _ _ (log_sent seq pdu s)
            (omega (arith, h.0, logged)) (λ _ _. (omega (arith, h.0, logged), h.1))))

  send_round-HasRoom :
      (first : Option ℕ) (outstanding : List (ℕ × Bytes)) (spare : ℕ) (s : Link)
      → HasRoom (length outstanding + spare) s
      → Ensures (λ _. HasRoom spare) IsWithin (send_round a first outstanding s)
  unfolding send_round
  send_round-HasRoom first [] spare s h = (omega (arith, h.0), h.1)
  send_round-HasRoom first ((index, segment) ∷ rest) spare s h =
      Ensures-then_do (number_for a first s) _ _ _ _ _
        (number_for-HasRoom first (suc (length rest + spare)) s (omega (arith, h.0), h.1))
        (λ s' h'. h')
        (λ seq s' h'.
          Ensures-then_do (transmit a seq segment s') _ _ _ _ _
            (transmit-HasRoom seq segment (length rest + spare) s' h') (λ s'' h''. h'')
            (λ _ s'' h''. send_round-HasRoom none rest spare s'' h''))

  -- The outcome of the attempts: a group, or every segment was heard of.
  abbrev IsDone : List (ℕ × Bytes) → Link → Type 0
  IsDone segments s =
      ((leb 0x8000 a.dst ≡ true) ⊎ AreHeard a.cipher c waits a.dst seq_zero segments) × IsWithin s

  heard_of :
      (segments : List (ℕ × Bytes)) (o : Option PendingSegmentAck)
      → IsTold a.cipher c waits a.dst seq_zero o
      → missing (acknowledged_of o) segments ≡ []
      → AreHeard a.cipher c waits a.dst seq_zero segments
  heard_of segments none told e index segment mem =
      let clear : low_bits (shr 0 index) 1 ≡ 0 = rw (zero-div (2 ^ index)) refl in
      absurd (ground (arith, missing-bit 0 index segment segments e mem, clear))
  heard_of segments (some p) told e index segment mem =
      told.1 index (missing-bit p.acknowledged index segment segments e mem)

  unless_complete-IsDone :
      (spare : ℕ) (segments left : List (ℕ × Bytes))
      (rest : List (ℕ × Bytes) → Exec Link (Unit {0})) (s : Link)
      → missing (mask_of seq_zero s) segments ≡ left
      → ((more : List (ℕ × Bytes)) (s' : Link)
          → length more ≤ length segments
          → HasRoom spare s'
          → Ensures (λ _. IsDone segments) IsWithin (rest more s'))
      → HasRoom spare s
      → Ensures (λ _. IsDone segments) IsWithin (unless_complete seq_zero rest left s)
  unless_complete-IsDone spare segments [] rest s e k h =
      (inr (heard_of segments (get seq_zero s.client.pending_ack) h.1.0.3 e), omega (arith, h.0))
  unless_complete-IsDone spare segments (m ∷ ms) rest s e k h =
      k (m ∷ ms) (renew_future seq_zero s)
        (omega (arith, missing-length-le (mask_of seq_zero s) segments, ap length e))
        (h.0, renew_future-IsHearing a.cipher c waits a.dst seq_zero s h.1)

  decide-IsDone :
      (spare : ℕ) (segments outstanding : List (ℕ × Bytes))
      (rest : List (ℕ × Bytes) → Exec Link (Unit {0})) (ack : Option SegmentAck) (s : Link)
      → length outstanding ≤ length segments
      → ((more : List (ℕ × Bytes)) (s' : Link)
          → length more ≤ length segments
          → HasRoom spare s'
          → Ensures (λ _. IsDone segments) IsWithin (rest more s'))
      → HasRoom spare s
      → Ensures (λ _. IsDone segments) IsWithin (decide seq_zero segments outstanding rest ack s)
  decide-IsDone spare segments outstanding rest none s l k h = k outstanding s l h
  decide-IsDone spare segments outstanding rest (some ack) s l k h =
      elim (Bool-cases (ack.block_ack == 0)) [
        | inl canceled ↦ rw canceled (omega (arith, h.0))
        | inr other ↦ rw other (
            unless_complete-IsDone spare segments (missing (mask_of seq_zero s) segments) rest s
              refl k h)
      ]

  arrive-HasRoom :
      (spare : ℕ) (s : Link)
      → HasRoom spare s
      → Ensures (λ _. HasRoom spare) IsWithin (arrive a.cipher s)
  unfolding arrive
  arrive-HasRoom spare s h =
      (h.0, meantime_told a.cipher c waits a.dst seq_zero s.client s.waits h.1.1 h.1.0)

  wait_ack-HasRoom :
      (spare : ℕ) (s : Link)
      → HasRoom spare s
      → Ensures (λ _. HasRoom spare) IsWithin (wait_ack a seq_zero s)
  unfolding wait_ack
  wait_ack-HasRoom spare s h =
      Ensures-then_do (arrive a.cipher s) _ _ _ _ _ (arrive-HasRoom spare s h) (λ s' h'. h')
        (λ outputs s' h'. h')

  unless_group-IsDone :
      (spare : ℕ) (segments : List (ℕ × Bytes)) (group : Bool) (wait : Exec Link (Unit {0}))
      (s : Link)
      → leb 0x8000 a.dst ≡ group
      → Ensures (λ _. IsDone segments) IsWithin (wait s)
      → HasRoom spare s
      → Ensures (λ _. IsDone segments) IsWithin (unless_group group wait s)
  unless_group-IsDone spare segments true wait s e w h = (inl e, omega (arith, h.0))
  unless_group-IsDone spare segments false wait s e w h = w

  attempts-IsDone :
      (segments : List (ℕ × Bytes)) (n : ℕ) (first : Option ℕ) (outstanding : List (ℕ × Bytes))
      (s : Link)
      → length outstanding ≤ length segments
      → HasRoom (n * length segments) s
      → Ensures (λ _. IsDone segments) IsWithin (attempts a seq_zero segments n first outstanding s)
  unfolding attempts
  attempts-IsDone segments zero first outstanding s l h = omega (arith, h.0)
  attempts-IsDone segments (suc n) first outstanding s l h =
      let spare = n * length segments in
      Ensures-then_do (send_round a first outstanding s) _ _ _ _ _
        (send_round-HasRoom first outstanding spare s (omega (arith, h.0, l), h.1)) (λ s' h'. h')
        (λ _ s' h'.
          unless_group-IsDone spare segments (leb 0x8000 a.dst) _ s' refl
            (Ensures-then_do (wait_ack a seq_zero s') _ _ _ _ _ (wait_ack-HasRoom spare s' h')
              (λ s'' h''. h'')
              (λ ack s'' h''.
                decide-IsDone spare segments outstanding (attempts a seq_zero segments n none) ack
                  s'' l (λ more s3 l3 h3. attempts-IsDone segments n none more s3 l3 h3) h''))
            h')

-- The retransmissions of a new segmented transaction return only when the message went to a group,
-- or when the recipient has told the client of each segment that it has it: for each index, among
-- the PDUs that arrive in the waits there is one that decodes, under the client's keys, to a segment
-- acknowledgement of this transaction, from the recipient to the client, in which the bit of the
-- index is set. And n attempts write at most n PDUs for each segment, also where they raise.
pub attempts_outcome :
    (a : Sending) (seq_zero : ℕ) (segments : List (ℕ × Bytes)) (n : ℕ) (first : Option ℕ) (s : Link)
    → get seq_zero s.client.pending_ack ≡ some (new_pending a.dst (length segments))
    → Ensures
        (λ _ s'.
          ((leb 0x8000 a.dst ≡ true) ⊎ AreHeard a.cipher s.client s.waits a.dst seq_zero segments)
          × (length s'.sent ≤ length s.sent + n * length segments))
        (λ s'. length s'.sent ≤ length s.sent + n * length segments)
        (attempts a seq_zero segments n first segments s)
attempts_outcome a seq_zero segments n first s starts =
    let told : IsTold a.cipher s.client s.waits a.dst seq_zero (get seq_zero s.client.pending_ack) =
      rw starts (
        new_pending-IsTold a.cipher s.client s.waits a.dst seq_zero
          (new_pending a.dst (length segments)) refl refl) in
    attempts-IsDone s.client s.waits a seq_zero (length s.sent + n * length segments) segments n
      first segments s (omega arith) (omega arith, ((refl, refl, refl, told), λ wait mem. mem))
