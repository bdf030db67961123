-- ===== src/Proxy/Sending/FreshSegmented.antt =====
-- The segments of a message too go out under numbers of their own
-- (custom_components/amaran_ble/amaranble/proxy.py).
use ha_amaran_ble.Base.{
  ℕ, zero, suc, Bool, true, false, Bool-cases, inl, inr, ◌==◌, leb, Option, none, some, List, [],
  ◌∷◌, Result, ok, err, length, ◌≡◌,
}
use ha_amaran_ble.Base.Bits.{low_bits}
use ha_amaran_ble.Base.Bytes.{Bytes}
use ha_amaran_ble.Base.Exec.{Exec, Ensures, Ensures-then_do, Ensures-lift}
use ha_amaran_ble.Network.Segments.{SegmentAck, build_access_segments}
use ha_amaran_ble.Base.Dict.{nat_Eq}
use ha_amaran_ble.Proxy.Sending.{Link, Sending, next_seq, transmit, encrypted, upper_pdu, arrive}
use ha_amaran_ble.Proxy.Sending.Segmented.{
  send_round, wait_ack, missing, mask_of, renew_future, unless_complete, decide, unless_group,
  attempts, numbered, put_pending, pop_pending, new_pending, send_segmented,
}
use ha_amaran_ble.Proxy.Sending.Fresh.{
  Origin, IsFresh, IsReady, HasNumber-IsFresh, next_seq-HasNumber, transmit-IsFresh, arrive-IsFresh,
}

module _ (origin : Origin) where
  send_round-IsFresh :
      (a : Sending)
      → a.cipher ≡ origin.cipher
      → (first : Option ℕ) (outstanding : List (ℕ × Bytes)) (s : Link) → IsReady origin first s
      → Ensures (λ _. IsFresh origin) (IsFresh origin) (send_round a first outstanding s)
  unfolding send_round
  send_round-IsFresh a same none [] s h = h
  send_round-IsFresh a same (some seq) [] s h = HasNumber-IsFresh origin seq s h
  send_round-IsFresh a same none ((index, segment) ∷ rest) s h =
      Ensures-then_do (next_seq a.before_sequence s) _ _ _ _ _
        (next_seq-HasNumber origin a.before_sequence s h) (λ s' h'. h')
        (λ seq s' h'.
          Ensures-then_do (transmit a seq segment s') _ _ _ _ _
            (transmit-IsFresh origin a same seq segment s' h') (λ s'' h''. h'')
            (λ _ s'' h''. send_round-IsFresh a same none rest s'' h''))
  send_round-IsFresh a same (some seq) ((index, segment) ∷ rest) s h =
      Ensures-then_do (transmit a seq segment s) _ _ _ _ _
        (transmit-IsFresh origin a same seq segment s h) (λ s'' h''. h'')
        (λ _ s'' h''. send_round-IsFresh a same none rest s'' h'')

  wait_ack-IsFresh :
      (a : Sending) (seq_zero : ℕ) (s : Link)
      → IsFresh origin s
      → Ensures (λ _. IsFresh origin) (IsFresh origin) (wait_ack a seq_zero s)
  unfolding wait_ack
  wait_ack-IsFresh a seq_zero s h =
      Ensures-then_do (arrive a.cipher s) _ _ _ _ _ (arrive-IsFresh origin a.cipher s h)
        (λ s' h'. h') (λ outputs s' h'. h')

  unless_complete-IsFresh :
      (seq_zero : ℕ) (rest : List (ℕ × Bytes) → Exec Link (Unit {0})) (left : List (ℕ × Bytes))
      (s : Link)
      → ((more : List (ℕ × Bytes)) (s' : Link)
          → IsFresh origin s'
          → Ensures (λ _. IsFresh origin) (IsFresh origin) (rest more s'))
      → IsFresh origin s
      → Ensures (λ _. IsFresh origin) (IsFresh origin) (unless_complete seq_zero rest left s)
  unless_complete-IsFresh seq_zero rest [] s k h = h
  unless_complete-IsFresh seq_zero rest (m ∷ ms) s k h = k (m ∷ ms) (renew_future seq_zero s) h

  decide-IsFresh :
      (seq_zero : ℕ) (segments outstanding : List (ℕ × Bytes))
      (rest : List (ℕ × Bytes) → Exec Link (Unit {0})) (ack : Option SegmentAck) (s : Link)
      → ((more : List (ℕ × Bytes)) (s' : Link)
          → IsFresh origin s'
          → Ensures (λ _. IsFresh origin) (IsFresh origin) (rest more s'))
      → IsFresh origin s
      → Ensures
          (λ _. IsFresh origin)
          (IsFresh origin)
          (decide seq_zero segments outstanding rest ack s)
  decide-IsFresh seq_zero segments outstanding rest none s k h = k outstanding s h
  decide-IsFresh seq_zero segments outstanding rest (some ack) s k h =
      elim (Bool-cases (ack.block_ack == 0)) [
        | inl canceled ↦ rw canceled h
        | inr other ↦
            rw other
              (unless_complete-IsFresh seq_zero rest (missing (mask_of seq_zero s) segments) s k h)
      ]

  unless_group-IsFresh :
      (group : Bool) (wait : Exec Link (Unit {0})) (s : Link)
      → Ensures (λ _. IsFresh origin) (IsFresh origin) (wait s)
      → IsFresh origin s
      → Ensures (λ _. IsFresh origin) (IsFresh origin) (unless_group group wait s)
  unless_group-IsFresh true wait s w h = h
  unless_group-IsFresh false wait s w h = w

  attempts-IsFresh :
      (a : Sending)
      → a.cipher ≡ origin.cipher
      → (seq_zero : ℕ) (segments : List (ℕ × Bytes)) (n : ℕ) (first : Option ℕ)
        (outstanding : List (ℕ × Bytes)) (s : Link)
      → IsReady origin first s
      → Ensures
          (λ _. IsFresh origin)
          (IsFresh origin)
          (attempts a seq_zero segments n first outstanding s)
  unfolding attempts
  attempts-IsFresh a same seq_zero segments zero none outstanding s h = h
  attempts-IsFresh a same seq_zero segments zero (some seq) outstanding s h =
      HasNumber-IsFresh origin seq s h
  attempts-IsFresh a same seq_zero segments (suc n) first outstanding s h =
      Ensures-then_do (send_round a first outstanding s) _ _ _ _ _
        (send_round-IsFresh a same first outstanding s h) (λ s' h'. h')
        (λ _ s' h'.
          unless_group-IsFresh (leb 0x8000 a.dst) _ s'
            (Ensures-then_do (wait_ack a seq_zero s') _ _ _ _ _ (wait_ack-IsFresh a seq_zero s' h')
              (λ s'' h''. h'')
              (λ ack s'' h''.
                decide-IsFresh seq_zero segments outstanding (attempts a seq_zero segments n none)
                  ack s''
                  (λ more s3 h3. attempts-IsFresh a same seq_zero segments n none more s3 h3) h''))
            h')

  pop_pending-IsFresh :
      (seq_zero : ℕ) (out : Result (Unit {0}) × Link)
      → Ensures (λ _. IsFresh origin) (IsFresh origin) out
      → Ensures (λ _. IsFresh origin) (IsFresh origin) (pop_pending seq_zero out)
  pop_pending-IsFresh seq_zero (ok done, s) h = h
  pop_pending-IsFresh seq_zero (err e, s) h = h

  pub send_segmented-IsFresh :
      (a : Sending)
      → a.cipher ≡ origin.cipher
      → (access_pdu : Bytes) (s : Link) → IsFresh origin s
      → Ensures (λ _. IsFresh origin) (IsFresh origin) (send_segmented a access_pdu s)
  unfolding send_segmented upper_pdu
  send_segmented-IsFresh a same access_pdu s h =
      Ensures-then_do (next_seq a.before_sequence s) _ _ _ _ _
        (next_seq-HasNumber origin a.before_sequence s h) (λ s' h'. h')
        (λ seq s' h'.
          let fresh = HasNumber-IsFresh origin seq s' h' in
          Ensures-lift (encrypted a s'.client seq access_pdu) _ _ _ s' fresh (λ upper _.
            Ensures-lift (build_access_segments a.akf a.aid (low_bits seq 13) upper 0) _ _ _ s'
              fresh
              (λ segments _.
                let s'' = put_pending (low_bits seq 13) (new_pending a.dst (length segments)) s' in
                pop_pending-IsFresh (low_bits seq 13)
                  (attempts a (low_bits seq 13) (numbered 0 segments) 4 (some seq)
                    (numbered 0 segments) s'')
                  (attempts-IsFresh a same (low_bits seq 13) (numbered 0 segments) 4 (some seq)
                    (numbered 0 segments) s'' h'))))
