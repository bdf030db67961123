-- ===== src/Proxy/Sending/Heard.antt =====
-- Where the bits of a block acknowledgement come from
-- (custom_components/amaran_ble/amaranble/proxy.py, `_handle_segment_ack`).
use native.Mathlib.Nat.{zero-div}
use mathlib.Core.List.{Memᴰ}
use mathlib.Core.List.Memᴰ.{head, tail}
use ha_amaran_ble.Base.{
  ◌^◌, ℕ, ◌≡◌, refl, ◌∙◌, true, false, Bool-cases, inl, inr, Option, none, some, List, [], ◌∷◌,
  Result, ok, err, ◌==◌, arith, bit_or,
}
use ha_amaran_ble.Base.Bits.{shr, low_bits}
use ha_amaran_ble.Base.Bits.Set.{bit_or_set}
use ha_amaran_ble.Base.Bytes.{Bytes}
use ha_amaran_ble.Base.Dict.{Dict, get, put, nat_Eq, get-put}
use ha_amaran_ble.Crypto.{Cipher}
use ha_amaran_ble.Network.{NetworkMessage, decode_network_pdu}
use ha_amaran_ble.Network.Segments.{SegmentAck, parse_segment_ack}
use ha_amaran_ble.Proxy.{
  PendingSegmentAck, Client, is_replay, remember_sequence, ignores, accept_ack, handle_ack,
  handle_control,
}
use ha_amaran_ble.Proxy.Invariant.{on_proxy_pdu_holds}
use ha_amaran_ble.Proxy.Filter.{on_proxy_pdu}
use ha_amaran_ble.Proxy.Sending.{Arrival, Meantime, Link, meantime_of, receive}
use ha_amaran_ble.Proxy.Sending.Segmented.{renewed, renew_future}

-- The network keys and the address of `c`, the waits in which PDUs arrive, and the transaction.
module _ (cipher : Cipher) (c : Client) (waits : List Meantime) (dst seq_zero : ℕ) where
  -- One of the PDUs that arrive decodes to this message.
  pub record Comes (m : NetworkMessage) : Type 0 where
    pub wait : Meantime
    pub arrival : Arrival
    pub waited : Memᴰ wait waits
    pub arrived : Memᴰ arrival wait.arrivals
    pub decoded : decode_network_pdu cipher c.keys c.iv_index false arrival.payload ≡ ok m

  -- The recipient has told the client that it has this segment: a control message from it to the
  -- client arrives, a segment acknowledgement of the transaction in which the bit is set.
  pub record IsHeard (index : ℕ) : Type 0 where
    pub message : NetworkMessage
    pub comes : Comes message
    pub source : message.src ≡ dst
    pub destination : message.dst ≡ c.local_address
    pub control : (message.ctl == 0) ≡ false
    pub first : ℕ
    pub rest : Bytes
    pub transport : message.transport_pdu ≡ first ∷ rest
    pub opcode : low_bits first 7 ≡ 0
    pub ack : SegmentAck
    pub parsed : parse_segment_ack rest ≡ ok ack
    pub transaction : ack.seq_zero ≡ seq_zero
    pub bit : low_bits (shr ack.block_ack index) 1 ≡ 1

  -- So it has told of each of these segments.
  abbrev pub AreHeard : List (ℕ × Bytes) → Type 0
  AreHeard segments = (index : ℕ) (segment : Bytes) → Memᴰ (index, segment) segments → IsHeard index

  -- Each bit that is set was heard.
  abbrev pub IsTold : Option PendingSegmentAck → Type 0
  IsTold none = Unit {0}
  IsTold (some p) =
      (p.dst ≡ dst) × ((index : ℕ) → low_bits (shr p.acknowledged index) 1 ≡ 1 → IsHeard index)

  abbrev pub IsTrue : Client → Type 0
  IsTrue d =
      (d.keys ≡ c.keys)
      × (d.iv_index ≡ c.iv_index)
      × (d.local_address ≡ c.local_address)
      × IsTold (get seq_zero d.pending_ack)

  remembers : (d : Client) (src seq : ℕ) → IsTrue d → IsTrue (remember_sequence d src seq)
  unfolding remember_sequence
  remembers d src seq h = h

  IsTold-put :
      (z : ℕ) (p : PendingSegmentAck) (d : Dict ℕ PendingSegmentAck)
      → (z ≡ seq_zero → IsTold (some p))
      → IsTold (get seq_zero d)
      → IsTold (get seq_zero (put z p d))
  IsTold-put z p d new old =
      rw (get-put z seq_zero p d)
        (elim (Bool-cases (z == seq_zero)) [ inl e ↦ rw e (new (ground arith)) | inr e ↦ rw e old ])

  accepts :
      (d : Client) (m : NetworkMessage) (first : ℕ) (rest : Bytes) (ack : SegmentAck)
      (p : Option PendingSegmentAck)
      → get ack.seq_zero d.pending_ack ≡ p
      → Comes m
      → m.transport_pdu ≡ first ∷ rest
      → (m.ctl == 0) ≡ false
      → low_bits first 7 ≡ 0
      → parse_segment_ack rest ≡ ok ack
      → IsTrue d
      → IsTrue (accept_ack d m ack p).1
  unfolding remember_sequence
  accepts d m first rest ack none e comes transport control opcode parsed h = h
  accepts d m first rest ack (some p) e comes transport control opcode parsed h =
      elim (Bool-cases (ignores d m ack p)) [
        | inl ignored ↦ rw ignored h
        | inr taken ↦
            let to_us : m.dst ≡ d.local_address = ground (arith, taken) in
            let from_it : m.src ≡ p.dst = ground (arith, taken) in
            rw taken (
              h.0,
              h.1,
              h.2,
              IsTold-put ack.seq_zero
                  (record p { done = true; acknowledged = bit_or p.acknowledged ack.block_ack })
                  d.pending_ack
                  (λ same.
                    let here = rw same at e in
                    let told : IsTold (some p) = rw here at h.3 in
                    (
                      told.0,
                      λ index set. elim (bit_or_set p.acknowledged ack.block_ack index set) [
                        | inl old ↦ told.1 index old
                        | inr new ↦ record {
                          message = m;
                          comes = comes;
                          source = from_it ∙ told.0;
                          destination = to_us ∙ h.2;
                          control = control;
                          first = first;
                          rest = rest;
                          transport = transport;
                          opcode = opcode;
                          ack = ack;
                          parsed = parsed;
                          transaction = same;
                          bit = new;
                        }
                      ],
                    ))
                  h.3,
            )
      ]

  handle_ack_told :
      (d : Client) (m : NetworkMessage) (first : ℕ) (rest : Bytes) (r : Result SegmentAck)
      → parse_segment_ack rest ≡ r
      → Comes m
      → m.transport_pdu ≡ first ∷ rest
      → (m.ctl == 0) ≡ false
      → low_bits first 7 ≡ 0
      → IsTrue d
      → IsTrue (handle_ack d m r).1
  handle_ack_told d m first rest (err e) parsed comes transport control opcode h = h
  handle_ack_told d m first rest (ok ack) parsed comes transport control opcode h =
      accepts d m first rest ack (get ack.seq_zero d.pending_ack) refl comes transport control
        opcode parsed h

  controls :
      (d : Client) (m : NetworkMessage) (first : ℕ) (rest : Bytes)
      → Comes m
      → m.transport_pdu ≡ first ∷ rest
      → (m.ctl == 0) ≡ false
      → IsTrue d
      → IsTrue (handle_control d m first rest).1
  unfolding handle_control
  controls d m first rest comes transport control h = elim (Bool-cases (is_replay d m.src m.seq)) [
    | inl e ↦ rw e h
    | inr e ↦ elim (Bool-cases (low_bits first 7 == 0)) [
      | inl f ↦
          rw (e, f)
            (handle_ack_told d m first rest (parse_segment_ack rest) refl comes transport control
              (ground arith) h)
      | inr f ↦ rw (e, f) h
    ]
  ]

  receive_told :
      (wait : Meantime)
      → Memᴰ wait waits
      → (d : Client) (arrivals : List Arrival)
      → ((x : Arrival) → Memᴰ x arrivals → Memᴰ x wait.arrivals)
      → IsTrue d
      → IsTrue (receive cipher d arrivals).1
  receive_told wait waited d [] among h = h
  receive_told wait waited d (x ∷ rest) among h =
      receive_told wait waited (on_proxy_pdu cipher d x.msg_type x.payload x.now).1 rest
        (λ y mem. among y (tail mem))
        (on_proxy_pdu_holds IsTrue Comes remembers (λ d r k. k) (λ d o k. k) controls cipher d
          x.msg_type x.payload x.now
          (λ m read. record {
            wait = wait;
            arrival = x;
            waited = waited;
            arrived = among x (head refl);
            decoded = rw (h.0, h.1) at read;
          })
          h)

  -- The client of a link, and the waits to come.
  abbrev pub IsHearing : Link → Type 0
  IsHearing s = IsTrue s.client × ((wait : Meantime) → Memᴰ wait s.waits → Memᴰ wait waits)

  pub meantime_told :
      (d : Client) (left : List Meantime)
      → ((wait : Meantime) → Memᴰ wait left → Memᴰ wait waits)
      → IsTrue d
      → IsTrue (receive cipher d (meantime_of left).0.arrivals).1
        × ((wait : Meantime) → Memᴰ wait (meantime_of left).1 → Memᴰ wait waits)
  meantime_told d [] among h = (h, among)
  meantime_told d (m ∷ rest) among h = (
    receive_told m (among m (head refl)) d m.arrivals (λ x mem. mem) h,
    λ w mem. among w (tail mem),
  )

  renewed-IsTold :
      (o : Option PendingSegmentAck) (d : Dict ℕ PendingSegmentAck)
      → get seq_zero d ≡ o
      → IsTold (get seq_zero d)
      → IsTold (get seq_zero (renewed o seq_zero d))
  renewed-IsTold none d e h = h
  renewed-IsTold (some p) d e h =
      let told : IsTold (some p) = rw e at h in
      IsTold-put seq_zero (record p { done = false }) d (λ _. told) h

  pub renew_future-IsHearing : (s : Link) → IsHearing s → IsHearing (renew_future seq_zero s)
  renew_future-IsHearing s h = (
    (
      h.0.0,
      h.0.1,
      h.0.2,
      renewed-IsTold (get seq_zero s.client.pending_ack) s.client.pending_ack refl h.0.3,
    ),
    h.1,
  )

  -- A new transaction has heard of nothing.
  pub new_pending-IsTold :
      (p : PendingSegmentAck) → p.dst ≡ dst → p.acknowledged ≡ 0 → IsTold (some p)
  new_pending-IsTold p e h = (e, λ index set. absurd (ground (arith, zero_bit index)))
    where
      zero_bit : (index : ℕ) → low_bits (shr p.acknowledged index) 1 ≡ 0
      zero_bit index = rw (h, zero-div (2 ^ index)) refl
