-- ===== src/Gatt/RoundTrip.antt =====
-- What one transport sends, another receives (custom_components/amaran_ble/amaranble/gatt.py).
use mathlib.Core.List.{append-nil, append_assoc}
use ha_amaran_ble.Base.{
  ℕ, ◌+◌, ◌*◌, ◌≤◌, ◌<◌, ◌≡◌, refl, ap, ◌∙◌, true, false, some, List, [], ◌∷◌, ◌++◌, All, length,
  length-append, arith, ok, leb, Bool-cases, inl, inr,
}
use ha_amaran_ble.Base.Bits.{shr, low_bits, or_law, op_fields}
use ha_amaran_ble.Base.Bytes.{Bytes}
use ha_amaran_ble.Base.Chunks.{chunks, concat, concat-chunks, chunks-AreChunks, AreChunks}
use ha_amaran_ble.Gatt.{
  Receiver, Event, dispatch, max_proxy_message_length, notification_handler, handle_frame,
  frames_from, frames, send, header, sar_of, sar_complete, sar_first, sar_continuation, sar_last,
  segment_size, initial, receive_all, reset_rx,
}

-- The supported types fit the six low bits of the header.
supported-lt : (msg_type limit : ℕ) → max_proxy_message_length msg_type ≡ some limit → msg_type < 4
unfolding max_proxy_message_length
supported-lt t l h = ground arith

header_sum : (sar msg_type : ℕ) → msg_type < 4 → header sar msg_type ≡ sar * 64 + msg_type
header_sum sar t h = op_fields or_law 6 sar t (omega arith)

header_type : (sar msg_type : ℕ) → msg_type < 4 → low_bits (header sar msg_type) 6 ≡ msg_type
header_type sar t h = rw (header_sum sar t h) (omega arith)

header_sar :
    (sar msg_type : ℕ) → sar < 4 → msg_type < 4 → low_bits (shr (header sar msg_type) 6) 2 ≡ sar
header_sar sar t hs h = rw (header_sum sar t h) (omega arith)

-- A frame of a supported type reaches `handle_frame` with the fields that its header was made of.
handler_frame :
    (r : Receiver) (sar msg_type limit : ℕ) (body : Bytes)
    → r.protocol_failed ≡ false
    → max_proxy_message_length msg_type ≡ some limit
    → sar < 4
    → notification_handler r (header sar msg_type ∷ body) ≡ handle_frame r limit sar msg_type body
unfolding notification_handler
handler_frame r sar t limit body live known hs =
    let small : t < 4 = supported-lt t limit known in
    ground (arith, header_type sar t small, header_sar sar t hs small, supported-lt t limit)

abbrev receiving : ℕ → Bytes → Receiver
receiving msg_type buf = record {
  rx_type = some msg_type;
  rx_buf = buf;
  rx_timeout = true;
  protocol_failed = false;
}

receive_cons :
    (r r' r'' : Receiver) (frame : Bytes) (rest : List Bytes) (events more : List Event)
    → notification_handler r frame ≡ (r', events)
    → receive_all r' rest ≡ (r'', more)
    → receive_all r (frame ∷ rest) ≡ (r'', events ++ more)
unfolding receive_all
receive_cons r r' r'' frame rest events more e f = rw (e, f)

module _ (t limit : ℕ) (known : max_proxy_message_length t ≡ some limit) where
  complete_frame :
      (body : Bytes)
      → length body ≤ limit
      → notification_handler initial (header sar_complete t ∷ body)
        ≡ (initial, dispatch t body ∷ [])
  complete_frame body fits =
      handler_frame initial sar_complete t limit body refl known (omega arith) ∙ ground arith

  first_frame :
      (body : Bytes)
      → length body ≤ limit
      → notification_handler initial (header sar_first t ∷ body) ≡ (receiving t body, [])
  first_frame body fits =
      handler_frame initial sar_first t limit body refl known (omega arith) ∙ ground arith

  continuation_frame :
      (buf body : Bytes)
      → length buf + length body ≤ limit
      → notification_handler (receiving t buf) (header sar_continuation t ∷ body)
        ≡ (receiving t (buf ++ body), [])
  continuation_frame buf body fits =
      handler_frame (receiving t buf) sar_continuation t limit body refl known (omega arith)
      ∙ ground arith

  last_frame :
      (buf body : Bytes)
      → length buf + length body ≤ limit
      → notification_handler (receiving t buf) (header sar_last t ∷ body)
        ≡ (initial, dispatch t (buf ++ body) ∷ [])
  last_frame buf body fits =
      handler_frame (receiving t buf) sar_last t limit body refl known (omega arith)
      ∙ unfold reset_rx in ground arith

  -- The frames after the first complete the message.
  receive_rest :
      (index count : ℕ) (buf chunk : Bytes) (rest : List Bytes)
      → 0 < index
      → index + length (chunk ∷ rest) ≡ count
      → length buf + length (concat (chunk ∷ rest)) ≤ limit
      → receive_all (receiving t buf) (frames_from t index count (chunk ∷ rest))
        ≡ (initial, dispatch t (buf ++ concat (chunk ∷ rest)) ∷ [])
  unfolding frames_from
  receive_rest index count buf chunk [] pos last fits =
      let s : sar_of index count ≡ sar_last = ground arith in
      rw (s, append-nil chunk)
        (receive_cons (receiving t buf) initial initial (header sar_last t ∷ chunk) [] _ []
          (last_frame buf chunk (omega (arith, length-append chunk [])))
          (unfold receive_all in refl))
  receive_rest index count buf chunk (next ∷ rest) pos last fits =
      let s : sar_of index count ≡ sar_continuation = ground arith in
      rw (s, ← append_assoc buf chunk (concat (next ∷ rest)))
        (receive_cons (receiving t buf) (receiving t (buf ++ chunk)) initial
          (header sar_continuation t ∷ chunk) (frames_from t (index + 1) count (next ∷ rest)) [] _
          (continuation_frame buf chunk (omega (arith, length-append chunk (concat (next ∷ rest)))))
          (receive_rest (index + 1) count (buf ++ chunk) next rest (omega arith) (omega arith)
            (omega (arith, length-append buf chunk, length-append chunk (concat (next ∷ rest))))))

  receive_long :
      (payload : Bytes) (cs : List Bytes)
      → concat cs ≡ payload
      → AreChunks segment_size cs
      → segment_size < length payload
      → length payload ≤ limit
      → receive_all initial (frames_from t 0 (length cs) cs) ≡ (initial, dispatch t payload ∷ [])
  unfolding frames_from
  receive_long payload [] joined shape long fits = absurd (omega (arith, ap length joined))
  receive_long payload (c ∷ []) joined shape long fits =
      absurd (omega (arith, ap length joined, shape, length-append c []))
  receive_long payload (c ∷ d ∷ rest) joined shape long fits =
      let total : length c + length (concat (d ∷ rest)) ≡ length payload =
        omega (arith, ap length joined, length-append c (concat (d ∷ rest))) in
      rw (← joined) (
        receive_cons initial (receiving t c) initial (header sar_first t ∷ c)
          (frames_from t 1 (length (c ∷ d ∷ rest)) (d ∷ rest)) [] _
          (first_frame c (omega (arith, total)))
          (receive_rest 1 (length (c ∷ d ∷ rest)) c d rest (omega arith) (omega arith)
            (omega (arith, total))))

  receive-frames :
      (payload : Bytes)
      → length payload ≤ limit
      → receive_all initial (frames t payload) ≡ (initial, dispatch t payload ∷ [])
  receive-frames payload fits = elim (Bool-cases (leb (length payload) segment_size)) [
    | inl short ↦ rw short (
        receive_cons initial initial initial (header sar_complete t ∷ payload) [] _ []
          (complete_frame payload fits) (unfold receive_all in refl))
    | inr long ↦ rw long (
        receive_long payload (chunks segment_size payload)
          (concat-chunks segment_size payload (omega arith))
          (chunks-AreChunks segment_size payload (omega arith)) (ground arith) fits)
  ]

  frames_from-lt :
      (index count : ℕ) (cs : List Bytes)
      → AreChunks segment_size cs
      → All (λ (f : Bytes). length f ≤ 20) (frames_from t index count cs)
  unfolding frames_from
  frames_from-lt index count [] shape = tt
  frames_from-lt index count (c ∷ []) shape = (omega (arith, shape), tt)
  frames_from-lt index count (c ∷ d ∷ rest) shape =
      (omega (arith, shape), frames_from-lt (index + 1) count (d ∷ rest) shape.1)

  frames-lt : (payload : Bytes) → All (λ (f : Bytes). length f ≤ 20) (frames t payload)
  frames-lt payload = elim (Bool-cases (leb (length payload) segment_size)) [
    | inl short ↦ rw short (ground arith, tt)
    | inr long ↦ rw long (
        frames_from-lt 0 _ (chunks segment_size payload)
          (chunks-AreChunks segment_size payload (omega arith)))
  ]

  -- A message within the limit of its type is sent, no write is longer than the 20 bytes that
  -- every link carries, and a receiver at rest that gets the writes in order passes on exactly
  -- that message with that type, once, and is at rest again.
  pub receive-send :
      (payload : Bytes)
      → length payload ≤ limit
      → (fs : List Bytes) × (send t payload ≡ ok fs)
        × All (λ (f : Bytes). length f ≤ 20) fs
        × (receive_all initial fs ≡ (initial, dispatch t payload ∷ []))
  unfolding send
  receive-send payload fits =
      (frames t payload, ground (arith, known), frames-lt payload, receive-frames payload fits)
