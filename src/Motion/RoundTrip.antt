-- ===== src/Motion/RoundTrip.antt =====
-- The motion frames carry their eight bytes and their operation exactly, in both directions.
use ha_amaran_ble.Base.Bits.{low_bits, shl}
use ha_amaran_ble.Packet.{has_header}
use ha_amaran_ble.Base.{
  ℕ, zero, suc, ◌+◌, ◌*◌, ◌/◌, ◌%◌, ◌^◌, ◌<◌, ◌≡◌, refl, sym, ap, ◌∙◌, Option, none, some, [], ◌∷◌,
  ◌++◌, Result, ok, length, All, take, get_or, take_left_of, length-append, length-take, arith,
  bit_or, lt→ltb, ==_refl, true, inl, inr, ◌⊎◌,
}
use ha_amaran_ble.Base.Bytes.{Bytes, IsByte, slice, sum}
use ha_amaran_ble.Motion.{
  MotionMessage, motion_config, motion_live, with_command, build, build_motion_config,
  build_motion_live, decode_header, decode_motion_config, decode_motion_live, decode_motion,
  frame_of, as_config, as_live,
}

get_or-snoc : (xs : Bytes) (x : ℕ) → get_or (xs ++ (x ∷ [])) (length xs) 0 ≡ x
get_or-snoc [] x = refl
get_or-snoc (y ∷ ys) x = get_or-snoc ys x

snoc_of : (n : ℕ) (xs : Bytes) → length xs ≡ suc n → xs ≡ take n xs ++ (get_or xs n 0 ∷ [])
snoc_of zero [] h = absurd (omega arith)
snoc_of zero (x ∷ []) h = refl
snoc_of zero (x ∷ y ∷ ys) h = absurd (omega arith)
snoc_of (suc n) [] h = absurd (omega arith)
snoc_of (suc n) (x ∷ xs) h = ap (λ t. x ∷ t) (snoc_of n xs (omega arith))

get_or-IsByte : (xs : Bytes) (i : ℕ) → All IsByte xs → IsByte (get_or xs i 0)
get_or-IsByte [] i h = omega arith
get_or-IsByte (x ∷ xs) zero h = h.0
get_or-IsByte (x ∷ xs) (suc i) h = get_or-IsByte xs i h.1

-- The command byte is the command with the operation above it.
command_byte :
    (command operation : ℕ)
    → (command ≡ 43) ⊎ (command ≡ 44)
    → operation < 2
    → bit_or command (shl operation 7) ≡ command + 128 * operation
command_byte command zero (inl e) h = rw e refl
command_byte command zero (inr e) h = rw e refl
command_byte command (suc zero) (inl e) h = rw e refl
command_byte command (suc zero) (inr e) h = rw e refl
command_byte command (suc (suc operation)) e h = absurd (omega arith)

abbrev frame_bytes : ℕ → Bytes → ℕ → Bytes
frame_bytes command data_raw operation = with_command data_raw (command + 128 * operation)

module _ (command : ℕ) (known : (command ≡ 43) ⊎ (command ≡ 44)) (data_raw : Bytes) (operation : ℕ)
    (size : length data_raw ≡ 8) (bit : operation < 2) where
  build_ok : build command data_raw operation ≡ ok (frame_bytes command data_raw operation)
  unfolding build
  build_ok = rw (size, lt→ltb operation 2 bit, command_byte command operation known bit) refl

  last_byte : get_or (frame_bytes command data_raw operation) 9 0 ≡ command + 128 * operation
  last_byte =
      let e : get_or (data_raw ++ ((command + 128 * operation) ∷ [])) 8 0
          ≡ command + 128 * operation =
        ap (λ i. get_or (data_raw ++ ((command + 128 * operation) ∷ [])) i 0) (sym size)
        ∙ get_or-snoc data_raw (command + 128 * operation) in
      e

  frame_length : length (frame_bytes command data_raw operation) ≡ 10
  frame_length = omega (arith, length-append data_raw ((command + 128 * operation) ∷ []))

  command_bits : low_bits (get_or (frame_bytes command data_raw operation) 9 0) 7 ≡ command
  command_bits = rw last_byte (omega (arith, known))

  header_ok : has_header (frame_bytes command data_raw operation) command ≡ true
  unfolding has_header
  header_ok = rw (frame_length, ==_refl, command_bits, ==_refl command) refl

  data_back : slice 1 9 (frame_bytes command data_raw operation) ≡ data_raw
  data_back = take_left_of 8 data_raw ((command + 128 * operation) ∷ []) size

  decode_header_ok : decode_header (frame_bytes command data_raw operation) command ≡ some operation
  unfolding decode_header
  decode_header_ok =
      let top : (command + 128 * operation) / 2 ^ 7 % 2 ^ 1 ≡ operation = omega (arith, known) in
      rw (header_ok, last_byte, top) refl

-- Eight bytes and a one-bit operation are framed as either command, and the dispatcher gives back
-- the same command, bytes and operation.
pub decode-build_motion :
    (data_raw : Bytes) (operation : ℕ)
    → length data_raw ≡ 8
    → operation < 2
    → ((payload : Bytes) × (build_motion_config data_raw operation ≡ ok payload)
        × (decode_motion payload
            ≡ some (motion_config (record { data_raw = data_raw; operation = operation }))))
      × ((payload : Bytes) × (build_motion_live data_raw operation ≡ ok payload)
          × (decode_motion payload
              ≡ some (motion_live (record { data_raw = data_raw; operation = operation }))))
unfolding decode_motion decode_motion_config decode_motion_live
decode-build_motion data_raw operation size bit = (
  (
    frame_bytes 43 data_raw operation,
    build_ok 43 (inl refl) data_raw operation size bit,
    rw
        (
          frame_length 43 (inl refl) data_raw operation size bit,
          command_bits 43 (inl refl) data_raw operation size bit,
          decode_header_ok 43 (inl refl) data_raw operation size bit,
          data_back 43 (inl refl) data_raw operation size bit,
        )
        refl,
  ),
  (
    frame_bytes 44 data_raw operation,
    build_ok 44 (inr refl) data_raw operation size bit,
    rw
        (
          frame_length 44 (inr refl) data_raw operation size bit,
          command_bits 44 (inr refl) data_raw operation size bit,
          decode_header_ok 44 (inr refl) data_raw operation size bit,
          data_back 44 (inr refl) data_raw operation size bit,
        )
        refl,
  ),
)

-- The builder's call for a decoded message.
unfoldable pub rebuild : MotionMessage → Result Bytes
rebuild (motion_config m) = build_motion_config m.data_raw m.operation
rebuild (motion_live m) = build_motion_live m.data_raw m.operation

build-decode_header :
    (command : ℕ) (payload : Bytes) (operation : ℕ)
    → (command ≡ 43) ⊎ (command ≡ 44)
    → All IsByte payload
    → decode_header payload command ≡ some operation
    → build command (slice 1 9 payload) operation ≡ ok payload
unfolding decode_header has_header
build-decode_header command [] operation known h e = ground arith
build-decode_header command (b ∷ bs) operation known h e =
    let size : length bs ≡ 9 = ground arith in
    let checksum : b ≡ sum bs % 256 = ground arith in
    let top : get_or bs 8 0 < 256 = get_or-IsByte bs 8 h.1 in
    let low : get_or bs 8 0 % 128 ≡ command = ground arith in
    let high : operation ≡ get_or bs 8 0 / 128 % 2 = ground arith in
    let whole : command + 128 * operation ≡ get_or bs 8 0 = omega arith in
    build_ok command known (take 8 bs) operation (omega (arith, length-take 8 bs)) (omega arith)
    ∙ rw (whole, sym (snoc_of 8 bs size), sym checksum) refl

rebuild-config :
    (payload : Bytes) (message : MotionMessage) (found : Option ℕ)
    → All IsByte payload
    → decode_header payload 43 ≡ found
    → as_config (frame_of payload found) ≡ some message
    → rebuild message ≡ ok payload
unfolding rebuild
rebuild-config payload message none h e k = cc
rebuild-config payload message (some operation) h e k =
    let known : motion_config (record { data_raw = slice 1 9 payload; operation = operation })
        ≡ message =
      cc in
    rw (sym known) (build-decode_header 43 payload operation (inl refl) h e)

rebuild-live :
    (payload : Bytes) (message : MotionMessage) (found : Option ℕ)
    → All IsByte payload
    → decode_header payload 44 ≡ found
    → as_live (frame_of payload found) ≡ some message
    → rebuild message ≡ ok payload
unfolding rebuild
rebuild-live payload message none h e k = cc
rebuild-live payload message (some operation) h e k =
    let known : motion_live (record { data_raw = slice 1 9 payload; operation = operation })
        ≡ message =
      cc in
    rw (sym known) (build-decode_header 44 payload operation (inr refl) h e)

-- Re-encoding whatever the motion decoder accepts gives the received frame back, byte for byte.
pub build-decode_motion :
    (payload : Bytes) (message : MotionMessage)
    → All IsByte payload
    → decode_motion payload ≡ some message
    → rebuild message ≡ ok payload
unfolding decode_motion decode_motion_config decode_motion_live
build-decode_motion payload message h e =
    let config : as_config (decode_motion_config payload) ≡ some message
        → rebuild message ≡ ok payload =
      λ k. rebuild-config payload message (decode_header payload 43) h refl k in
    let live : as_live (decode_motion_live payload) ≡ some message → rebuild message ≡ ok payload =
      λ k. rebuild-live payload message (decode_header payload 44) h refl k in
    ground arith
