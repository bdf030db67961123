-- ===== src/Gatt/Examples.antt =====
-- Sending and receiving on concrete messages.
use ha_amaran_ble.Base.{
  ◌≤◌, ◌≡◌, refl, true, false, none, some, List, [], ◌∷◌, All, length, arith, ok, replicate,
}
use ha_amaran_ble.Base.Bytes.{Bytes}
use ha_amaran_ble.Base.Chunks.{chunks}
use ha_amaran_ble.Gatt.{
  Receiver, dispatch, disconnect, max_proxy_message_length, notification_handler, frames_from, send,
  initial, receive_all, type_provisioning,
}
use ha_amaran_ble.Gatt.Invariant.{
  IsValid, EventFits, receive_all-IsValid, receive_all_disconnected, is_disconnecting,
}
use ha_amaran_ble.Gatt.RoundTrip.{receive-send}

abbrev long_message : Bytes
long_message = replicate 40 7

-- 0x43, 0x83 and 0xC3 are the first, the continuation and the last header of type 3.
send_long :
    send type_provisioning long_message
    ≡ ok ((0x43 ∷ replicate 19 7) ∷ (0x83 ∷ replicate 19 7) ∷ (0xC3 ∷ replicate 2 7) ∷ [])
unfolding send max_proxy_message_length frames_from chunks
send_long = refl

provisioning_known : max_proxy_message_length type_provisioning ≡ some 65
unfolding max_proxy_message_length
provisioning_known = refl

initial-IsValid : IsValid initial
initial-IsValid = record { buffer = refl; timer = refl; quiet = λ e. refl }

receive-send_example :
    (fs : List Bytes) × (send type_provisioning long_message ≡ ok fs)
    × All (λ (f : Bytes). length f ≤ 20) fs
    × (receive_all initial fs ≡ (initial, dispatch type_provisioning long_message ∷ []))
receive-send_example =
    receive-send type_provisioning 65 provisioning_known long_message (omega arith)

-- A complete PDU in the middle of a transfer.
abbrev interrupted : List Bytes
interrupted = (0x43 ∷ 1 ∷ []) ∷ (0x03 ∷ 2 ∷ []) ∷ []

receive_all-IsValid_example :
    IsValid (receive_all initial interrupted).0 × All EventFits (receive_all initial interrupted).1
receive_all-IsValid_example = receive_all-IsValid initial interrupted initial-IsValid

abbrev failed : Receiver
failed = record { rx_type = none; rx_buf = []; rx_timeout = false; protocol_failed = true }

interrupted_fails : receive_all initial interrupted ≡ (failed, disconnect ∷ [])
unfolding receive_all notification_handler max_proxy_message_length
interrupted_fails = refl

receive_all_disconnected_example :
    receive_all (receive_all initial interrupted).0 (replicate 2 (0x03 ∷ 2 ∷ []))
    ≡ ((receive_all initial interrupted).0, [])
receive_all_disconnected_example =
    receive_all_disconnected initial interrupted (replicate 2 (0x03 ∷ 2 ∷ [])) disconnected
  where
    disconnected : is_disconnecting (receive_all initial interrupted).1 ≡ true
    disconnected = rw interrupted_fails refl
