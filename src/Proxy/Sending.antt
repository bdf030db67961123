-- ===== src/Proxy/Sending.antt =====
-- The state that the senders of `ProxyClient` share, and `_send_unsegmented`
-- (custom_components/amaran_ble/amaranble/proxy.py). What arrives while a sender waits goes through
-- the receive path of the parent; other tasks may take sequence numbers in the meantime.
pub mod Segmented
pub mod Access
pub mod Fresh
pub mod FreshSegmented
pub mod FreshAccess
pub mod Heard
pub mod Outcome
use ha_amaran_ble.Base.{
  ℕ, zero, suc, ◌+◌, Bool, true, false, not, ◌&&◌, ◌||◌, Option, none, some, List, [], ◌∷◌, ◌++◌,
  Error, Result, ok, err, proxy_error, leb, ltb, ◌==◌, if◌then◌else◌, length, get_or, truthy, max,
}
use ha_amaran_ble.Base.Bits.{shr, low_bits}
use ha_amaran_ble.Base.Bytes.{Bytes}
use ha_amaran_ble.Base.Dict.{Dict, get, put, remove, nat_Eq}
use ha_amaran_ble.Base.Exec.{Exec, lift, pure, raise, require, modify, gets, ◌>>=◌, ◌>>◌}
use ha_amaran_ble.Crypto.{Cipher}
use ha_amaran_ble.Gatt
use ha_amaran_ble.Gatt.{type_network}
use ha_amaran_ble.Network.{NetworkMessage, encode_network_pdu, encrypt_access_payload}
use ha_amaran_ble.Network.Opcodes.{encode_opcode}
use ha_amaran_ble.Network.Segments.{SegmentAck, build_unsegmented_access, build_access_segments}
use ha_amaran_ble.Sequence.{max_sequence}
use ha_amaran_ble.Proxy.{Client, PendingSegmentAck, Output, acknowledged_by}
use ha_amaran_ble.Proxy.Filter.{on_proxy_pdu}

-- A proxy PDU that the transport hands over.
pub record Arrival : Type 0 where
  pub msg_type : ℕ
  pub payload : Bytes
  pub now : ℕ

-- What happens during one wait: the PDUs that arrive, and how many sequence numbers other tasks
-- take.
pub record Meantime : Type 0 where
  pub arrivals : List Arrival
  pub taken : ℕ

-- A network PDU that was written, with its sequence number.
pub record Sent : Type 0 where
  pub seq : ℕ
  pub pdu : Bytes

-- How the write of one PDU ends, and how many sequence numbers other tasks take while it is written
-- and settles.
pub record Pause : Type 0 where
  pub taken : ℕ
  pub result : Result (Unit {0})

pub record Link : Type 0 where
  pub client : Client
  pub sequence : ℕ
  pub waits : List Meantime
  pub pauses : List Pause
  pub sent : List Sent

-- What stays the same throughout a sending: the cipher, the allocator's hook and the arguments.
pub record Sending : Type 0 where
  pub cipher : Cipher
  pub before_sequence : ℕ → Result (Unit {0})
  pub dst : ℕ
  pub ttl : ℕ
  pub key : Bytes
  pub akf : ℕ
  pub aid : ℕ
  pub use_device_key : Bool

-- `_next_seq`; the number is handed out before the counter moves on.
unfoldable pub next_seq : (ℕ → Result (Unit {0})) → Exec Link ℕ
next_seq before_sequence = do
  seq ← gets (λ (s : Link). s.sequence)
  require (not (ltb max_sequence seq)) proxy_error
  lift (before_sequence seq)
  modify (λ s. record s { sequence = seq + 1 })
  pure seq

abbrev pub pause_of : List Pause → Pause × List Pause
pause_of [] = (record { taken = 0; result = ok tt }, [])
pause_of (pause ∷ rest) = (pause, rest)

abbrev pub log_sent : ℕ → Bytes → Link → Link
log_sent seq pdu s =
    let (pause, rest) = pause_of s.pauses in
    record s {
      sequence = s.sequence + pause.taken;
      pauses = rest;
      sent = s.sent ++ (record { seq = seq; pdu = pdu } ∷ []);
    }

-- A PDU on its way. A write that fails may have written the PDU, or a part of it, and raises.
abbrev pub write : ℕ → Bytes → Exec Link (Unit {0})
write seq pdu s = ((pause_of s.pauses).0.result, log_sent seq pdu s)

abbrev pub network_pdu : Sending → Client → ℕ → Bytes → Result Bytes
network_pdu a c seq transport_pdu = encode_network_pdu a.cipher c.keys c.iv_index false (record {
  ctl = 0;
  ttl = a.ttl;
  seq = seq;
  src = c.local_address;
  dst = a.dst;
  transport_pdu = transport_pdu;
})

-- The network PDU of one transport PDU, on its way.
unfoldable pub transmit : Sending → ℕ → Bytes → Exec Link (Unit {0})
transmit a seq transport_pdu = do
  c ← gets (λ (s : Link). s.client)
  pdu ← lift (network_pdu a c seq transport_pdu)
  frames ← lift (Gatt.send type_network pdu)
  write seq pdu

abbrev pub encrypted : Sending → Client → ℕ → Bytes → Result Bytes
encrypted a c seq access_pdu =
    encrypt_access_payload a.cipher a.key a.use_device_key c.iv_index seq c.local_address a.dst
      access_pdu 0

unfoldable pub upper_pdu : Sending → ℕ → Bytes → Exec Link Bytes
upper_pdu a seq access_pdu = do
  c ← gets (λ (s : Link). s.client)
  lift (encrypted a c seq access_pdu)

-- Each repeat has a number, and so a ciphertext, of its own.
unfoldable pub repeat_unsegmented : Sending → Bytes → ℕ → Exec Link (Unit {0})
repeat_unsegmented a access_pdu zero = pure tt
repeat_unsegmented a access_pdu (suc attempts) = do
  seq ← next_seq a.before_sequence
  upper ← upper_pdu a seq access_pdu
  transport_pdu ← lift (build_unsegmented_access a.akf a.aid upper)
  transmit a seq transport_pdu
  repeat_unsegmented a access_pdu attempts

unfoldable pub send_unsegmented : Sending → Bytes → ℕ → Exec Link (Unit {0})
unfolding repeat_unsegmented
send_unsegmented a access_pdu retries = repeat_unsegmented a access_pdu (max 1 retries)

abbrev pub receive : Cipher → Client → List Arrival → List Output × Client
receive cipher c [] = ([], c)
receive cipher c (arrival ∷ rest) =
    let (outputs, c') = on_proxy_pdu cipher c arrival.msg_type arrival.payload arrival.now in
    let (more, c'') = receive cipher c' rest in (outputs ++ more, c'')

abbrev pub meantime_of : List Meantime → Meantime × List Meantime
meantime_of [] = (record { arrivals = []; taken = 0 }, [])
meantime_of (m ∷ rest) = (m, rest)

-- One wait, up to its answer or its timeout.
unfoldable pub arrive : Cipher → Exec Link (List Output)
arrive cipher s =
    let (m, rest) = meantime_of s.waits in
    let (outputs, c) = receive cipher s.client m.arrivals in
    (ok outputs, record s { client = c; waits = rest; sequence = s.sequence + m.taken })
