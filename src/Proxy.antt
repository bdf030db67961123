-- ===== src/Proxy.antt =====
-- The receive path of `ProxyClient` (custom_components/amaran_ble/amaranble/proxy.py): replay
-- protection, acknowledgements, reassembly and dispatch. What the client does to the outside is a
-- list of outputs. An exception drops the PDU, with what was changed before it.
pub mod Marks
pub mod Invariant
pub mod Kept
pub mod Replay
pub mod Requests
pub mod Filter
pub mod Control
pub mod Session
pub mod Sending
mod Examples
use ha_amaran_ble.Base.{
  ℕ, ◌+◌, ◌≤◌, max, Bool, true, false, not, ◌&&◌, ◌||◌, Option, none, some, List, [], ◌∷◌, ◌++◌,
  Result, ok, err, leb, ltb, ◌==◌, if◌then◌else◌, length, bit_or, truthy,
}
use ha_amaran_ble.Base.Bits.{shr, low_bits}
use ha_amaran_ble.Base.Bytes.{Bytes}
use ha_amaran_ble.Base.Dict.{Dict, get, put, nat_Eq}
use ha_amaran_ble.Crypto.{Cipher}
use ha_amaran_ble.Network.{NetworkKeys, NetworkMessage, decode_network_pdu, decrypt_access_payload}
use ha_amaran_ble.Network.Opcodes.{decode_opcode}
use ha_amaran_ble.Network.Segments.{
  SegmentAck, parse_segment_ack, AccessSegment, parse_access_segment,
}
use ha_amaran_ble.Network.Reassembler.{Pair, Reassembler, AddResult, add, completed_ack}

pub record AccessMessage : Type 0 where
  pub src : ℕ
  pub dst : ℕ
  pub opcode : ℕ
  pub parameters : Bytes
  pub device_key : Bool

-- `done` is that of the future.
pub record PendingSegmentAck : Type 0 where
  pub done : Bool
  pub dst : ℕ
  pub segment_count : ℕ
  pub acknowledged : ℕ

-- The state of `ProxyClient` that the receive path reads or changes; `filter_status` says of the
-- future whether it is done.
pub record Client : Type 0 where
  pub keys : NetworkKeys
  pub app_key : Bytes
  pub aid : ℕ
  pub device_keys : Dict ℕ Bytes
  pub local_address : ℕ
  pub iv_index : ℕ
  pub replay_list : Dict ℕ ℕ
  pub reassembler : Reassembler
  pub pending_ack : Dict ℕ PendingSegmentAck
  pub filter_status : Option Bool

-- A message to the listeners, an acknowledgement to send, or one that answers a waiting sender.
pub data Output : Type 0 where
  dispatched : AccessMessage → Output
  segment_ack : ℕ → ℕ → ℕ → Output
  acknowledged_by : ℕ → SegmentAck → Output

abbrev pub not_above : Option ℕ → ℕ → Bool
not_above none seq = false
not_above (some previous) seq = leb seq previous

abbrev pub raised : Option ℕ → ℕ → ℕ
raised none seq = seq
raised (some previous) seq = max seq previous

unfoldable pub is_replay : Client → ℕ → ℕ → Bool
is_replay c src seq = not_above (get src c.replay_list) seq

unfoldable pub remember_sequence : Client → ℕ → ℕ → Client
remember_sequence c src seq = record c {
  replay_list = put src (raised (get src c.replay_list) seq) c.replay_list;
}

-- The keys to try, each with whether it is a device key.
abbrev pub candidates : Client → ℕ → ℕ → ℕ → List (Bytes × Bool)
candidates c src akf aid =
    if akf == 0
    then elim (get src c.device_keys) [
      | none ↦ []
      | some device_key ↦ if length device_key == 0 then [] else (device_key, true) ∷ []
    ]
    else if aid == c.aid
    then (c.app_key, false) ∷ []
    else []

abbrev pub opened : NetworkMessage → Bool → Result (ℕ × Bytes) → Option AccessMessage
opened m device_key (err e) = none
opened m device_key (ok (opcode, parameters)) = some (record {
  src = m.src;
  dst = m.dst;
  opcode = opcode;
  parameters = parameters;
  device_key = device_key;
})

abbrev pub open_access : NetworkMessage → Bool → Result Bytes → Option AccessMessage
open_access m device_key (err e) = none
open_access m device_key (ok access_pdu) = opened m device_key (decode_opcode access_pdu)

abbrev pub first_of : Option AccessMessage → Option AccessMessage → Option AccessMessage
first_of none next = next
first_of (some message) next = some message

-- The first key that decrypts to an access message.
unfoldable pub try_keys :
    Cipher → Client → NetworkMessage → Bytes → ℕ → ℕ → List (Bytes × Bool) → Option AccessMessage
try_keys cipher c m upper szmic seq_auth [] = none
try_keys cipher c m upper szmic seq_auth ((key, device_key) ∷ rest) =
    first_of
      (open_access m device_key
        (decrypt_access_payload cipher key device_key c.iv_index seq_auth m.src m.dst upper szmic))
      (try_keys cipher c m upper szmic seq_auth rest)

-- The sequence number is remembered only for a message that was dispatched.
abbrev pub dispatch : Client → ℕ → ℕ → Option AccessMessage → List Output × Client
dispatch c src seq none = ([], c)
dispatch c src seq (some message) = (dispatched message ∷ [], remember_sequence c src seq)

unfoldable pub decrypt_and_dispatch :
    Cipher → Client → NetworkMessage → Bytes → ℕ → ℕ → ℕ → ℕ → ℕ → List Output × Client
decrypt_and_dispatch cipher c m upper akf aid szmic seq_auth replay_seq =
    dispatch c m.src replay_seq
      (try_keys cipher c m upper szmic seq_auth (candidates c m.src akf aid))

abbrev pub ack_to : Client → NetworkMessage → ℕ → ℕ → List Output
ack_to c m seq_zero block_ack =
    if m.dst == c.local_address then segment_ack m.src seq_zero block_ack ∷ [] else []

-- `block_ack & ~valid_bits` is not 0 where a bit from `segment_count` on is set, and
-- `block_ack & ~acknowledged` is 0 where `|` adds nothing.
abbrev pub ignores : Client → NetworkMessage → SegmentAck → PendingSegmentAck → Bool
ignores c m ack p =
    p.done
    || not (m.dst == c.local_address)
    || not (m.src == p.dst)
    || not (shr ack.block_ack p.segment_count == 0)
    || (not (ack.block_ack == 0) && (bit_or p.acknowledged ack.block_ack == p.acknowledged))

abbrev pub accept_ack :
    Client → NetworkMessage → SegmentAck → Option PendingSegmentAck → List Output × Client
accept_ack c m ack none = ([], c)
accept_ack c m ack (some p) = if ignores c m ack p then ([], c) else (
  acknowledged_by ack.seq_zero ack ∷ [],
  record (remember_sequence c m.src m.seq) {
    pending_ack =
        put ack.seq_zero
          (record p { done = true; acknowledged = bit_or p.acknowledged ack.block_ack })
          c.pending_ack;
  },
)

abbrev pub handle_ack : Client → NetworkMessage → Result SegmentAck → List Output × Client
handle_ack c m (err e) = ([], c)
handle_ack c m (ok ack) = accept_ack c m ack (get ack.seq_zero c.pending_ack)

unfoldable pub handle_control : Client → NetworkMessage → ℕ → Bytes → List Output × Client
handle_control c m first rest =
    if is_replay c m.src m.seq
    then ([], c)
    else if low_bits first 7 == 0
    then handle_ack c m (parse_segment_ack rest)
    else ([], c)

abbrev pub handle_whole :
    Cipher → Client → NetworkMessage → AccessSegment → Bytes → ℕ → Option ℕ → List Output × Client
handle_whole cipher c m s upper block_ack none = ([], c)
handle_whole cipher c m s upper block_ack (some last) =
    let acks = ack_to c m s.seq_zero block_ack in
    let (more, c') = decrypt_and_dispatch cipher c m upper s.akf s.aid s.szmic s.seq_auth last in
    if is_replay c m.src last then (acks, c) else (acks ++ more, c')

abbrev pub handle_added :
    Cipher
    → Client
    → NetworkMessage
    → AccessSegment
    → AddResult
    → Option Bytes
    → List Output × Client
handle_added cipher c m s result none =
    if s.seg_o == s.seg_n then (ack_to c m s.seq_zero result.block_ack, c) else ([], c)
handle_added cipher c m s result (some upper) =
    handle_whole cipher c m s upper result.block_ack result.last_segment_seq

abbrev pub handle_result :
    Cipher → Client → NetworkMessage → AccessSegment → Result AddResult → List Output × Client
handle_result cipher c m s (err e) = ([], c)
handle_result cipher c m s (ok result) =
    if result.already_complete
    then (ack_to c m s.seq_zero result.block_ack, c)
    else handle_added cipher c m s result result.upper_pdu

abbrev pub repeat_ack : Client → NetworkMessage → AccessSegment → Option ℕ → List Output
repeat_ack c m s none = []
repeat_ack c m s (some block_ack) = ack_to c m s.seq_zero block_ack

-- The clock is read once for both calls of the reassembler.
abbrev pub handle_segment :
    Cipher → Client → NetworkMessage → ℕ → Result AccessSegment → List Output × Client
handle_segment cipher c m now (err e) = ([], c)
handle_segment cipher c m now (ok s) =
    let pair : Pair = record { src = m.src; dst = m.dst } in
    let (completed, pruned) = completed_ack c.reassembler pair s.seq_auth now in
    let c' = record c { reassembler = pruned } in
    let (result, r) = add pruned pair m.seq s now in
    if is_replay c m.src m.seq
    then (repeat_ack c m s completed, c')
    else handle_result cipher (record c' { reassembler = r }) m s result

abbrev pub handle_lower : Cipher → Client → NetworkMessage → ℕ → Bytes → List Output × Client
handle_lower cipher c m now [] = ([], c)
handle_lower cipher c m now (first ∷ rest) =
    let akf = low_bits (shr first 6) 1 in
    let aid = low_bits first 6 in
    if not (m.ctl == 0)
    then handle_control c m first rest
    else if low_bits (shr first 7) 1 == 1
    then handle_segment cipher c m now (parse_access_segment m.seq (first ∷ rest))
    else if is_replay c m.src m.seq
    then ([], c)
    else decrypt_and_dispatch cipher c m rest akf aid 0 m.seq m.seq

abbrev pub handle_message : Cipher → Client → ℕ → Result NetworkMessage → List Output × Client
handle_message cipher c now (err e) = ([], c)
handle_message cipher c now (ok m) =
    if m.src == c.local_address then ([], c) else handle_lower cipher c m now m.transport_pdu

unfoldable pub handle_network : Cipher → Client → Bytes → ℕ → List Output × Client
handle_network cipher c payload now =
    handle_message cipher c now (decode_network_pdu cipher c.keys c.iv_index false payload)
