-- ===== src/Proxy/Replay.antt =====
-- Replay protection over the whole receive path (custom_components/amaran_ble/amaranble/proxy.py).
use ha_amaran_ble.Base.{
  ℕ, ◌≤◌, ◌≡◌, refl, Bool, true, false, Bool-cases, inl, inr, Option, none, some, List, [], ◌∷◌,
  ◌++◌, Result, ok, err, ◌==◌, arith, ◌<◌, ltb,
}
use ha_amaran_ble.Base.Bits.{shr, low_bits}
use ha_amaran_ble.Base.Bytes.{Bytes}
use ha_amaran_ble.Base.Dict.{nat_Eq}
use ha_amaran_ble.Crypto.{Cipher}
use ha_amaran_ble.Network.{NetworkMessage, decode_network_pdu}
use ha_amaran_ble.Network.Segments.{AccessSegment, parse_access_segment}
use ha_amaran_ble.Network.Reassembler.{completed_ack}
use ha_amaran_ble.Proxy.{
  Client, Output, acknowledged_by, is_replay, decrypt_and_dispatch, ack_to, handle_control,
  repeat_ack, handle_segment, handle_lower, handle_message, handle_network, AccessMessage,
  dispatched, segment_ack, dispatch, try_keys, candidates,
}
use ha_amaran_ble.Proxy.Marks.{
  mark, mark-remembered, is_replay-mark, Keeps, Keeps-refl, Keeps-trans,
}
use ha_amaran_ble.Proxy.Kept.{handle_message-Keeps, handle_network-Keeps}

-- The PDUs of a session, each with its time.
unfoldable pub receive_all : Cipher → Client → List (Bytes × ℕ) → List Output × Client
receive_all cipher c [] = ([], c)
receive_all cipher c ((payload, now) ∷ rest) =
    let (out, c') = handle_network cipher c payload now in
    let (more, c'') = receive_all cipher c' rest in (out ++ more, c'')

receive_all-Keeps :
    (cipher : Cipher) (c : Client) (pdus : List (Bytes × ℕ)) → Keeps c (receive_all cipher c pdus).1
unfolding receive_all
receive_all-Keeps cipher c [] = Keeps-refl c
receive_all-Keeps cipher c ((payload, now) ∷ rest) =
    let c' = (handle_network cipher c payload now).1 in
    Keeps-trans c c' _ (handle_network-Keeps cipher c payload now)
      (receive_all-Keeps cipher c' rest)

-- The messages that the listeners are given.
abbrev pub messages_of : List Output → List AccessMessage
messages_of [] = []
messages_of (dispatched m ∷ rest) = m ∷ messages_of rest
messages_of (segment_ack dst seq_zero block_ack ∷ rest) = messages_of rest
messages_of (acknowledged_by seq_zero ack ∷ rest) = messages_of rest

messages_of-ack_to :
    (c : Client) (m : NetworkMessage) (seq_zero block_ack : ℕ)
    → messages_of (ack_to c m seq_zero block_ack) ≡ []
messages_of-ack_to c m seq_zero block_ack = ground arith

messages_of-repeat_ack :
    (c : Client) (m : NetworkMessage) (seg : AccessSegment) (o : Option ℕ)
    → messages_of (repeat_ack c m seg o) ≡ []
messages_of-repeat_ack c m seg none = refl
messages_of-repeat_ack c m seg (some block_ack) = messages_of-ack_to c m seg.seq_zero block_ack

is_replay_below : (c : Client) (src seq : ℕ) → seq < mark c src → is_replay c src seq ≡ true
is_replay_below c src seq h = elim (Bool-cases (is_replay c src seq)) [
  | inl e ↦ e
  | inr e ↦ absurd (omega (arith, h, is_replay-mark c src seq e))
]

-- Below the mark of its source nothing is given to the listeners.
handle_segment_below :
    (cipher : Cipher) (c : Client) (m : NetworkMessage) (now : ℕ) (seg : Result AccessSegment)
    → is_replay c m.src m.seq ≡ true
    → messages_of (handle_segment cipher c m now seg).0 ≡ []
handle_segment_below cipher c m now (err e) h = refl
handle_segment_below cipher c m now (ok seg) h = rw h (
    messages_of-repeat_ack c m seg
      (completed_ack c.reassembler (record { src = m.src; dst = m.dst }) seg.seq_auth now).0)

handle_lower_below :
    (cipher : Cipher) (c : Client) (m : NetworkMessage) (now : ℕ) (lower : Bytes)
    → is_replay c m.src m.seq ≡ true
    → messages_of (handle_lower cipher c m now lower).0 ≡ []
unfolding handle_control
handle_lower_below cipher c m now [] h = refl
handle_lower_below cipher c m now (first ∷ rest) h =
    let segment =
      handle_segment_below cipher c m now (parse_access_segment m.seq (first ∷ rest)) h in
    ground (arith, segment)

handle_message_below :
    (cipher : Cipher) (c : Client) (now : ℕ) (m : NetworkMessage)
    → is_replay c m.src m.seq ≡ true
    → messages_of (handle_message cipher c now (ok m)).0 ≡ []
handle_message_below cipher c now m h =
    let lower = handle_lower_below cipher c m now m.transport_pdu h in ground (arith, lower)

-- A message that fits one PDU: the SEG bit of its access PDU is not set.
abbrev pub is_unsegmented : Bytes → Bool
is_unsegmented [] = false
is_unsegmented (first ∷ rest) = ltb first 0x80

mark-dispatch :
    (c : Client) (src seq : ℕ) (found : Option AccessMessage) (message : AccessMessage)
    → messages_of (dispatch c src seq found).0 ≡ message ∷ []
    → seq < mark (dispatch c src seq found).1 src
mark-dispatch c src seq none message h = ground arith
mark-dispatch c src seq (some found) message h = mark-remembered c src seq

mark-decrypt_and_dispatch :
    (cipher : Cipher) (c : Client) (m : NetworkMessage) (upper : Bytes)
    (akf aid szmic seq_auth seq : ℕ) (message : AccessMessage)
    → messages_of (decrypt_and_dispatch cipher c m upper akf aid szmic seq_auth seq).0
      ≡ message ∷ []
    → seq < mark (decrypt_and_dispatch cipher c m upper akf aid szmic seq_auth seq).1 m.src
unfolding decrypt_and_dispatch
mark-decrypt_and_dispatch cipher c m upper akf aid szmic seq_auth seq message h =
    mark-dispatch c m.src seq
      (try_keys cipher c m upper szmic seq_auth (candidates c m.src akf aid)) message h

-- An acknowledgement is not given to the listeners.
messages_of-handle_control :
    (c : Client) (m : NetworkMessage) (first : ℕ) (rest : Bytes)
    → messages_of (handle_control c m first rest).0 ≡ []
unfolding handle_control
messages_of-handle_control c m first rest = ground arith

mark-handle_lower :
    (cipher : Cipher) (c : Client) (m : NetworkMessage) (now : ℕ) (lower : Bytes)
    (message : AccessMessage)
    → is_unsegmented lower ≡ true
    → messages_of (handle_lower cipher c m now lower).0 ≡ message ∷ []
    → m.seq < mark (handle_lower cipher c m now lower).1 m.src
mark-handle_lower cipher c m now [] message short h = ground arith
mark-handle_lower cipher c m now (first ∷ rest) message short h =
    let akf = low_bits (shr first 6) 1 in
    let aid = low_bits first 6 in
    let seg : (low_bits (shr first 7) 1 == 1) ≡ false = ground arith in
    let control = messages_of-handle_control c m first rest in
    let marked = mark-decrypt_and_dispatch cipher c m rest akf aid 0 m.seq m.seq message in
    ground (arith, control, marked)

mark-handle_message :
    (cipher : Cipher) (c : Client) (now : ℕ) (m : NetworkMessage) (message : AccessMessage)
    → is_unsegmented m.transport_pdu ≡ true
    → messages_of (handle_message cipher c now (ok m)).0 ≡ message ∷ []
    → m.seq < mark (handle_message cipher c now (ok m)).1 m.src
mark-handle_message cipher c now m message short h =
    let lower = mark-handle_lower cipher c m now m.transport_pdu message short in
    ground (arith, lower)

-- Once the message of an unsegmented network PDU was given to the listeners, no network PDU that
-- carries the same or an earlier sequence number of the same source gives them a message again,
-- whatever network PDUs arrive in between and at whatever times: neither that PDU, sent again, nor
-- an older one.
pub handle_network_once :
    (cipher : Cipher) (c : Client) (payload : Bytes) (now : ℕ) (m : NetworkMessage)
    (message : AccessMessage)
    → decode_network_pdu cipher c.keys c.iv_index false payload ≡ ok m
    → is_unsegmented m.transport_pdu ≡ true
    → messages_of (handle_network cipher c payload now).0 ≡ message ∷ []
    → (between : List (Bytes × ℕ)) (again : Bytes) (later : ℕ) (m' : NetworkMessage)
    → decode_network_pdu cipher c.keys c.iv_index false again ≡ ok m'
    → m'.src ≡ m.src
    → m'.seq ≤ m.seq
    → messages_of
        (handle_network cipher
          (receive_all cipher (handle_network cipher c payload now).1 between).1
          again
          later).0
      ≡ []
unfolding handle_network
handle_network_once cipher c payload now m message read short given between again later m' read'
      same not_later =
    let first = (handle_message cipher c now (ok m)).1 in
    let last = (receive_all cipher first between).1 in
    let marked = mark-handle_message cipher c now m message short (rw read at given) in
    let kept = receive_all-Keeps cipher first between in
    let at_first = handle_message-Keeps cipher c now (ok m) in
    let above : m'.seq < mark last m'.src =
      rw same (omega (arith, marked, kept.marks m.src, not_later)) in
    rw (read, kept.keys, at_first.keys, kept.iv_index, at_first.iv_index, read')
      (handle_message_below cipher last later m' (is_replay_below last m'.src m'.seq above))
