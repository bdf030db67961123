-- ===== src/Gatt.antt =====
-- Proxy PDU framing over GATT (custom_components/amaran_ble/amaranble/gatt.py): `MeshGattTransport`
-- segments what is sent and reassembles what is received. The Bluetooth client is not part of the
-- repository: a send is the list of the values written, and a notification, a timer expiry and a
-- (re)start are the calls that change the receiver. What the receiver asks of the outside, a
-- callback with a message or a disconnection, is its list of events.
pub mod Invariant
pub mod RoundTrip
mod Examples
use ha_amaran_ble.Base.{
  ℕ, zero, suc, ◌+◌, ◌-◌, Bool, true, false, not, Option, none, some, List, [], ◌∷◌, ◌++◌, Result,
  ok, err, guard, value_error, leb, ltb, ◌==◌, if◌then◌else◌, length, bit_or, ◌>>=◌, ◌>>◌,
}
use ha_amaran_ble.Base.Bits.{shl, shr, low_bits}
use ha_amaran_ble.Base.Bytes.{Bytes}
use ha_amaran_ble.Base.Chunks.{chunks}

abbrev pub type_network : ℕ
type_network = 0x00

abbrev pub type_mesh_beacon : ℕ
type_mesh_beacon = 0x01

abbrev pub type_proxy_configuration : ℕ
type_proxy_configuration = 0x02

abbrev pub type_provisioning : ℕ
type_provisioning = 0x03

abbrev pub sar_complete : ℕ
sar_complete = 0x00

abbrev pub sar_first : ℕ
sar_first = 0x01

abbrev pub sar_continuation : ℕ
sar_continuation = 0x02

abbrev pub sar_last : ℕ
sar_last = 0x03

abbrev pub segment_size : ℕ
segment_size = 19

-- MAX_PROXY_MESSAGE_LENGTH.get(msg_type)
unfoldable pub max_proxy_message_length : ℕ → Option ℕ
max_proxy_message_length msg_type =
    if msg_type == type_network
    then some 29
    else if msg_type == type_mesh_beacon
    then some 27
    else if msg_type == type_proxy_configuration
    then some 29
    else if msg_type == type_provisioning
    then some 65
    else none

-- bytes([(sar << 6) | msg_type])
abbrev pub header : ℕ → ℕ → ℕ
header sar msg_type = bit_or (shl sar 6) msg_type

abbrev pub sar_of : ℕ → ℕ → ℕ
sar_of index count =
    if index == 0 then sar_first else if index == count - 1 then sar_last else sar_continuation

-- The writes for the chunks from `index` on, out of `count`.
unfoldable pub frames_from : ℕ → ℕ → ℕ → List Bytes → List Bytes
frames_from msg_type index count [] = []
frames_from msg_type index count (chunk ∷ rest) =
    (header (sar_of index count) msg_type ∷ chunk) ∷ frames_from msg_type (index + 1) count rest

abbrev pub frames : ℕ → Bytes → List Bytes
frames msg_type payload =
    if leb (length payload) segment_size
    then (header sar_complete msg_type ∷ payload) ∷ []
    else let cs = chunks segment_size payload in frames_from msg_type 0 (length cs) cs

unfoldable pub send : ℕ → Bytes → Result (List Bytes)
send msg_type payload = elim (max_proxy_message_length msg_type) [
  | none ↦ err value_error
  | some limit ↦ do
    guard (not (ltb limit (length payload))) value_error
    ok (frames msg_type payload)
]

pub record Receiver : Type 0 where
  pub rx_type : Option ℕ
  pub rx_buf : Bytes
  pub rx_timeout : Bool
  pub protocol_failed : Bool

pub data Event : Type 0 where
  dispatch : ℕ → Bytes → Event
  disconnect : Event

unfoldable pub reset_rx : Receiver → Receiver
reset_rx r = record r { rx_type = none; rx_buf = []; rx_timeout = false }

unfoldable pub fail_protocol : Receiver → Receiver × List Event
unfolding reset_rx
fail_protocol r = (record (reset_rx r) { protocol_failed = true }, disconnect ∷ [])

abbrev pub is_receiving : Receiver → Bool
is_receiving r = elim r.rx_type [ none ↦ false | some _ ↦ true ]

abbrev pub is_receiving_type : Receiver → ℕ → Bool
is_receiving_type r msg_type = elim r.rx_type [ none ↦ false | some t ↦ t == msg_type ]

abbrev pub handle_complete : Receiver → ℕ → ℕ → Bytes → Receiver × List Event
handle_complete r limit msg_type body =
    if is_receiving r
    then fail_protocol r
    else if ltb limit (length body)
    then fail_protocol r
    else (r, dispatch msg_type body ∷ [])

abbrev pub handle_first : Receiver → ℕ → ℕ → Bytes → Receiver × List Event
handle_first r limit msg_type body =
    if is_receiving r
    then fail_protocol r
    else if ltb limit (length body)
    then fail_protocol r
    else (record r { rx_type = some msg_type; rx_buf = body; rx_timeout = true }, [])

abbrev pub handle_fragment : Receiver → ℕ → ℕ → ℕ → Bytes → Receiver × List Event
handle_fragment r limit sar msg_type body =
    if not (is_receiving_type r msg_type)
    then fail_protocol r
    else if ltb limit (length r.rx_buf + length body)
    then fail_protocol r
    else if sar == sar_last
    then (reset_rx r, dispatch msg_type (r.rx_buf ++ body) ∷ [])
    else (record r { rx_buf = r.rx_buf ++ body }, [])

abbrev pub handle_frame : Receiver → ℕ → ℕ → ℕ → Bytes → Receiver × List Event
handle_frame r limit sar msg_type body =
    if sar == sar_complete
    then handle_complete r limit msg_type body
    else if sar == sar_first
    then handle_first r limit msg_type body
    else handle_fragment r limit sar msg_type body

-- Empty values, anything after a failure, and reserved message types are ignored.
unfoldable pub notification_handler : Receiver → Bytes → Receiver × List Event
unfolding fail_protocol
notification_handler r [] = (r, [])
notification_handler r (first ∷ body) =
    if r.protocol_failed then (r, []) else elim (max_proxy_message_length (low_bits first 6)) [
      | none ↦ (r, [])
      | some limit ↦ handle_frame r limit (low_bits (shr first 6) 2) (low_bits first 6) body
    ]

unfoldable pub sar_timed_out : Receiver → Receiver × List Event
unfolding fail_protocol
sar_timed_out r = fail_protocol (record r { rx_timeout = false })

unfoldable pub start : Receiver → Receiver
unfolding reset_rx
start r = record (reset_rx r) { protocol_failed = false }

unfoldable pub stop : Receiver → Receiver
unfolding reset_rx
stop r = reset_rx r

abbrev pub initial : Receiver
initial = record { rx_type = none; rx_buf = []; rx_timeout = false; protocol_failed = false }

-- All notifications of one exchange, in order, with all the events.
unfoldable pub receive_all : Receiver → List Bytes → Receiver × List Event
receive_all r [] = (r, [])
receive_all r (frame ∷ rest) =
    let (r', events) = notification_handler r frame in
    let (r'', more) = receive_all r' rest in (r'', events ++ more)
