-- ===== src/Lib.antt =====
-- Verification of the amaran Bluetooth Mesh integration (custom_components/amaran_ble).
--
-- The program drives amaran and Aputure fixtures over Bluetooth Mesh. A command of ten bytes (the
-- codecs) becomes an access payload, which is encrypted and segmented, wrapped in network PDUs
-- under fresh sequence numbers, and cut into GATT frames; what comes back takes the same way in the
-- other direction.
--
--   - Base: what the parts share: the exceptions as values of Result, coroutines that change a
--     state and may raise (Base/Exec), lists over native numbers, Boolean tests, shifts, `|` and `^`
--     digit by digit, byte strings, chunks and dictionaries.
--   - Sequence (amaranble/sequence.py): SequenceReservation. Sequence/Stores and Sequence/Allocator
--     are the durable stores and the allocation hooks of device.py and ProxyClient._next_seq of
--     amaranble/proxy.py; Sequence/Steps lets them run, fail and crash in any order.
--   - Gatt (amaranble/gatt.py): MeshGattTransport: `send`, `notification_handler`, `start`, `stop`
--     and the timer, with what is passed on as a list of events.
--   - Crypto (amaranble/crypto.py): the nonces and the privacy mask, over a record of the calls of
--     the `cryptography` package; Crypto/Derive: `s1` and `k1` to `k4` over its AES-CMAC.
--   - Network (amaranble/network.py): network PDUs, access encryption and opcodes;
--     Network/Segments: segments and their acknowledgements; Network/Reassembler:
--     SegmentReassembler with its pending, completed and discarded transactions;
--     Network/Identity: `NetworkKeys.derive` and the identity tests of an advertisement.
--   - Packet: the ten-byte frame that the codecs share: bit fields, command and operation bits,
--     checksum. HighSpeed, Motion, SteadyModes and Partition are amaranble/highspeed.py, motion.py,
--     steady_modes.py and partition.py.
--   - Telink (amaranble/telink.py): the system effects (Telink/Effects builds them, Telink/Decode
--     reads them), boost and fan (Telink/Reports), the steady, brightness and switch commands and
--     the state report (Telink/Status), the power and version reports and `decode_report`
--     (Telink/Dispatch).
--   - Proxy (amaranble/proxy.py): `_handle_network` of ProxyClient with what it calls: replay
--     protection, acknowledgements, segments, and dispatch to the listeners as a list of outputs.
--     Proxy/Filter is `_handle_proxy_config` and `_on_proxy_pdu`; Proxy/Sending is
--     `_send_unsegmented`, with `_send_segmented` and `send_access` in its Segmented and Access;
--     Proxy/Control is `_setup_filter`, `_send_proxy_config` and `_send_segment_ack`; Proxy/Session
--     is a sequence of these calls; Proxy/Requests is `request`. Proxy/Invariant carries an invariant
--     of the client through the receive path; Proxy/Kept and Proxy/Sending/Heard are its instances.
--   - Provisioning (amaranble/provisioning.py): Capabilities, and in Provisioning/Exchange the
--     transaction of Provisioner, whose queue of answers is its input and whose PDUs and hook calls
--     are a list of actions.
--   - Config (amaranble/config_client.py): composition data, and in Config/Client the requests of
--     ConfigClient over Proxy/Requests. Config/Pages lays a page out as the Mesh profile does.
--   - Resolver (resolver.py): `async_mesh_proxy_candidates` (Resolver/Candidates) over what the
--     Bluetooth interface of Home Assistant answers during the call.
--   - Pending (pending.py): the recovery records of provisioning.
--   - Brightness (brightness.py): the conversions between Home Assistant's brightness and the
--     fixture's intensity.
--
-- Python integers that the code keeps non-negative are native numbers; a negative input, which the
-- range checks refuse, is outside the model, as are values that are no integers. An `IntEnum` is its
-- value. Arguments that Telink takes as floats are non-negative integers, on which its rounding does
-- nothing; the G/M shift of `cct` is an integer number of tenths. Bytes are lists of numbers. Time is a number of ticks that the caller passes in. A method
-- that changes an object takes it and returns it. `chunks` runs on fuel, the length of the list,
-- which is enough because each chunk that is cut off is not empty. The `cryptography` package is a
-- parameter (Crypto.Cipher, with its documented behaviour in Crypto.IsCipher, which Crypto/Plain
-- shows can hold); the Home Assistant store either replaces its contents or leaves them
-- (Sequence/Stores).
--
-- What the surroundings do is an input. A wait of the proxy client takes the next entry of a
-- list: the PDUs that arrive and how many sequence numbers other tasks take; another list says
-- how each write of a PDU ends and how many numbers are taken in it. What arrives in the pauses between two PDUs is counted to the
-- wait after them. A request of the configuration client takes the next outcome of a list: an
-- exception of the sending, or the messages that are dispatched before the timeout. A
-- provisioning session has the PDUs that arrive in time and the number of writes that succeed;
-- the end of the queue is a timeout. `read_elements` runs on fuel, the length of the page, which
-- is enough because each element takes four bytes.
--
-- Not modelled: the asyncio scheduling around these parts, logging, the bleak connection, the
-- timeout and unwinding of ProxyClient.start, the effect codecs other than the system effects, the
-- conversion of fractional arguments, the profiles, the rest of the device
-- coordinator, and the Home Assistant entities and dialogs.
pub mod Base
pub mod Sequence
pub mod Gatt
pub mod Crypto
pub mod Network
pub mod Packet
pub mod HighSpeed
pub mod Motion
pub mod SteadyModes
pub mod Partition
pub mod Telink
pub mod Proxy
pub mod Resolver
pub mod Pending
pub mod Provisioning
pub mod Config
pub mod Brightness
