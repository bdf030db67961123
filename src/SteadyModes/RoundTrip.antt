-- ===== src/SteadyModes/RoundTrip.antt =====
-- What the round trips of the steady-mode packets share.
pub mod Gel
pub mod Rgbw
pub mod Xy
use ha_amaran_ble.Packet.{Field, field, finalize, or_fields}
use ha_amaran_ble.Base.{
  ℕ, ◌<◌, ◌≡◌, refl, ap, ◌∙◌, some, List, [], ◌∷◌, ◌++◌, All, All-append, ok, arith, lt→ltb, truthy,
}
use ha_amaran_ble.Base.Bytes.{Bytes, from_bytes_little}
use ha_amaran_ble.Packet.Fields.{IsField, lookup}
use ha_amaran_ble.Packet.Header.{
  framed, framed-IsFrame, or_fields-or_masked, IsFrame, wire_value_ok,
}
use ha_amaran_ble.SteadyModes.{
  cmd_gel, cmd_rgbw, cmd_xy, gel, rgbw, xy, GelState, RgbwState, XyState, build_payload,
  decode_header, Header, build_gel, decode_gel, build_rgbw, decode_rgbw, build_xy, decode_xy,
  decode_steady_mode,
}

abbrev pub tail : ℕ → ℕ → List Field
tail command operation = field command 72 7 ∷ field operation 79 1 ∷ []

abbrev pub payload_of : ℕ → ℕ → List Field → Bytes
payload_of command operation fs = framed (or_fields 0 (fs ++ tail command operation))

pub build_payload-IsFrame :
    (command operation : ℕ) (fs : List Field)
    → command < 128
    → operation < 2
    → All IsField fs
    → lookup 72 7 (fs ++ tail command operation) ≡ some command
    → (build_payload command operation fs ≡ ok (payload_of command operation fs))
      × IsFrame (fs ++ tail command operation) command (payload_of command operation fs)
unfolding build_payload
build_payload-IsFrame command operation fs c o h e =
    let fits : All IsField (fs ++ tail command operation) =
      All-append IsField fs (tail command operation) h ((c, omega arith), ((o, omega arith), tt)) in
    let (built, frame) = framed-IsFrame (fs ++ tail command operation) command fits e in
    (
      rw (lt→ltb operation 2 o)
          (ap finalize (or_fields-or_masked 0 fs (tail command operation) h) ∙ built),
      frame,
    )

abbrev pub header_of : Bytes → ℕ → ℕ → Header
header_of payload on operation = record {
  packet = from_bytes_little payload;
  on = truthy on;
  operation = operation;
}

pub decode_header_ok :
    (command operation on : ℕ) (fs : List Field) (payload : Bytes)
    → IsFrame fs command payload
    → lookup 8 1 fs ≡ some on
    → lookup 79 1 fs ≡ some operation
    → decode_header payload command ≡ some (header_of payload on operation)
unfolding decode_header
decode_header_ok command operation on fs payload frame e1 e2 =
    rw
      (frame.header, frame.read 8 1 on (omega arith) e1, frame.read 79 1 operation (omega arith) e2)
      refl
