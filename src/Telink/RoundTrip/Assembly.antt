-- ===== src/Telink/RoundTrip/Assembly.antt =====
-- One effect packet, assembled from the fields of its layout.
use ha_amaran_ble.Base.{
  ◌≡◌, refl, ap, ◌∙◌, true, false, some, List, [], ◌∷◌, ◌++◌, All, ok, arith, get_elem?,
}
use ha_amaran_ble.Base.Bytes.{Bytes}
use ha_amaran_ble.Packet.{Field, field}
use ha_amaran_ble.Packet.Fields.{IsField, lookup}
use ha_amaran_ble.Packet.Header.{IsFrame}
use ha_amaran_ble.Telink.{
  SystemEffect, off, effect_id, build_payload, effect_values, EffectArguments, cmd_system_effect,
}
use ha_amaran_ble.Telink.Effects.{effect, effect_off, layout_fields, EffectState, state_with}
use ha_amaran_ble.Telink.Decode.{decode_layout, decode_effect, effects_by_id}
use ha_amaran_ble.Telink.RoundTrip.{tail, payload_of, build_payload-IsFrame, get_bits-IsFrame}
use ha_amaran_ble.Telink.RoundTrip.Layouts.{common, Carries}

abbrev pub Goal : SystemEffect → EffectArguments → EffectState → Type 0
Goal e a state =
    (payload : Bytes) × (effect e a ≡ ok payload) × (decode_effect payload ≡ some state)

-- From the fields of one effect and what its layout reads.
pub from_layout :
    (e : SystemEffect) (a : EffectArguments) (fs : List Field) (state : EffectState)
    → effect e a
      ≡ build_payload cmd_system_effect (common e (layout_fields e (effect_values e a))) true
    → layout_fields e (effect_values e a) ≡ fs
    → All IsField (common e fs)
    → (lookup 72 7 (common e fs ++ tail 7 true) ≡ some 7)
      × (lookup 64 8 (common e fs ++ tail 7 true) ≡ some (effect_id e))
      × (lookup 8 1 (common e fs ++ tail 7 true) ≡ some 1)
    → get_elem? effects_by_id (effect_id e) ≡ some e
    → ((payload : Bytes) → Carries e fs payload → decode_layout e payload true ≡ some state)
    → Goal e a state
unfolding decode_effect
from_layout e a fs state built_as fields fits (at_command, at_id, at_on) by_id decoded =
    let (built, frame) = build_payload-IsFrame 7 (common e fs) true (omega arith) fits at_command in
    let payload = payload_of 7 (common e fs) true in
    (
      payload,
      built_as ∙ ap (λ gs. build_payload cmd_system_effect (common e gs) true) fields ∙ built,
      decode_ok payload frame,
    )
  where
    decode_ok : (payload : Bytes) → Carries e fs payload → decode_effect payload ≡ some state
    decode_ok payload frame =
        rw
          (
            frame.header,
            get_bits-IsFrame (common e fs ++ tail 7 true) 7 payload 64 8 (effect_id e) frame
                (omega arith) at_id,
            by_id,
            get_bits-IsFrame (common e fs ++ tail 7 true) 7 payload 8 1 1 frame (omega arith) at_on,
          )
          (decoded payload frame)

pub decode-effect_off :
    (payload : Bytes) × (effect_off ≡ ok payload)
    × (decode_effect payload ≡ some (state_with false off 0 0))
unfolding effect_off decode_effect
decode-effect_off =
    let fs : List Field = field 15 64 8 ∷ [] in
    let (built, frame) =
      build_payload-IsFrame 7 fs true (omega arith) ((omega arith, omega arith), tt) refl in
    (payload_of 7 fs true, built, decode_ok (payload_of 7 fs true) frame)
  where
    decode_ok :
        (payload : Bytes)
        → IsFrame (field 15 64 8 ∷ tail 7 true) 7 payload
        → decode_effect payload ≡ some (state_with false off 0 0)
    decode_ok payload frame =
        rw
          (
            frame.header,
            get_bits-IsFrame (field 15 64 8 ∷ tail 7 true) 7 payload 64 8 15 frame (omega arith)
                refl,
          )
          refl
