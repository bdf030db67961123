-- ===== src/Telink/RoundTrip/Dispatch.antt =====
-- The dispatcher against the decoders
-- (custom_components/amaran_ble/amaranble/telink.py, `decode_report`).
use ha_amaran_ble.Base.{
  ◌⊎◌, ◌↔◌, ℕ, ◌≡◌, ◌∙◌, ap, Bool, false, not, ◌&&◌, ◌||◌, Option, none, some, if◌then◌else◌, ◌==◌,
  arith,
}
use ha_amaran_ble.Base.Bytes.{Bytes}
use ha_amaran_ble.Packet.{has_header}
use ha_amaran_ble.Telink.Decode.{decode_effect}
use ha_amaran_ble.Telink.Reports.{decode_boost, decode_fan}
use ha_amaran_ble.Telink.Status.{decode_status}
use ha_amaran_ble.Telink.Dispatch.{
  ProtocolReport, light, effect, boost, fan, power, version, version2, as_report, is_sound,
  command_of, decode_power, decode_version, decode_version2, decode_report,
}

has_header_lem :
    (payload : Bytes) (command : ℕ)
    → has_header payload command ≡ (is_sound payload && (command_of payload == command))
unfolding has_header
has_header_lem payload command = ground arith

decode_status-refuses :
    (payload : Bytes)
    → (is_sound payload && (command_of payload == 1 || command_of payload == 2)) ≡ false
    → decode_status payload ≡ none
unfolding decode_status
decode_status-refuses payload h = ground arith

guarded :
    {A : Type 0} (make : A → ProtocolReport) (payload : Bytes) (command : ℕ) (x : Option A)
    → (is_sound payload && (command_of payload == command)) ≡ false
    → as_report make (if has_header payload command then x else none) ≡ none
guarded make payload command x h =
    ap (λ t. as_report make (if t then x else none)) (has_header_lem payload command ∙ h)

-- One of the seven decoders reads this report from the payload.
abbrev pub Claims : Bytes → ℕ → ProtocolReport → Type 0
Claims payload protocol_version r =
    (as_report light (decode_status payload) ≡ some r)
    ⊎ ((as_report effect (decode_effect payload) ≡ some r)
        ⊎ ((as_report boost (decode_boost payload) ≡ some r)
            ⊎ ((as_report fan (decode_fan payload) ≡ some r)
                ⊎ ((as_report power (decode_power payload protocol_version) ≡ some r)
                    ⊎ ((as_report version (decode_version payload) ≡ some r)
                        ⊎ (as_report version2 (decode_version2 payload) ≡ some r))))))

claimed :
    (sound : Bool) (c : ℕ) (l e b f p v w : Option ProtocolReport) (r : ProtocolReport)
    → ((sound && (c == 1 || c == 2)) ≡ false → l ≡ none)
    → ((sound && (c == 7)) ≡ false → e ≡ none)
    → ((sound && (c == 70)) ≡ false → b ≡ none)
    → ((sound && (c == 9)) ≡ false → f ≡ none)
    → ((sound && (c == 10)) ≡ false → p ≡ none)
    → ((sound && (c == 0)) ≡ false → v ≡ none)
    → ((sound && (c == 37)) ≡ false → w ≡ none)
    → ((if not sound
          then none
          else if c == 1 || c == 2
          then l
          else if c == 7
          then e
          else if c == 70
          then b
          else if c == 9
          then f
          else if c == 10
          then p
          else if c == 0
          then v
          else if c == 37
          then w
          else none)
        ≡ some r)
      ↔ ((l ≡ some r)
          ⊎ ((e ≡ some r)
              ⊎ ((b ≡ some r) ⊎ ((f ≡ some r) ⊎ ((p ≡ some r) ⊎ ((v ≡ some r) ⊎ (w ≡ some r)))))))
claimed sound c l e b f p v w r hl he hb hf hp hv hw = (λ h. ground arith, λ h. ground arith)

-- The dispatcher returns a report exactly when one of the seven decoders reads that report from the
-- payload. So it loses nothing that a decoder accepts, and two decoders never read different reports
-- from one payload.
pub decode_report_iff :
    (payload : Bytes) (protocol_version : ℕ) (r : ProtocolReport)
    → (decode_report payload protocol_version ≡ some r) ↔ Claims payload protocol_version r
unfolding decode_report decode_power decode_version decode_version2 decode_effect decode_boost
    decode_fan
decode_report_iff payload protocol_version r =
    claimed (is_sound payload) (command_of payload) _ _ _ _ _ _ _ r
      (λ h. ap (as_report light) (decode_status-refuses payload h)) (guarded effect payload _ _)
      (guarded boost payload _ _) (guarded fan payload _ _) (guarded power payload _ _)
      (guarded version payload _ _) (guarded version2 payload _ _)
