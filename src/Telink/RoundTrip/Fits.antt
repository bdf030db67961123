-- ===== src/Telink/RoundTrip/Fits.antt =====
-- The fields of each effect layout hold the clamped values.
use ha_amaran_ble.Base.{ℕ, ◌^◌, ◌≤◌, ◌<◌, List, All, arith, bool_to_nat}
use ha_amaran_ble.Packet.{Field}
use ha_amaran_ble.Packet.Fields.{IsField}
use ha_amaran_ble.Telink.{SystemEffect, effect_id, EffectValues, cct_value, gm_low}
use ha_amaran_ble.Telink.Effects.{
  upper_fields, mode_fields, colour_fields, paparazzi_fields, lightning_fields, welding_colour,
  welding_white, faulty_colour, faulty_white, strobe_colour, strobe_white,
}
use ha_amaran_ble.Telink.RoundTrip.{bool_bit-lt, IsInRange}
use ha_amaran_ble.Telink.RoundTrip.Layouts.{
  common, cct_value-lt, high_cct-lt, gm_low-lt, gm_high-lt,
}

pub effect_id-lt : (e : SystemEffect) → effect_id e < 256
effect_id-lt e = ground arith

pub common_fits : (e : SystemEffect) (fs : List Field) → All IsField fs → All IsField (common e fs)
common_fits e fs h = ((omega arith, omega arith), ((effect_id-lt e, omega arith), h))

-- Clamped values fit the fields of every layout.
module _ (e : SystemEffect) (v : EffectValues) (range : IsInRange e v) where
  pub upper_fits : All IsField (upper_fields v)
  upper_fits =
      ((omega (arith, range.rate), omega arith), ((omega (arith, range.value), omega arith), tt))

  pub mode_fits : (mode : ℕ) → mode ≤ 1 → All IsField (mode_fields v mode)
  mode_fits mode h = (
    (omega (arith, range.value), omega arith),
    ((omega (arith, range.rate), omega arith), ((omega arith, omega arith), tt)),
  )

  pub colour_fits : All IsField (colour_fields v)
  colour_fits = (
    (omega (arith, range.saturation), omega arith),
    ((omega (arith, range.hue), omega arith), mode_fits v.mode range.mode),
  )

  pub variant_fits : (w : ℕ) → 8 ≤ 2 ^ w → v.variant < 2 ^ w
  variant_fits w h = omega (arith, range.variant)

  pub trigger_fits : v.trigger < 4
  trigger_fits = omega (arith, range.trigger)

  pub cct_fits : cct_value v < 1024
  cct_fits = cct_value-lt v range.tens

  pub gm_fits : gm_low v < 128
  gm_fits = gm_low-lt v range.shift range.coarse

  pub flag_fits : bool_to_nat v.exact < 2
  flag_fits = bool_bit-lt v.exact

  pub paparazzi_fits : All IsField (paparazzi_fields v)
  paparazzi_fits = (
    (flag_fits, omega arith),
    (
      (gm_high-lt v, omega arith),
      (
        (gm_fits, omega arith),
        ((high_cct-lt v, omega arith), ((cct_fits, omega arith), upper_fits)),
      ),
    ),
  )

  pub lightning_fits : v.speed ≤ 10 → All IsField (lightning_fields v)
  lightning_fits h = (
    (flag_fits, omega arith),
    (
      (gm_high-lt v, omega arith),
      (
        (omega arith, omega arith),
        (
          (trigger_fits, omega arith),
          (
            (gm_fits, omega arith),
            ((high_cct-lt v, omega arith), ((cct_fits, omega arith), upper_fits)),
          ),
        ),
      ),
    ),
  )

  pub welding_colour_fits : All IsField (welding_colour v)
  welding_colour_fits =
      ((omega (arith, range.speed), omega arith), ((trigger_fits, omega arith), colour_fits))

  pub welding_white_fits : All IsField (welding_white v)
  welding_white_fits = (
    (high_cct-lt v, omega arith),
    (
      (flag_fits, omega arith),
      (
        (gm_high-lt v, omega arith),
        (
          (omega (arith, range.speed), omega arith),
          (
            (trigger_fits, omega arith),
            ((gm_fits, omega arith), ((cct_fits, omega arith), mode_fits v.mode range.mode)),
          ),
        ),
      ),
    ),
  )

  pub faulty_colour_fits : v.speed ≤ 10 → All IsField (faulty_colour v)
  faulty_colour_fits h = ((omega arith, omega arith), ((trigger_fits, omega arith), colour_fits))

  pub faulty_white_fits : v.speed ≤ 10 → All IsField (faulty_white v)
  faulty_white_fits h = (
    (flag_fits, omega arith),
    (
      (gm_high-lt v, omega arith),
      (
        (omega arith, omega arith),
        (
          (trigger_fits, omega arith),
          (
            (gm_fits, omega arith),
            ((high_cct-lt v, omega arith), ((cct_fits, omega arith), mode_fits 0 (omega arith))),
          ),
        ),
      ),
    ),
  )

  pub strobe_colour_fits : All IsField (strobe_colour v)
  strobe_colour_fits = ((trigger_fits, omega arith), colour_fits)

  pub strobe_white_fits : All IsField (strobe_white v)
  strobe_white_fits = (
    (flag_fits, omega arith),
    (
      (gm_high-lt v, omega arith),
      (
        (trigger_fits, omega arith),
        (
          (gm_fits, omega arith),
          ((high_cct-lt v, omega arith), ((cct_fits, omega arith), mode_fits 0 (omega arith))),
        ),
      ),
    ),
  )
