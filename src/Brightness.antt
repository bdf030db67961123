-- ===== src/Brightness.antt =====
-- Home Assistant's brightness and the fixture's intensity
-- (custom_components/amaran_ble/brightness.py). The float quotients are rounded as the exact
-- fractions are: over the fields' range the error of the two float operations crosses no half.
pub mod Laws
mod Examples
use ha_amaran_ble.Base.{
  ℕ, ◌+◌, ◌*◌, ◌/◌, ◌%◌, min, max, Bool, true, false, Option, none, some, ltb, ◌==◌, if◌then◌else◌,
}

abbrev pub ha_max_brightness : ℕ
ha_max_brightness = 255

abbrev pub max_intensity : ℕ
max_intensity = 1000

-- round(n / d): to the nearest integer, a tie to the even one.
abbrev pub round_fraction : ℕ → ℕ → ℕ
round_fraction n d =
    if ltb (2 * (n % d)) d
    then n / d
    else if ltb d (2 * (n % d))
    then n / d + 1
    else n / d + n / d % 2

unfoldable pub brightness_to_intensity : ℕ → ℕ
brightness_to_intensity brightness =
    max 1 (round_fraction (brightness * max_intensity) ha_max_brightness)

unfoldable pub intensity_to_brightness : ℕ → ℕ
intensity_to_brightness intensity =
    max 1 (min ha_max_brightness (round_fraction (intensity * ha_max_brightness) max_intensity))

unfoldable pub intensities_have_same_brightness : Option ℕ → Option ℕ → Bool
intensities_have_same_brightness none none = true
intensities_have_same_brightness none (some expected) = false
intensities_have_same_brightness (some actual) none = false
intensities_have_same_brightness (some actual) (some expected) =
    intensity_to_brightness actual == intensity_to_brightness expected
