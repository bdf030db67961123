-- ===== src/Brightness/Examples.antt =====
-- The intensity 502 that an Ace 25x applies as 501.
use ha_amaran_ble.Base.{◌≤◌, ◌≡◌, refl, true, some, arith}
use ha_amaran_ble.Brightness.{
  brightness_to_intensity, intensity_to_brightness, intensities_have_same_brightness,
}
use ha_amaran_ble.Brightness.Laws.{intensity_to_brightness-brightness_to_intensity}

ace : brightness_to_intensity 128 ≡ 502
unfolding brightness_to_intensity
ace = refl

-- A tie goes to the even brightness.
tie : intensity_to_brightness 500 ≡ 128
unfolding intensity_to_brightness
tie = refl

intensity_to_brightness-brightness_to_intensity_example :
    (1 ≤ brightness_to_intensity 128)
    × (brightness_to_intensity 128 ≤ 1000)
    × (intensity_to_brightness 501 ≡ 128)
    × (intensities_have_same_brightness (some 501) (some (brightness_to_intensity 128)) ≡ true)
intensity_to_brightness-brightness_to_intensity_example =
    intensity_to_brightness-brightness_to_intensity 128 501 (omega arith) (omega arith)
      (omega (arith, ace)) (omega (arith, ace))
