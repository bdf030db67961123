-- ===== src/Brightness/Laws.antt =====
-- A brightness survives the fixture, and small errors of the fixture do not show.
use ha_amaran_ble.Base.{ℕ, ◌+◌, ◌*◌, ◌≤◌, ◌<◌, ◌≡◌, true, some, ==_refl, arith}
use ha_amaran_ble.Brightness.{
  brightness_to_intensity, intensity_to_brightness, intensities_have_same_brightness,
}

-- What `brightness_to_intensity` gives: the exact value within a half.
intensity_near :
    (b : ℕ)
    → 1 ≤ b
    → (2 * (b * 1000) ≤ 510 * brightness_to_intensity b + 255)
      × (510 * brightness_to_intensity b ≤ 2 * (b * 1000) + 255)
unfolding brightness_to_intensity
intensity_near b h = ground arith

brightness_near :
    (i b : ℕ)
    → 1 ≤ b
    → b ≤ 255
    → 2 * (b * 1000) < 510 * i + 1000
    → 510 * i < 2 * (b * 1000) + 1000
    → intensity_to_brightness i ≡ b
unfolding intensity_to_brightness
brightness_near i b h k l m = ground arith

-- Each brightness of Home Assistant is sent as an intensity from 1 to 1000, and an applied
-- intensity at most one off is reported back as the same brightness and confirms the request.
pub intensity_to_brightness-brightness_to_intensity :
    (b applied : ℕ)
    → 1 ≤ b
    → b ≤ 255
    → applied ≤ brightness_to_intensity b + 1
    → brightness_to_intensity b ≤ applied + 1
    → (1 ≤ brightness_to_intensity b)
      × (brightness_to_intensity b ≤ 1000)
      × (intensity_to_brightness applied ≡ b)
      × (intensities_have_same_brightness (some applied) (some (brightness_to_intensity b)) ≡ true)
unfolding intensities_have_same_brightness
intensity_to_brightness-brightness_to_intensity b applied h k above below =
    let (least, most) = intensity_near b h in
    let exact : intensity_to_brightness (brightness_to_intensity b) ≡ b =
      brightness_near (brightness_to_intensity b) b h k (omega arith) (omega arith) in
    let near : intensity_to_brightness applied ≡ b =
      brightness_near applied b h k (omega arith) (omega arith) in
    (omega arith, omega arith, near, rw (near, exact) (==_refl b))
