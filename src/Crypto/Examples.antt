-- ===== src/Crypto/Examples.antt =====
-- Concrete nonces.
use ha_amaran_ble.Base.Bytes.{Bytes, to_bytes_big}
use ha_amaran_ble.Crypto.{
  network_nonce, nonce_application, nonce_device, proxy_nonce, transport_nonce,
}
use ha_amaran_ble.Base.{ℕ, ◌≡◌, refl, [], ◌∷◌, ok, ◌≢◌, ◌%◌}
use ha_amaran_ble.Crypto.Nonces.{network_nonce_injective, transport_nonce_injective, nonces_apart}

abbrev some_network_nonce : Bytes
some_network_nonce =
    0x00 ∷ 0x05 ∷ 0x01 ∷ 0x02 ∷ 0x03 ∷ 0x00 ∷ 0x01 ∷ 0 ∷ 0 ∷ 0x12 ∷ 0x34 ∷ 0x56 ∷ 0x78 ∷ []

abbrev some_proxy_nonce : Bytes
some_proxy_nonce =
    0x03 ∷ 0x00 ∷ 0x01 ∷ 0x02 ∷ 0x03 ∷ 0x00 ∷ 0x01 ∷ 0 ∷ 0 ∷ 0x12 ∷ 0x34 ∷ 0x56 ∷ 0x78 ∷ []

abbrev some_access_nonce : Bytes
some_access_nonce =
    0x01 ∷ 0x80 ∷ 0x01 ∷ 0x02 ∷ 0x03 ∷ 0x00 ∷ 0x01 ∷ 0x00 ∷ 0x02 ∷ 0x12 ∷ 0x34 ∷ 0x56 ∷ 0x78 ∷ []

abbrev some_device_nonce : Bytes
some_device_nonce =
    0x02 ∷ 0x80 ∷ 0x01 ∷ 0x02 ∷ 0x03 ∷ 0x00 ∷ 0x01 ∷ 0x00 ∷ 0x02 ∷ 0x12 ∷ 0x34 ∷ 0x56 ∷ 0x78 ∷ []

abbrev ttl_a : ℕ
ttl_a = 5

abbrev ttl_b : ℕ
ttl_b = 133

abbrev ctl : ℕ
ctl = 0

abbrev seq : ℕ
seq = 0x010203

abbrev src : ℕ
src = 1

abbrev dst : ℕ
dst = 2

abbrev iv : ℕ
iv = 0x12345678

-- The TTL's eighth bit is not in the nonce.
network_nonce_a : network_nonce ctl ttl_a seq src iv ≡ ok some_network_nonce
unfolding network_nonce to_bytes_big
network_nonce_a = refl

network_nonce_b : network_nonce ctl ttl_b seq src iv ≡ ok some_network_nonce
unfolding network_nonce to_bytes_big
network_nonce_b = refl

proxy_nonce_runs : proxy_nonce seq src iv ≡ ok some_proxy_nonce
unfolding proxy_nonce to_bytes_big
proxy_nonce_runs = refl

transport_nonce_runs : transport_nonce nonce_application 1 seq src dst iv ≡ ok some_access_nonce
unfolding transport_nonce to_bytes_big
transport_nonce_runs = refl

device_nonce_runs : transport_nonce nonce_device 1 seq src dst iv ≡ ok some_device_nonce
unfolding transport_nonce to_bytes_big
device_nonce_runs = refl

network_nonce_injective_example :
    (ctl ≡ ctl) × (ttl_a % 128 ≡ ttl_b % 128) × (seq ≡ seq) × (src ≡ src) × (iv ≡ iv)
network_nonce_injective_example =
    network_nonce_injective ctl ttl_a seq src iv ctl ttl_b seq src iv some_network_nonce
      network_nonce_a network_nonce_b

transport_nonce_injective_example :
    (nonce_application ≡ nonce_application)
    × (src % 2 ≡ src % 2)
    × (seq ≡ seq)
    × (src ≡ src)
    × (dst ≡ dst)
    × (iv ≡ iv)
transport_nonce_injective_example =
    transport_nonce_injective nonce_application src seq src dst iv nonce_application src seq src dst
      iv some_access_nonce transport_nonce_runs transport_nonce_runs

nonces_apart_example :
    (some_network_nonce ≢ some_proxy_nonce)
    × (some_network_nonce ≢ some_access_nonce)
    × (some_network_nonce ≢ some_device_nonce)
    × (some_proxy_nonce ≢ some_access_nonce)
    × (some_proxy_nonce ≢ some_device_nonce)
    × (some_access_nonce ≢ some_device_nonce)
nonces_apart_example =
    nonces_apart ctl ttl_a seq src iv seq src iv 1 seq src dst iv 1 seq src dst iv
      some_network_nonce some_proxy_nonce some_access_nonce some_device_nonce network_nonce_a
      proxy_nonce_runs transport_nonce_runs device_nonce_runs
