-- ===== src/Crypto/Nonces.antt =====
-- The 13-byte nonces of custom_components/amaran_ble/amaranble/crypto.py, and why no two differ
-- only in what they stand for.
use ha_amaran_ble.Base.{
  ℕ, ◌+◌, ◌*◌, ◌%◌, ◌^◌, ◌≤◌, ◌<◌, ◌≡◌, ap, ◌∙◌, sym, ◌∷◌, ◌++◌, ok, arith, lt→ltb, ◌≢◌, get_or,
}
use ha_amaran_ble.Base.Bits.{shl, low_bits, or_law, op_fields}
use ha_amaran_ble.Base.Bytes.{Bytes, big_endian, to_bytes_big, to_bytes_big_ok}
use ha_amaran_ble.Crypto.{
  nonce_network, nonce_application, nonce_device, nonce_proxy, ctl_ttl, network_nonce, proxy_nonce,
  transport_nonce,
}

abbrev pub network_nonce_bytes : ℕ → ℕ → ℕ → ℕ → ℕ → Bytes
network_nonce_bytes ctl ttl seq src iv_index =
    nonce_network
    ∷ ctl_ttl ctl ttl
    ∷ (big_endian 3 seq ++ (big_endian 2 src ++ (0 ∷ 0 ∷ big_endian 4 iv_index)))

abbrev pub proxy_nonce_bytes : ℕ → ℕ → ℕ → Bytes
proxy_nonce_bytes seq src iv_index =
    nonce_proxy ∷ 0 ∷ (big_endian 3 seq ++ (big_endian 2 src ++ (0 ∷ 0 ∷ big_endian 4 iv_index)))

abbrev pub transport_nonce_bytes : ℕ → ℕ → ℕ → ℕ → ℕ → ℕ → Bytes
transport_nonce_bytes nonce_type szmic seq src dst iv_index =
    nonce_type
    ∷ shl (low_bits szmic 1) 7
    ∷ (big_endian 3 seq ++ (big_endian 2 src ++ (big_endian 2 dst ++ big_endian 4 iv_index)))

pub ctl_ttl_sum : (ctl ttl : ℕ) → ctl_ttl ctl ttl ≡ ctl * 128 + ttl % 128
ctl_ttl_sum ctl ttl = op_fields or_law 7 ctl (low_bits ttl 7) (omega arith)

pub network_nonce_ok :
    (ctl ttl seq src iv_index : ℕ)
    → ctl ≤ 1
    → seq < 2 ^ 24
    → src < 2 ^ 16
    → iv_index < 2 ^ 32
    → network_nonce ctl ttl seq src iv_index ≡ ok (network_nonce_bytes ctl ttl seq src iv_index)
unfolding network_nonce
network_nonce_ok ctl ttl seq src iv hc hs ha hi = rw (
  lt→ltb (ctl_ttl ctl ttl) 256 (omega (arith, ctl_ttl_sum ctl ttl)),
  to_bytes_big_ok 3 seq (omega arith),
  to_bytes_big_ok 2 src (omega arith),
  to_bytes_big_ok 4 iv (omega arith),
)

pub proxy_nonce_ok :
    (seq src iv_index : ℕ)
    → seq < 2 ^ 24
    → src < 2 ^ 16
    → iv_index < 2 ^ 32
    → proxy_nonce seq src iv_index ≡ ok (proxy_nonce_bytes seq src iv_index)
unfolding proxy_nonce
proxy_nonce_ok seq src iv hs ha hi = rw (
  to_bytes_big_ok 3 seq (omega arith),
  to_bytes_big_ok 2 src (omega arith),
  to_bytes_big_ok 4 iv (omega arith),
)

pub transport_nonce_ok :
    (nonce_type szmic seq src dst iv_index : ℕ)
    → nonce_type < 256
    → seq < 2 ^ 24
    → src < 2 ^ 16
    → dst < 2 ^ 16
    → iv_index < 2 ^ 32
    → transport_nonce nonce_type szmic seq src dst iv_index
      ≡ ok (transport_nonce_bytes nonce_type szmic seq src dst iv_index)
unfolding transport_nonce
transport_nonce_ok t szmic seq src dst iv ht hs ha hd hi = rw (
  lt→ltb t 256 ht,
  to_bytes_big_ok 3 seq (omega arith),
  to_bytes_big_ok 2 src (omega arith),
  to_bytes_big_ok 2 dst (omega arith),
  to_bytes_big_ok 4 iv (omega arith),
)

network_nonce_inv :
    (ctl ttl seq src iv_index : ℕ) (n : Bytes)
    → network_nonce ctl ttl seq src iv_index ≡ ok n
    → (ctl ≤ 1) × (seq < 2 ^ 24) × (src < 2 ^ 16) × (iv_index < 2 ^ 32)
unfolding network_nonce to_bytes_big
network_nonce_inv ctl ttl seq src iv n h = ground (arith, ctl_ttl_sum ctl ttl)

transport_nonce_inv :
    (nonce_type szmic seq src dst iv_index : ℕ) (n : Bytes)
    → transport_nonce nonce_type szmic seq src dst iv_index ≡ ok n
    → (nonce_type < 256) × (seq < 2 ^ 24) × (src < 2 ^ 16) × (dst < 2 ^ 16) × (iv_index < 2 ^ 32)
unfolding transport_nonce to_bytes_big
transport_nonce_inv t szmic seq src dst iv n h = ground arith

-- Field by field, two equal nonces come from equal fields.
network_bytes_injective :
    (ctl ttl seq src iv ctl' ttl' seq' src' iv' : ℕ)
    → (ctl ≤ 1) × (seq < 2 ^ 24) × (src < 2 ^ 16) × (iv < 2 ^ 32)
    → (ctl' ≤ 1) × (seq' < 2 ^ 24) × (src' < 2 ^ 16) × (iv' < 2 ^ 32)
    → network_nonce_bytes ctl ttl seq src iv ≡ network_nonce_bytes ctl' ttl' seq' src' iv'
    → (ctl ≡ ctl') × (ttl % 128 ≡ ttl' % 128) × (seq ≡ seq') × (src ≡ src') × (iv ≡ iv')
network_bytes_injective ctl ttl seq src iv ctl' ttl' seq' src' iv' h h' e =
    let at = λ (k : ℕ). ap (λ (n : Bytes). get_or n k 0) e in
    omega (
      arith,
      ctl_ttl_sum ctl ttl,
      ctl_ttl_sum ctl' ttl',
      at 1,
      at 2,
      at 3,
      at 4,
      at 5,
      at 6,
      at 9,
      at 10,
      at 11,
      at 12,
    )

transport_bytes_injective :
    (t szmic seq src dst iv t' szmic' seq' src' dst' iv' : ℕ)
    → (t < 256) × (seq < 2 ^ 24) × (src < 2 ^ 16) × (dst < 2 ^ 16) × (iv < 2 ^ 32)
    → (t' < 256) × (seq' < 2 ^ 24) × (src' < 2 ^ 16) × (dst' < 2 ^ 16) × (iv' < 2 ^ 32)
    → transport_nonce_bytes t szmic seq src dst iv
      ≡ transport_nonce_bytes t' szmic' seq' src' dst' iv'
    → (t ≡ t') × (szmic % 2 ≡ szmic' % 2) × (seq ≡ seq') × (src ≡ src') × (dst ≡ dst') × (iv ≡ iv')
transport_bytes_injective t szmic seq src dst iv t' szmic' seq' src' dst' iv' h h' e =
    let at = λ (k : ℕ). ap (λ (n : Bytes). get_or n k 0) e in
    omega (arith, at 0, at 1, at 2, at 3, at 4, at 5, at 6, at 7, at 8, at 9, at 10, at 11, at 12)

network_nonce_value :
    (ctl ttl seq src iv : ℕ) (n : Bytes)
    → network_nonce ctl ttl seq src iv ≡ ok n
    → n ≡ network_nonce_bytes ctl ttl seq src iv
network_nonce_value ctl ttl seq src iv n h =
    let (hc, hs, ha, hi) = network_nonce_inv ctl ttl seq src iv n h in
    cc (network_nonce_ok ctl ttl seq src iv hc hs ha hi)

transport_nonce_value :
    (t szmic seq src dst iv : ℕ) (n : Bytes)
    → transport_nonce t szmic seq src dst iv ≡ ok n
    → n ≡ transport_nonce_bytes t szmic seq src dst iv
transport_nonce_value t szmic seq src dst iv n h =
    let (ht, hs, ha, hd, hi) = transport_nonce_inv t szmic seq src dst iv n h in
    cc (transport_nonce_ok t szmic seq src dst iv ht hs ha hd hi)

-- Two network PDUs with one nonce have the same CTL, TTL, sequence number, source and IV Index:
-- with fresh sequence numbers no network nonce is used twice.
pub network_nonce_injective :
    (ctl ttl seq src iv ctl' ttl' seq' src' iv' : ℕ) (n : Bytes)
    → network_nonce ctl ttl seq src iv ≡ ok n
    → network_nonce ctl' ttl' seq' src' iv' ≡ ok n
    → (ctl ≡ ctl') × (ttl % 128 ≡ ttl' % 128) × (seq ≡ seq') × (src ≡ src') × (iv ≡ iv')
network_nonce_injective ctl ttl seq src iv ctl' ttl' seq' src' iv' n e e' =
    network_bytes_injective ctl ttl seq src iv ctl' ttl' seq' src' iv'
      (network_nonce_inv ctl ttl seq src iv n e) (network_nonce_inv ctl' ttl' seq' src' iv' n e')
      (sym (network_nonce_value ctl ttl seq src iv n e)
        ∙ network_nonce_value ctl' ttl' seq' src' iv' n e')

-- Two access payloads with one nonce have the same key type, MIC size, sequence number, source,
-- destination and IV Index.
pub transport_nonce_injective :
    (t szmic seq src dst iv t' szmic' seq' src' dst' iv' : ℕ) (n : Bytes)
    → transport_nonce t szmic seq src dst iv ≡ ok n
    → transport_nonce t' szmic' seq' src' dst' iv' ≡ ok n
    → (t ≡ t') × (szmic % 2 ≡ szmic' % 2) × (seq ≡ seq') × (src ≡ src') × (dst ≡ dst') × (iv ≡ iv')
transport_nonce_injective t szmic seq src dst iv t' szmic' seq' src' dst' iv' n e e' =
    transport_bytes_injective t szmic seq src dst iv t' szmic' seq' src' dst' iv'
      (transport_nonce_inv t szmic seq src dst iv n e)
      (transport_nonce_inv t' szmic' seq' src' dst' iv' n e')
      (sym (transport_nonce_value t szmic seq src dst iv n e)
        ∙ transport_nonce_value t' szmic' seq' src' dst' iv' n e')

proxy_nonce_type :
    (seq src iv : ℕ) (n : Bytes) → proxy_nonce seq src iv ≡ ok n → get_or n 0 0 ≡ nonce_proxy
unfolding proxy_nonce to_bytes_big
proxy_nonce_type seq src iv n h = ground arith

-- The four layers never share a nonce: no two of a network, a proxy, an application and a device
-- nonce are equal, whatever their other inputs.
pub nonces_apart :
    (ctl ttl seq src iv seq' src' iv' szmic seq_a src_a dst iv_a szmic' seq_d src_d dst' iv_d : ℕ)
    (n p a d : Bytes)
    → network_nonce ctl ttl seq src iv ≡ ok n
    → proxy_nonce seq' src' iv' ≡ ok p
    → transport_nonce nonce_application szmic seq_a src_a dst iv_a ≡ ok a
    → transport_nonce nonce_device szmic' seq_d src_d dst' iv_d ≡ ok d
    → (n ≢ p) × (n ≢ a) × (n ≢ d) × (p ≢ a) × (p ≢ d) × (a ≢ d)
nonces_apart ctl ttl seq src iv seq' src' iv' szmic seq_a src_a dst iv_a szmic' seq_d src_d dst'
      iv_d n p a d en ep ea ed =
    let first = λ (b : Bytes). get_or b 0 0 in
    let hn : first n ≡ nonce_network = ap first (network_nonce_value ctl ttl seq src iv n en) in
    let hp : first p ≡ nonce_proxy = proxy_nonce_type seq' src' iv' p ep in
    let ha : first a ≡ nonce_application =
      ap first (transport_nonce_value nonce_application szmic seq_a src_a dst iv_a a ea) in
    let hd : first d ≡ nonce_device =
      ap first (transport_nonce_value nonce_device szmic' seq_d src_d dst' iv_d d ed) in
    (
      λ e. omega (arith, ap first e, hn, hp),
      λ e. omega (arith, ap first e, hn, ha),
      λ e. omega (arith, ap first e, hn, hd),
      λ e. omega (arith, ap first e, hp, ha),
      λ e. omega (arith, ap first e, hp, hd),
      λ e. omega (arith, ap first e, ha, hd),
    )
