-- ===== src/Network/Identity.antt =====
-- The keys derived from a network key, and the identity tests of an advertisement
-- (custom_components/amaran_ble/amaranble/network.py, `NetworkKeys` and `ProxyIdentityMatch`).
use ha_amaran_ble.Base.{
  ℕ, Bool, false, ◌&&◌, Option, none, some, [], ◌∷◌, ◌++◌, Result, ok, ◌>>=◌, ◌==◌, if◌then◌else◌,
  length, get_or, drop, replicate,
}
use ha_amaran_ble.Base.Bytes.{Bytes, slice, same_bytes, to_bytes_big}
use ha_amaran_ble.Crypto.{Cipher}
use ha_amaran_ble.Crypto.Derive.{s1, k1, k2, k3}

pub data ProxyIdentityMatch : Type 0 where
  network_id node_identity : ProxyIdentityMatch

-- The members of the `IntEnum`.
abbrev pub strength : ProxyIdentityMatch → ℕ
strength network_id = 1
strength node_identity = 2

pub record DerivedKeys : Type 0 where
  pub net_key : Bytes
  pub nid : ℕ
  pub encryption_key : Bytes
  pub privacy_key : Bytes
  pub subnet : Bytes
  pub identity_key : Bytes
  pub beacon_key : Bytes

-- b"nkik", b"nkbk" and b"id128\x01"; `subnet` is the field `network_id`.
unfoldable pub derive : (Bytes → Bytes → Bytes) → Bytes → DerivedKeys
derive aes_cmac net_key =
    let info = 0x69 ∷ 0x64 ∷ 0x31 ∷ 0x32 ∷ 0x38 ∷ 0x01 ∷ [] in
    let (nid, encryption_key, privacy_key) = k2 aes_cmac net_key (0 ∷ []) in
    record {
      net_key = net_key;
      nid = nid;
      encryption_key = encryption_key;
      privacy_key = privacy_key;
      subnet = k3 aes_cmac net_key;
      identity_key = k1 aes_cmac net_key (s1 aes_cmac (0x6E ∷ 0x6B ∷ 0x69 ∷ 0x6B ∷ [])) info;
      beacon_key = k1 aes_cmac net_key (s1 aes_cmac (0x6E ∷ 0x6B ∷ 0x62 ∷ 0x6B ∷ [])) info;
    }

abbrev pub is_node_identity : Bytes → Bool
is_node_identity service_data = (length service_data == 17) && (get_or service_data 0 0 == 0x01)

abbrev pub same_hash : Cipher → DerivedKeys → Bytes → ℕ → Result Bool
same_hash cipher keys service_data address = do
  octets ← to_bytes_big 2 address
  let block = replicate 6 0 ++ (slice 9 17 service_data ++ octets)
  ok (same_bytes (drop 8 (cipher.aes_ecb keys.identity_key block)) (slice 1 9 service_data))

unfoldable pub node_identity_matches : Cipher → DerivedKeys → Bytes → ℕ → Result Bool
node_identity_matches cipher keys service_data address =
    if is_node_identity service_data then same_hash cipher keys service_data address else ok false

unfoldable pub network_id_matches : DerivedKeys → Bytes → Bool
network_id_matches keys service_data =
    (length service_data == 9)
    && (get_or service_data 0 0 == 0x00)
    && same_bytes (slice 1 9 service_data) keys.subnet

unfoldable pub proxy_identity_match :
    Cipher → DerivedKeys → Bytes → ℕ → Result (Option ProxyIdentityMatch)
proxy_identity_match cipher keys service_data address = do
  matches ← node_identity_matches cipher keys service_data address
  ok (
      if matches
      then some node_identity
      else if network_id_matches keys service_data
      then some network_id
      else none)
