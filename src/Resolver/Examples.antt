-- ===== src/Resolver/Examples.antt =====
-- A fixture that rotated to another address.
use ha_amaran_ble.Base.{ℕ, ◌≡◌, refl, none, some, [], ◌∷◌, replicate, ok, arith}
use ha_amaran_ble.Base.Bytes.{Bytes, to_bytes_big}
use ha_amaran_ble.Base.Dict.{get, put, remove}
use ha_amaran_ble.Crypto.Plain.{plain_cipher}
use ha_amaran_ble.Network.Identity.{
  derive, proxy_identity_match, node_identity_matches, network_id_matches,
}
use ha_amaran_ble.Crypto.Derive.{k1, k2, k3, s1}
use ha_amaran_ble.Resolver.{
  Text, ServiceInfo, Bluetooth, mesh_proxy_service, outranks, sorted, same_address, service_data_of,
}
use ha_amaran_ble.Resolver.Candidates.{
  async_mesh_proxy_candidates, mesh_proxy_candidates, probe, probe_all, inspect, inspect_all,
}
use ha_amaran_ble.Resolver.Safe.{AllSafe, async_mesh_proxy_candidates-AllSafe}

-- Its network identifier is of zeros, as the sample CMAC is.
abbrev advertisement : Text → Bytes → ServiceInfo
advertisement address identifier = record {
  address = address;
  service_data = (mesh_proxy_service, identifier) ∷ [];
  time = 5;
}

abbrev bluetooth : Bluetooth ℕ
bluetooth = record {
  last_service_info = λ address. none;
  ble_device_from_address = λ address. some 1;
  discovered_service_info =
      advertisement (7 ∷ []) (0 ∷ replicate 8 0) ∷ advertisement (8 ∷ []) (0 ∷ replicate 8 1) ∷ [];
}

abbrev cmac : Bytes → Bytes → Bytes
cmac key message = replicate 16 0

async_mesh_proxy_candidates-AllSafe_example :
    AllSafe
      (λ text. text)
      bluetooth
      (λ octets. proxy_identity_match plain_cipher (derive cmac (replicate 16 9)) octets 5)
      (async_mesh_proxy_candidates
        (λ text. text)
        bluetooth
        plain_cipher
        cmac
        (8 ∷ [])
        (replicate 16 9)
        5
        none)
async_mesh_proxy_candidates-AllSafe_example =
    async_mesh_proxy_candidates-AllSafe (λ text. text) bluetooth plain_cipher cmac (8 ∷ [])
      (replicate 16 9) 5 none (omega arith)

-- The stored address is foreign by now, and the new one is the only route.
rotated :
    async_mesh_proxy_candidates
      (λ text. text)
      bluetooth
      plain_cipher
      cmac
      (8 ∷ [])
      (replicate 16 9)
      5
      none
    ≡ ok (record { address = 7 ∷ []; ble_device = 1 } ∷ [])
unfolding async_mesh_proxy_candidates mesh_proxy_candidates probe probe_all inspect inspect_all
    outranks sorted same_address service_data_of derive proxy_identity_match node_identity_matches
    network_id_matches k1 k2 k3 s1 get put remove to_bytes_big
rotated = refl
