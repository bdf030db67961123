-- ===== src/Resolver/Candidates.antt =====
-- `async_mesh_proxy_candidates` (custom_components/amaran_ble/resolver.py): the probe of the stored
-- addresses, the scan of the discovered advertisements, and the choice. The three collections that
-- the function fills are its state.
use ha_amaran_ble.Base.{
  ℕ, Bool, true, false, ◌||◌, not, Option, none, some, List, [], ◌∷◌, map, Result, ok, err,
  if◌then◌else◌,
}
use ha_amaran_ble.Base.Bytes.{Bytes}
use ha_amaran_ble.Base.Dict.{Dict, get, put, remove}
use ha_amaran_ble.Base.Exec.{Exec, lift, pure, modify, gets, ◌>>=◌, ◌>>◌}
use ha_amaran_ble.Crypto.{Cipher}
use ha_amaran_ble.Network.Identity.{ProxyIdentityMatch, derive, proxy_identity_match}
use ha_amaran_ble.Resolver.{
  Text, text_Eq, mesh_proxy_service, ServiceInfo, Bluetooth, MeshProxyCandidate, RankedCandidate,
  is_in, outranks, sorted, values, same_address, service_data_of,
}

pub record Scan (Device : Type 0) : Type 0 where
  pub direct_by_address : Dict Text (MeshProxyCandidate Device)
  pub unsafe_addresses : List Text
  pub ranked_by_address : Dict Text (RankedCandidate Device)

abbrev pub is_some : {A : Type 0} → Option A → Bool
is_some none = false
is_some (some a) = true

-- `proxy_data is not None and ... is None`
abbrev pub is_foreign_match : Option ProxyIdentityMatch → Result Bool
is_foreign_match match = ok (not (is_some match))

abbrev pub then_ok : {A B : Type 0} → Result A → (A → Result B) → Result B
then_ok (err e) rest = err e
then_ok (ok a) rest = rest a

-- `proxy_identity_match` of the keys and the address, which stay the same.
module _ {Device : Type 0} (casefold : Text → Text) (bluetooth : Bluetooth Device)
    (identity : Bytes → Result (Option ProxyIdentityMatch)) where
  abbrev pub proxy_data : Option ServiceInfo → Option Bytes
  proxy_data info = service_data_of casefold info mesh_proxy_service

  -- The advertisement proves that the address belongs to another subnet.
  abbrev pub is_foreign : Option Bytes → Result Bool
  is_foreign none = ok false
  is_foreign (some octets) = then_ok (identity octets) is_foreign_match

  abbrev pub after_probe : Text → Bool → Option Device → Scan Device → Scan Device
  after_probe address true device s = record s {
    unsafe_addresses = casefold address ∷ s.unsafe_addresses;
  }
  after_probe address false none s = s
  after_probe address false (some device) s = record s {
    direct_by_address =
        put (casefold address) (record { address = address; ble_device = device })
          s.direct_by_address;
  }

  unfoldable pub probe : Text → Exec (Scan Device) (Unit {0})
  probe address = do
    foreign ← lift (is_foreign (proxy_data (bluetooth.last_service_info address)))
    modify (after_probe address foreign (bluetooth.ble_device_from_address address))

  unfoldable pub probe_all : List Text → Exec (Scan Device) (Unit {0})
  probe_all [] = pure tt
  probe_all (address ∷ rest) = do probe address; probe_all rest

  abbrev pub best :
      Option (RankedCandidate Device)
      → RankedCandidate Device
      → Text
      → Dict Text (RankedCandidate Device)
      → Dict Text (RankedCandidate Device)
  best none ranked normalized d = put normalized ranked d
  best (some previous) ranked normalized d =
      if outranks ranked previous then put normalized ranked d else d

  abbrev pub ranked_of : Text → ServiceInfo → ProxyIdentityMatch → Device → RankedCandidate Device
  ranked_of hint info match device = record {
    candidate = record { address = info.address; ble_device = device };
    match = match;
    is_hint = same_address casefold info.address hint;
    advertisement_time = info.time;
  }

  abbrev pub with_device :
      Text → ServiceInfo → ProxyIdentityMatch → Option Device → Scan Device → Scan Device
  with_device hint info match none s = s
  with_device hint info match (some device) s =
      let normalized = casefold info.address in
      record s {
        direct_by_address = remove normalized s.direct_by_address;
        ranked_by_address =
            best (get normalized s.ranked_by_address) (ranked_of hint info match device) normalized
              s.ranked_by_address;
      }

  abbrev pub dropped : Text → Scan Device → Scan Device
  dropped normalized s = record {
    direct_by_address = remove normalized s.direct_by_address;
    unsafe_addresses = normalized ∷ s.unsafe_addresses;
    ranked_by_address = remove normalized s.ranked_by_address;
  }

  abbrev pub is_candidate : Text → Scan Device → Bool
  is_candidate normalized s =
      is_some (get normalized s.direct_by_address) || is_some (get normalized s.ranked_by_address)

  abbrev pub judged : Text → ServiceInfo → Option ProxyIdentityMatch → Scan Device → Scan Device
  judged hint info none s =
      if is_candidate (casefold info.address) s then dropped (casefold info.address) s else s
  judged hint info (some match) s =
      with_device hint info match (bluetooth.ble_device_from_address info.address) s

  abbrev pub examine : Text → ServiceInfo → Option Bytes → Exec (Scan Device) (Unit {0})
  examine hint info none = pure tt
  examine hint info (some octets) = do
    match ← lift (identity octets)
    modify (judged hint info match)

  abbrev pub unless_unsafe : Bool → Exec (Scan Device) (Unit {0}) → Exec (Scan Device) (Unit {0})
  unless_unsafe true rest s = (ok tt, s)
  unless_unsafe false rest s = rest s

  unfoldable pub inspect : Text → ServiceInfo → Exec (Scan Device) (Unit {0})
  inspect hint info s =
      unless_unsafe (is_in (casefold info.address) s.unsafe_addresses)
        (examine hint info (proxy_data (some info))) s

  unfoldable pub inspect_all : Text → List ServiceInfo → Exec (Scan Device) (Unit {0})
  inspect_all hint [] = pure tt
  inspect_all hint (info ∷ rest) = do inspect hint info; inspect_all hint rest

  abbrev pub onto_routes :
      Option (MeshProxyCandidate Device)
      → List (MeshProxyCandidate Device)
      → List (MeshProxyCandidate Device)
  onto_routes none others = others
  onto_routes (some candidate) others = candidate ∷ others

  abbrev pub direct_routes :
      List Text → Dict Text (MeshProxyCandidate Device) → List (MeshProxyCandidate Device)
  direct_routes [] d = []
  direct_routes (address ∷ rest) d = onto_routes (get (casefold address) d) (direct_routes rest d)

  -- An authenticated route excludes those that are only stored.
  abbrev pub chosen :
      List Text
      → List (RankedCandidate Device)
      → Dict Text (MeshProxyCandidate Device)
      → List (MeshProxyCandidate Device)
  chosen known [] d = direct_routes known d
  chosen known (ranked ∷ rest) d = map (λ item. item.candidate) (ranked ∷ rest)

  abbrev pub known_addresses : Text → Option Text → List Text
  known_addresses stable none = stable ∷ []
  known_addresses stable (some transport) =
      if same_address casefold transport stable then stable ∷ [] else transport ∷ stable ∷ []

  -- `transport_address or stable_address`, where an empty text counts as absent.
  abbrev pub hint_of : Text → Option Text → Text
  hint_of stable none = stable
  hint_of stable (some []) = stable
  hint_of stable (some (point ∷ rest)) = point ∷ rest

  unfoldable pub mesh_proxy_candidates :
      Text → Option Text → Exec (Scan Device) (List (MeshProxyCandidate Device))
  mesh_proxy_candidates stable transport = do
    probe_all (known_addresses stable transport)
    inspect_all (hint_of stable transport) bluetooth.discovered_service_info
    s ← gets (λ (s : Scan Device). s)
    pure (
        chosen (known_addresses stable transport) (sorted (values s.ranked_by_address))
          s.direct_by_address)

abbrev pub nothing_found : {Device : Type 0} → Scan Device
nothing_found = record { direct_by_address = []; unsafe_addresses = []; ranked_by_address = [] }

unfoldable pub async_mesh_proxy_candidates :
    {Device : Type 0}
    → (Text → Text)
    → Bluetooth Device
    → Cipher
    → (Bytes → Bytes → Bytes)
    → Text
    → Bytes
    → ℕ
    → Option Text
    → Result (List (MeshProxyCandidate Device))
async_mesh_proxy_candidates casefold bluetooth cipher aes_cmac stable net_key unicast transport =
    (mesh_proxy_candidates casefold bluetooth
      (λ octets. proxy_identity_match cipher (derive aes_cmac net_key) octets unicast) stable
      transport nothing_found).0
