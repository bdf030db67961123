-- ===== src/Resolver/Safe.antt =====
-- No route is returned that an advertisement proves to belong to another subnet
-- (custom_components/amaran_ble/resolver.py, `async_mesh_proxy_candidates`).
use ha_amaran_ble.Base.{
  ℕ, ◌≡◌, refl, sym, ◌∙◌, ap, arith, Bool, false, Bool-cases, inl, inr, Option, none, some, List,
  [], ◌∷◌, All, map, Result, ok, err, ◌⊎◌, ◌<◌, ◌^◌, ◌>>=◌,
}
use ha_amaran_ble.Base.Bytes.{Bytes, to_bytes_big, big_endian, to_bytes_big_ok}
use ha_amaran_ble.Base.Dict.{get}
use ha_amaran_ble.Base.Exec.{Ensures, Ensures-then_do}
use ha_amaran_ble.Crypto.{Cipher}
use ha_amaran_ble.Network.Identity.{
  ProxyIdentityMatch, DerivedKeys, derive, is_node_identity, node_identity_matches,
  proxy_identity_match,
}
use ha_amaran_ble.Resolver.{
  Text, text_Eq, Bluetooth, MeshProxyCandidate, RankedCandidate, sorted, values,
}
use ha_amaran_ble.Resolver.Candidates.{
  Scan, probe_all, inspect_all, onto_routes, direct_routes, chosen, known_addresses, hint_of,
  mesh_proxy_candidates, nothing_found, async_mesh_proxy_candidates,
}
use ha_amaran_ble.Resolver.Dicts.{sorted-All, values-All}
use ha_amaran_ble.Resolver.Inspected.{inspect_all-AllInspected}
use ha_amaran_ble.Resolver.Probed.{probe_known}
use ha_amaran_ble.Resolver.Scan.{IsAnnounced, IsStored, AllInspected}

module _ {Device : Type 0} (casefold : Text → Text) (bluetooth : Bluetooth Device)
    (identity : Bytes → Result (Option ProxyIdentityMatch))
    (total : (octets : Bytes)
      → (match : Option ProxyIdentityMatch) × (identity octets ≡ ok match)) where
  onto_routes-All :
      (P : MeshProxyCandidate Device → Type 0) (route : Option (MeshProxyCandidate Device))
      (others : List (MeshProxyCandidate Device))
      → ((c : MeshProxyCandidate Device) → route ≡ some c → P c)
      → All P others
      → All P (onto_routes casefold bluetooth identity route others)
  onto_routes-All P none others k h = h
  onto_routes-All P (some c) others k h = (k c refl, h)

  -- A stored route that is left has no discovered advertisement against it.
  direct-IsStored :
      (address : Text) (c : MeshProxyCandidate Device) (s s' : Scan Device)
      → AllInspected casefold bluetooth identity bluetooth.discovered_service_info s s'
      → get (casefold address) s'.direct_by_address ≡ some c
      → IsStored casefold bluetooth identity c
  direct-IsStored address c s s' h e =
      let sound = h.0.direct (casefold address) c e in
      (
        sound.0,
        λ info m same foreign.
            let gone : get (casefold address) s'.direct_by_address ≡ none =
              ap (λ i. get i s'.direct_by_address) (sym (same ∙ sound.1)) ∙ h.2 info m foreign in
            ground (arith, gone, e),
      )

  direct_routes-All :
      (known : List Text) (s s' : Scan Device)
      → AllInspected casefold bluetooth identity bluetooth.discovered_service_info s s'
      → All
          (IsStored casefold bluetooth identity)
          (direct_routes casefold bluetooth identity known s'.direct_by_address)
  direct_routes-All [] s s' h = tt
  direct_routes-All (address ∷ rest) s s' h =
      onto_routes-All (IsStored casefold bluetooth identity)
        (get (casefold address) s'.direct_by_address) _ (λ c e. direct-IsStored address c s s' h e)
        (direct_routes-All rest s s' h)

  map_candidate-All :
      (items : List (RankedCandidate Device))
      → All (λ r. IsAnnounced casefold bluetooth identity r.candidate) items
      → All (IsAnnounced casefold bluetooth identity) (map (λ item. item.candidate) items)
  map_candidate-All [] h = tt
  map_candidate-All (r ∷ rest) h = (h.0, map_candidate-All rest h.1)

  chosen-All :
      (known : List Text) (items : List (RankedCandidate Device)) (s s' : Scan Device)
      → All (λ r. IsAnnounced casefold bluetooth identity r.candidate) items
      → AllInspected casefold bluetooth identity bluetooth.discovered_service_info s s'
      → All
          (IsAnnounced casefold bluetooth identity)
          (chosen casefold bluetooth identity known items s'.direct_by_address)
        ⊎ All
            (IsStored casefold bluetooth identity)
            (chosen casefold bluetooth identity known items s'.direct_by_address)
  chosen-All known [] s s' a h = inr (direct_routes-All known s s' h)
  chosen-All known (r ∷ rest) s s' a h = inl (map_candidate-All (r ∷ rest) a)

  pub mesh_proxy_candidates-All :
      (stable : Text) (transport : Option Text)
      → Ensures
          (λ routes _.
            All (IsAnnounced casefold bluetooth identity) routes
            ⊎ All (IsStored casefold bluetooth identity) routes)
          (λ _. ⊥)
          (mesh_proxy_candidates casefold bluetooth identity stable transport nothing_found)
  unfolding mesh_proxy_candidates
  mesh_proxy_candidates-All stable transport =
      let known = known_addresses casefold bluetooth identity stable transport in
      let hint = hint_of casefold bluetooth identity stable transport in
      Ensures-then_do (probe_all casefold bluetooth identity known nothing_found) _ _ _ _ _
        (probe_known casefold bluetooth identity total stable transport) (λ s t. t)
        (λ _ s h.
          Ensures-then_do
            (inspect_all casefold bluetooth identity hint bluetooth.discovered_service_info s) _ _ _
            _ _
            (inspect_all-AllInspected casefold bluetooth identity total hint
              bluetooth.discovered_service_info s (λ i m. m) h)
            (λ s' t. t)
            (λ _ s' k.
              chosen-All known (sorted (values s'.ranked_by_address)) s s'
                (sorted-All (λ r. IsAnnounced casefold bluetooth identity r.candidate)
                  (values s'.ranked_by_address)
                  (values-All (λ r. IsAnnounced casefold bluetooth identity r.candidate)
                    s'.ranked_by_address k.0.ranked))
                k))

then_total :
    {A B : Type 0} (r : Result A) (rest : A → B)
    → (a : A) × (r ≡ ok a)
    → (b : B) × ((r >>= λ a. ok (rest a)) ≡ ok b)
then_total r rest t = (rest t.0, ap (λ r. r >>= λ a. ok (rest a)) t.1)

-- Only an address of more than 16 bits raises.
node_total :
    (cipher : Cipher) (keys : DerivedKeys) (octets : Bytes) (unicast : ℕ)
    → unicast < 256 ^ 2
    → (b : Bool) × (node_identity_matches cipher keys octets unicast ≡ ok b)
unfolding node_identity_matches
node_total cipher keys octets unicast h = elim (Bool-cases (is_node_identity octets)) [
  | inl node ↦
      rw node
        (then_total (to_bytes_big 2 unicast) _ (big_endian 2 unicast, to_bytes_big_ok 2 unicast h))
  | inr other ↦ rw other (false, refl)
]

identity_total :
    (cipher : Cipher) (keys : DerivedKeys) (unicast : ℕ) (octets : Bytes)
    → unicast < 256 ^ 2
    → (match : Option ProxyIdentityMatch) × (proxy_identity_match cipher keys octets unicast
        ≡ ok match)
unfolding proxy_identity_match
identity_total cipher keys unicast octets h =
    then_total (node_identity_matches cipher keys octets unicast) _
      (node_total cipher keys octets unicast h)

-- What is said of the routes that are returned, where the call returns.
abbrev pub AllSafe :
    {Device : Type 0}
    → (Text → Text)
    → Bluetooth Device
    → (Bytes → Result (Option ProxyIdentityMatch))
    → Result (List (MeshProxyCandidate Device))
    → Type 0
AllSafe casefold bluetooth identity (err e) = ⊥
AllSafe casefold bluetooth identity (ok routes) =
    All (IsAnnounced casefold bluetooth identity) routes
    ⊎ All (IsStored casefold bluetooth identity) routes

returned-AllSafe :
    {Device : Type 0} (casefold : Text → Text) (bluetooth : Bluetooth Device)
    (identity : Bytes → Result (Option ProxyIdentityMatch))
    (out : Result (List (MeshProxyCandidate Device)) × Scan Device)
    → Ensures
        (λ routes _.
          All (IsAnnounced casefold bluetooth identity) routes
          ⊎ All (IsStored casefold bluetooth identity) routes)
        (λ _. ⊥)
        out
    → AllSafe casefold bluetooth identity out.0
returned-AllSafe casefold bluetooth identity (ok routes, s) h = h
returned-AllSafe casefold bluetooth identity (err e, s) h = h

-- For a unicast address of 16 bits the resolver returns, and its routes are of one kind. Either each
-- comes from a discovered advertisement of that address which proves the node or its subnet, or each
-- is a stored address of which neither the last advertisement nor any discovered one proves another
-- subnet. In both cases the device is the one that the Bluetooth interface gives for the address.
pub async_mesh_proxy_candidates-AllSafe :
    {Device : Type 0} (casefold : Text → Text) (bluetooth : Bluetooth Device) (cipher : Cipher)
    (aes_cmac : Bytes → Bytes → Bytes) (stable : Text) (net_key : Bytes) (unicast : ℕ)
    (transport : Option Text)
    → unicast < 256 ^ 2
    → AllSafe casefold bluetooth
        (λ octets. proxy_identity_match cipher (derive aes_cmac net_key) octets unicast)
        (async_mesh_proxy_candidates casefold bluetooth cipher aes_cmac stable net_key unicast
          transport)
unfolding async_mesh_proxy_candidates
async_mesh_proxy_candidates-AllSafe casefold bluetooth cipher aes_cmac stable net_key unicast
      transport h =
    let identity : Bytes → Result (Option ProxyIdentityMatch) =
      λ octets. proxy_identity_match cipher (derive aes_cmac net_key) octets unicast in
    returned-AllSafe casefold bluetooth identity
      (mesh_proxy_candidates casefold bluetooth identity stable transport nothing_found)
      (mesh_proxy_candidates-All casefold bluetooth identity
        (λ octets. identity_total cipher (derive aes_cmac net_key) unicast octets h) stable
        transport)
