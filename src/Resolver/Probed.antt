-- ===== src/Resolver/Probed.antt =====
-- Probing the stored addresses (custom_components/amaran_ble/resolver.py).
use ha_amaran_ble.Base.{
  ◌≡◌, refl, sym, ◌∙◌, ap, arith, Bool, true, false, Bool-cases, inl, inr, not, Option, none, some,
  [], ◌∷◌, Result, ok,
}
use ha_amaran_ble.Base.Bytes.{Bytes, same_bytes, same_bytes_iff}
use ha_amaran_ble.Base.Dict.{get, put}
use ha_amaran_ble.Base.Exec.{Ensures, Ensures-then_do, Ensures-total}
use ha_amaran_ble.Network.Identity.{ProxyIdentityMatch}
use ha_amaran_ble.Resolver.{Text, text_Eq, Bluetooth, MeshProxyCandidate, is_in, same_address}
use ha_amaran_ble.Resolver.Candidates.{
  Scan, is_some, then_ok, is_foreign_match, proxy_data, is_foreign, probe, probe_all,
  known_addresses, nothing_found, after_probe,
}
use ha_amaran_ble.Resolver.Dicts.{get-put-some, put-unsafe}
use ha_amaran_ble.Resolver.Scan.{Foreign, IsSound}

module _ {Device : Type 0} (casefold : Text → Text) (bluetooth : Bluetooth Device)
    (identity : Bytes → Result (Option ProxyIdentityMatch)) where
  abbrev pub NewTo : Text → Scan Device → Type 0
  NewTo address s = is_in (casefold address) s.unsafe_addresses ≡ false

  pub after_probe-IsSound :
      (address : Text) (foreign : Bool) (device : Option Device) (s : Scan Device)
      → Foreign casefold bluetooth identity (bluetooth.last_service_info address) ≡ ok foreign
      → bluetooth.ble_device_from_address address ≡ device
      → NewTo address s
      → get (casefold address) s.direct_by_address ≡ none
      → IsSound casefold bluetooth identity s
      → IsSound casefold bluetooth identity
          (after_probe casefold bluetooth identity address foreign device s)
  after_probe-IsSound address true device s own found new none_there h = record {
    direct = h.direct;
    unsafe = λ k e. elim (Bool-cases (same_bytes k (casefold address))) [
      | inl same ↦
          ap (λ j. get j s.direct_by_address) ((same_bytes_iff k (casefold address)).0 same)
          ∙ none_there
      | inr other ↦ h.unsafe k (ground (arith, e, other))
    ];
    ranked = h.ranked;
  }
  after_probe-IsSound address false none s own found new none_there h = h
  after_probe-IsSound address false (some device) s own found new none_there h = record {
    direct = λ k c e. elim (get-put-some (casefold address) k _ c s.direct_by_address e) [
      | inl same ↦ (
        (
          ap
                (λ (i : MeshProxyCandidate Device).
                  Foreign casefold bluetooth identity (bluetooth.last_service_info i.address))
                (sym same.1)
              ∙ own,
          ap (λ (i : MeshProxyCandidate Device). bluetooth.ble_device_from_address i.address)
                (sym same.1)
              ∙ found
              ∙ ap (λ (i : MeshProxyCandidate Device). some i.ble_device) same.1,
        ),
        ap (λ (i : MeshProxyCandidate Device). casefold i.address) (sym same.1) ∙ same.0,
      )
      | inr old ↦ h.direct k c old
    ];
    unsafe = λ k e.
        put-unsafe (casefold address) k (record { address = address; ble_device = device })
          s.unsafe_addresses s.direct_by_address e new (h.unsafe k e);
    ranked = h.ranked;
  }

  pub empty-IsSound : IsSound casefold bluetooth identity nothing_found
  unfolding get
  empty-IsSound = record {
    direct = λ k c e. absurd (ground arith);
    unsafe = λ k e. refl;
    ranked = tt;
  }

  -- After a probe, another address is still new.
  abbrev pub Untouched : Text → Scan Device → Type 0
  Untouched address s = NewTo address s × (get (casefold address) s.direct_by_address ≡ none)

  pub after_probe-Untouched :
      (address other : Text) (foreign : Bool) (device : Option Device)
      → same_bytes (casefold address) (casefold other) ≡ false
      → Untouched other
          (after_probe casefold bluetooth identity address foreign device nothing_found)
  unfolding get put
  after_probe-Untouched address other true device e = (
    ground (
      arith,
      same_bytes_iff (casefold address) (casefold other),
      same_bytes_iff (casefold other) (casefold address),
    ),
    refl,
  )
  after_probe-Untouched address other false none e = (refl, refl)
  after_probe-Untouched address other false (some device) e = (refl, rw e refl)

module _ {Device : Type 0} (casefold : Text → Text) (bluetooth : Bluetooth Device)
    (identity : Bytes → Result (Option ProxyIdentityMatch))
    (total : (octets : Bytes)
      → (match : Option ProxyIdentityMatch) × (identity octets ≡ ok match)) where
  foreign_total :
      (carried : Option Bytes)
      → (b : Bool) × (is_foreign casefold bluetooth identity carried ≡ ok b)
  foreign_total none = (false, refl)
  foreign_total (some octets) =
      (not (is_some (total octets).0), ap (λ r. then_ok r is_foreign_match) (total octets).1)

  probed_total :
      (address : Text)
      → (b : Bool) × (Foreign casefold bluetooth identity (bluetooth.last_service_info address)
          ≡ ok b)
  probed_total address =
      foreign_total (proxy_data casefold bluetooth identity (bluetooth.last_service_info address))

  probe-IsSound :
      (address : Text) (s : Scan Device)
      → Untouched casefold bluetooth identity address s
      → IsSound casefold bluetooth identity s
      → Ensures
          (λ _. IsSound casefold bluetooth identity)
          (λ _. ⊥)
          (probe casefold bluetooth identity address s)
  unfolding probe
  probe-IsSound address s new h =
      Ensures-total (Foreign casefold bluetooth identity (bluetooth.last_service_info address)) _ _
        _ s (probed_total address)
        (λ foreign own.
          after_probe-IsSound casefold bluetooth identity address foreign
            (bluetooth.ble_device_from_address address) s own refl new.0 new.1 h)

  probe-Untouched :
      (address other : Text)
      → same_bytes (casefold address) (casefold other) ≡ false
      → Ensures
          (λ _ s.
            IsSound casefold bluetooth identity s × Untouched casefold bluetooth identity other s)
          (λ _. ⊥)
          (probe casefold bluetooth identity address nothing_found)
  unfolding probe get
  probe-Untouched address other e =
      Ensures-total (Foreign casefold bluetooth identity (bluetooth.last_service_info address)) _ _
        _ nothing_found (probed_total address)
        (λ foreign own. (
          after_probe-IsSound casefold bluetooth identity address foreign
              (bluetooth.ble_device_from_address address) nothing_found own refl refl refl
              (empty-IsSound casefold bluetooth identity),
          after_probe-Untouched casefold bluetooth identity address other foreign
              (bluetooth.ble_device_from_address address) e,
        ))

  probe_stable :
      (stable : Text) (s : Scan Device)
      → Untouched casefold bluetooth identity stable s
      → IsSound casefold bluetooth identity s
      → Ensures
          (λ _. IsSound casefold bluetooth identity)
          (λ _. ⊥)
          (probe_all casefold bluetooth identity (stable ∷ []) s)
  unfolding probe_all
  probe_stable stable s new h =
      Ensures-then_do (probe casefold bluetooth identity stable s) _ _ _ _ _
        (probe-IsSound stable s new h) (λ s' t. t) (λ _ s' h'. h')

  pub probe_known :
      (stable : Text) (transport : Option Text)
      → Ensures
          (λ _. IsSound casefold bluetooth identity)
          (λ _. ⊥)
          (probe_all casefold bluetooth identity
            (known_addresses casefold bluetooth identity stable transport)
            nothing_found)
  unfolding probe_all same_address get
  probe_known stable none =
      probe_stable stable nothing_found (refl, refl) (empty-IsSound casefold bluetooth identity)
  probe_known stable (some transport) =
      elim (Bool-cases (same_bytes (casefold transport) (casefold stable))) [
        | inl same ↦ rw same (
            probe_stable stable nothing_found (refl, refl)
              (empty-IsSound casefold bluetooth identity))
        | inr other ↦ rw other (
            Ensures-then_do (probe casefold bluetooth identity transport nothing_found) _ _ _ _ _
              (probe-Untouched transport stable other) (λ s t. t)
              (λ _ s h. probe_stable stable s h.1 h.0))
      ]
