-- ===== src/Resolver/Scan.antt =====
-- The invariant of the scan: what one stored address and one advertisement do to it
-- (custom_components/amaran_ble/resolver.py).
use mathlib.Core.List.{Memᴰ}
use mathlib.Core.List.Memᴰ
use ha_amaran_ble.Base.{
  ◌≡◌, refl, sym, ◌∙◌, ap, arith, Bool, true, false, Bool-cases, inl, inr, List, ◌∷◌, Option, none,
  some, Result, ok,
}
use ha_amaran_ble.Base.Bytes.{Bytes}
use ha_amaran_ble.Base.Dict.{Dict, get, remove}
use ha_amaran_ble.Network.Identity.{ProxyIdentityMatch}
use ha_amaran_ble.Resolver.{
  Text, text_Eq, ServiceInfo, Bluetooth, MeshProxyCandidate, RankedCandidate, is_in, outranks,
}
use ha_amaran_ble.Resolver.Candidates.{
  Scan, then_ok, is_foreign_match, proxy_data, is_foreign, best, ranked_of, with_device, dropped,
  is_candidate, judged,
}
use ha_amaran_ble.Resolver.Dicts.{
  AllValues, get-remove-some, neither-none, put-AllValues, remove-AllValues, remove-none,
  remove-same, remove-unsafe,
}

module _ {Device : Type 0} (casefold : Text → Text) (bluetooth : Bluetooth Device)
    (identity : Bytes → Result (Option ProxyIdentityMatch)) where
  -- A current advertisement from this address proves the node or its subnet.
  abbrev pub IsAnnounced : MeshProxyCandidate Device → Type 0
  IsAnnounced c =
      (info : ServiceInfo) × Memᴰ info bluetooth.discovered_service_info
      × (info.address ≡ c.address)
      × ((octets : Bytes) × (proxy_data casefold bluetooth identity (some info) ≡ some octets)
          × ((match : ProxyIdentityMatch) × (identity octets ≡ ok (some match))))
      × (bluetooth.ble_device_from_address c.address ≡ some c.ble_device)

  abbrev pub Foreign : Option ServiceInfo → Result Bool
  Foreign info =
      is_foreign casefold bluetooth identity (proxy_data casefold bluetooth identity info)

  -- The last advertisement of the address does not prove another subnet.
  abbrev pub IsProbed : MeshProxyCandidate Device → Type 0
  IsProbed c =
      (Foreign (bluetooth.last_service_info c.address) ≡ ok false)
      × (bluetooth.ble_device_from_address c.address ≡ some c.ble_device)

  -- Nor does any discovered one.
  abbrev pub IsStored : MeshProxyCandidate Device → Type 0
  IsStored c =
      IsProbed c
      × ((info : ServiceInfo)
          → Memᴰ info bluetooth.discovered_service_info
          → casefold info.address ≡ casefold c.address
          → Foreign (some info) ≡ ok true
          → ⊥)

  abbrev pub DirectOk : Dict Text (MeshProxyCandidate Device) → Type 0
  DirectOk d =
      (k : Text) (c : MeshProxyCandidate Device)
      → get k d ≡ some c
      → IsProbed c × (casefold c.address ≡ k)

  pub record IsSound (s : Scan Device) : Type 0 where
    pub direct : DirectOk s.direct_by_address
    pub unsafe : (k : Text) → is_in k s.unsafe_addresses ≡ true → get k s.direct_by_address ≡ none
    pub ranked : AllValues (λ r. IsAnnounced r.candidate) s.ranked_by_address

  abbrev pub Shrinks : Scan Device → Scan Device → Type 0
  Shrinks s s' = (k : Text) → get k s.direct_by_address ≡ none → get k s'.direct_by_address ≡ none

  abbrev pub Clears : ServiceInfo → Scan Device → Type 0
  Clears info s =
      Foreign (some info) ≡ ok true → get (casefold info.address) s.direct_by_address ≡ none

  abbrev pub Inspected : ServiceInfo → Scan Device → Scan Device → Type 0
  Inspected info s s' = IsSound s' × Shrinks s s' × Clears info s'

  pub remove-DirectOk :
      (k : Text) (d : Dict Text (MeshProxyCandidate Device)) → DirectOk d → DirectOk (remove k d)
  remove-DirectOk k d h j c e = h j c (get-remove-some k j c d e)

  pub best-AllValues :
      (previous : Option (RankedCandidate Device)) (r : RankedCandidate Device) (k : Text)
      (d : Dict Text (RankedCandidate Device))
      → IsAnnounced r.candidate
      → AllValues (λ r. IsAnnounced r.candidate) d
      → AllValues (λ r. IsAnnounced r.candidate) (best casefold bluetooth identity previous r k d)
  best-AllValues none r k d p h = put-AllValues (λ r. IsAnnounced r.candidate) k r d p h
  best-AllValues (some previous) r k d p h = elim (Bool-cases (outranks r previous)) [
    | inl above ↦ rw above (put-AllValues (λ r. IsAnnounced r.candidate) k r d p h)
    | inr below ↦ rw below h
  ]

  pub own_not_foreign :
      {B : Type 0} (info : ServiceInfo) (octets : Bytes) (match : ProxyIdentityMatch)
      → proxy_data casefold bluetooth identity (some info) ≡ some octets
      → identity octets ≡ ok (some match)
      → Foreign (some info) ≡ ok true
      → B
  own_not_foreign info octets match carried own foreign = absurd (
      let clean : Foreign (some info) ≡ ok false =
        ap (is_foreign casefold bluetooth identity) carried
        ∙ ap (λ r. then_ok r is_foreign_match) own in
      ground (arith, clean, foreign))

  pub with_device-Inspected :
      (hint : Text) (info : ServiceInfo) (match : ProxyIdentityMatch) (device : Option Device)
      (s : Scan Device)
      → bluetooth.ble_device_from_address info.address ≡ device
      → Memᴰ info bluetooth.discovered_service_info
      → (octets : Bytes) → proxy_data casefold bluetooth identity (some info) ≡ some octets
      → identity octets ≡ ok (some match)
      → IsSound s
      → Inspected info s (with_device casefold bluetooth identity hint info match device s)
  with_device-Inspected hint info match none s found m octets carried own h =
      (h, λ k e. e, λ foreign. own_not_foreign info octets match carried own foreign)
  with_device-Inspected hint info match (some device) s found m octets carried own h =
      let normalized = casefold info.address in
      (
        record {
          direct = remove-DirectOk normalized s.direct_by_address h.direct;
          unsafe = λ k e. remove-none normalized k s.direct_by_address (h.unsafe k e);
          ranked =
              best-AllValues (get normalized s.ranked_by_address)
                (ranked_of casefold bluetooth identity hint info match device) normalized
                s.ranked_by_address (info, m, refl, (octets, carried, (match, own)), found)
                h.ranked;
        },
        λ k e. remove-none normalized k s.direct_by_address e,
        λ foreign. remove-same normalized s.direct_by_address,
      )

  -- An advertisement for another subnet takes its address out of the stored routes for good.
  pub dropped-Inspected :
      (info : ServiceInfo) (s : Scan Device)
      → IsSound s
      → Inspected info s (dropped casefold bluetooth identity (casefold info.address) s)
  dropped-Inspected info s h =
      let normalized = casefold info.address in
      (
        record {
          direct = remove-DirectOk normalized s.direct_by_address h.direct;
          unsafe = λ k e.
              remove-unsafe normalized k s.unsafe_addresses s.direct_by_address e (h.unsafe k);
          ranked =
              remove-AllValues (λ r. IsAnnounced r.candidate) normalized s.ranked_by_address
                h.ranked;
        },
        λ k e. remove-none normalized k s.direct_by_address e,
        λ foreign. remove-same normalized s.direct_by_address,
      )

  pub judged-Inspected :
      (hint : Text) (info : ServiceInfo) (match : Option ProxyIdentityMatch) (s : Scan Device)
      → Memᴰ info bluetooth.discovered_service_info
      → (octets : Bytes) → proxy_data casefold bluetooth identity (some info) ≡ some octets
      → identity octets ≡ ok match
      → IsSound s
      → Inspected info s (judged casefold bluetooth identity hint info match s)
  judged-Inspected hint info (some match) s m octets carried own h =
      with_device-Inspected hint info match (bluetooth.ble_device_from_address info.address) s refl
        m octets carried own h
  judged-Inspected hint info none s m octets carried own h =
      elim (Bool-cases (is_candidate casefold bluetooth identity (casefold info.address) s)) [
        | inl candidate ↦ rw candidate (dropped-Inspected info s h)
        | inr unknown ↦ rw unknown (
          h,
          λ k e. e,
          λ foreign.
              neither-none (get (casefold info.address) s.direct_by_address)
                (get (casefold info.address) s.ranked_by_address) unknown,
        )
      ]

  abbrev pub AllInspected : List ServiceInfo → Scan Device → Scan Device → Type 0
  AllInspected infos s s' =
      IsSound s' × Shrinks s s' × ((info : ServiceInfo) → Memᴰ info infos → Clears info s')

  pub after_first :
      (info : ServiceInfo) (rest : List ServiceInfo) (s s' s'' : Scan Device)
      → Inspected info s s'
      → AllInspected rest s' s''
      → AllInspected (info ∷ rest) s s''
  after_first info rest s s' s'' h k = (
    k.0,
    λ key e. k.1 key (h.1 key e),
    λ other m foreign. elim (Memᴰ.cases_cons m) [
      | inl same ↦ k.1 (casefold other.address) (
          ap (λ (i : ServiceInfo). get (casefold i.address) s'.direct_by_address) same
          ∙ h.2 (ap (λ i. Foreign (some i)) (sym same) ∙ foreign))
      | inr later ↦ k.2 other later foreign
    ],
  )
