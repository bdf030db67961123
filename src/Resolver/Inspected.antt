-- ===== src/Resolver/Inspected.antt =====
-- Scanning the discovered advertisements (custom_components/amaran_ble/resolver.py).
use mathlib.Core.List.{Memᴰ}
use mathlib.Core.List.Memᴰ.{head, tail}
use ha_amaran_ble.Base.{
  ◌≡◌, refl, ap, arith, Bool, true, false, Option, none, some, List, [], ◌∷◌, Result, ok,
}
use ha_amaran_ble.Base.Bytes.{Bytes}
use ha_amaran_ble.Base.Exec.{Ensures, Ensures-then_do, Ensures-weaken, Ensures-total}
use ha_amaran_ble.Network.Identity.{ProxyIdentityMatch}
use ha_amaran_ble.Resolver.{Text, text_Eq, ServiceInfo, Bluetooth, is_in}
use ha_amaran_ble.Resolver.Candidates.{
  Scan, proxy_data, is_foreign, examine, unless_unsafe, inspect, inspect_all,
}
use ha_amaran_ble.Resolver.Scan.{IsSound, Inspected, judged-Inspected, AllInspected, after_first}

module _ {Device : Type 0} (casefold : Text → Text) (bluetooth : Bluetooth Device)
    (identity : Bytes → Result (Option ProxyIdentityMatch))
    (total : (octets : Bytes)
      → (match : Option ProxyIdentityMatch) × (identity octets ≡ ok match)) where
  pub examine-Inspected :
      (hint : Text) (info : ServiceInfo) (carried : Option Bytes) (s : Scan Device)
      → Memᴰ info bluetooth.discovered_service_info
      → proxy_data casefold bluetooth identity (some info) ≡ carried
      → IsSound casefold bluetooth identity s
      → Ensures
          (λ _. Inspected casefold bluetooth identity info s)
          (λ _. ⊥)
          (examine casefold bluetooth identity hint info carried s)
  examine-Inspected hint info none s m e h = (
    h,
    λ k e. e,
    λ foreign. ground (arith, ap (is_foreign casefold bluetooth identity) e, foreign),
  )
  examine-Inspected hint info (some octets) s m e h =
      Ensures-total (identity octets) _ _ _ s (total octets) (λ match own.
        judged-Inspected casefold bluetooth identity hint info match s m octets e own h)

  pub unless_unsafe-Inspected :
      (hint : Text) (info : ServiceInfo) (unsafe : Bool) (s : Scan Device)
      → is_in (casefold info.address) s.unsafe_addresses ≡ unsafe
      → Memᴰ info bluetooth.discovered_service_info
      → IsSound casefold bluetooth identity s
      → Ensures
          (λ _. Inspected casefold bluetooth identity info s)
          (λ _. ⊥)
          (unless_unsafe casefold bluetooth identity unsafe
            (examine casefold bluetooth identity hint info
              (proxy_data casefold bluetooth identity (some info)))
            s)
  unless_unsafe-Inspected hint info true s e m h =
      (h, λ k e. e, λ foreign. h.unsafe (casefold info.address) e)
  unless_unsafe-Inspected hint info false s e m h =
      examine-Inspected hint info (proxy_data casefold bluetooth identity (some info)) s m refl h

  pub inspect-Inspected :
      (hint : Text) (info : ServiceInfo) (s : Scan Device)
      → Memᴰ info bluetooth.discovered_service_info
      → IsSound casefold bluetooth identity s
      → Ensures
          (λ _. Inspected casefold bluetooth identity info s)
          (λ _. ⊥)
          (inspect casefold bluetooth identity hint info s)
  unfolding inspect
  inspect-Inspected hint info s m h =
      unless_unsafe-Inspected hint info (is_in (casefold info.address) s.unsafe_addresses) s refl m
        h

  pub inspect_all-AllInspected :
      (hint : Text) (infos : List ServiceInfo) (s : Scan Device)
      → ((info : ServiceInfo) → Memᴰ info infos → Memᴰ info bluetooth.discovered_service_info)
      → IsSound casefold bluetooth identity s
      → Ensures
          (λ _. AllInspected casefold bluetooth identity infos s)
          (λ _. ⊥)
          (inspect_all casefold bluetooth identity hint infos s)
  unfolding inspect_all
  inspect_all-AllInspected hint [] s m h = (h, λ k e. e, λ info none. elim none [ ])
  inspect_all-AllInspected hint (info ∷ rest) s m h =
      Ensures-then_do (inspect casefold bluetooth identity hint info s) _ _ _ _ _
        (inspect-Inspected hint info s (m info (head refl)) h) (λ s' t. t)
        (λ _ s' h'.
          Ensures-weaken (inspect_all casefold bluetooth identity hint rest s')
            (λ _. AllInspected casefold bluetooth identity rest s')
            (λ _. AllInspected casefold bluetooth identity (info ∷ rest) s) (λ _. ⊥)
            (λ _ s'' k. after_first casefold bluetooth identity info rest s s' s'' h' k)
            (inspect_all-AllInspected hint rest s' (λ other later. m other (tail later)) h'.0))
