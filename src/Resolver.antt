-- ===== src/Resolver.antt =====
-- The routes to a provisioned node (custom_components/amaran_ble/resolver.py). Home Assistant's
-- Bluetooth interface is a record of what its three lookups answer during the callback; `casefold`
-- and the device type are parameters too. A text is the list of its code points.
pub mod Candidates
pub mod Dicts
pub mod Scan
pub mod Inspected
pub mod Probed
pub mod Safe
mod Examples
use ha_amaran_ble.Base.{
  ℕ, Bool, true, false, ◌&&◌, ◌||◌, not, Option, none, some, List, [], ◌∷◌, Result, ok, ◌==◌, ltb,
  if◌then◌else◌, bool_to_nat,
}
use ha_amaran_ble.Base.Bytes.{Bytes, same_bytes, same_bytes_iff}
use ha_amaran_ble.Base.Dict.{Dict, Eq}
use ha_amaran_ble.Network.Identity.{ProxyIdentityMatch, strength}

abbrev pub Text : Type 0
Text = List ℕ

instance abbrev pub text_Eq : Eq Text
text_Eq = record { beq = same_bytes; beq_iff = same_bytes_iff }

-- "00001828-0000-1000-8000-00805f9b34fb"
abbrev pub mesh_proxy_service : Text
mesh_proxy_service =
    48 ∷ 48 ∷ 48 ∷ 48 ∷ 49 ∷ 56 ∷ 50 ∷ 56 ∷ 45 ∷ 48 ∷ 48 ∷ 48 ∷ 48 ∷ 45 ∷ 49 ∷ 48 ∷ 48 ∷ 48 ∷ 45
    ∷ 56 ∷ 48 ∷ 48 ∷ 48 ∷ 45 ∷ 48 ∷ 48 ∷ 56 ∷ 48 ∷ 53 ∷ 102 ∷ 57 ∷ 98 ∷ 51 ∷ 52 ∷ 102 ∷ 98 ∷ []

-- `BluetoothServiceInfoBleak`; the time is on a monotonic clock.
pub record ServiceInfo : Type 0 where
  pub address : Text
  pub service_data : Dict Text Bytes
  pub time : ℕ

pub record Bluetooth (Device : Type 0) : Type 0 where
  pub last_service_info : Text → Option ServiceInfo
  pub ble_device_from_address : Text → Option Device
  pub discovered_service_info : List ServiceInfo

pub record MeshProxyCandidate (Device : Type 0) : Type 0 where
  pub address : Text
  pub ble_device : Device

pub record RankedCandidate (Device : Type 0) : Type 0 where
  pub candidate : MeshProxyCandidate Device
  pub match : ProxyIdentityMatch
  pub is_hint : Bool
  pub advertisement_time : ℕ

abbrev pub is_in : Text → List Text → Bool
is_in x [] = false
is_in x (y ∷ rest) = same_bytes x y || is_in x rest

-- `>` on the tuples of hint, time and match.
unfoldable pub outranks : {Device : Type 0} → RankedCandidate Device → RankedCandidate Device → Bool
outranks a b =
    if not (bool_to_nat a.is_hint == bool_to_nat b.is_hint)
    then a.is_hint
    else if not (a.advertisement_time == b.advertisement_time)
    then ltb b.advertisement_time a.advertisement_time
    else ltb (strength b.match) (strength a.match)

-- `sorted(..., reverse=True)`, which keeps the order of equals.
abbrev pub insert :
    {Device : Type 0}
    → RankedCandidate Device
    → List (RankedCandidate Device)
    → List (RankedCandidate Device)
insert r [] = r ∷ []
insert r (x ∷ rest) = let later = insert r rest in if outranks x r then x ∷ later else r ∷ x ∷ rest

unfoldable pub sorted :
    {Device : Type 0} → List (RankedCandidate Device) → List (RankedCandidate Device)
sorted [] = []
sorted (x ∷ rest) = insert x (sorted rest)

abbrev pub values : {A : Type 0} → Dict Text A → List A
values [] = []
values ((key, value) ∷ rest) = value ∷ values rest

module _ (casefold : Text → Text) where
  unfoldable pub same_address : Text → Text → Bool
  same_address left right = same_bytes (casefold left) (casefold right)

  abbrev pub first_data : Text → Dict Text Bytes → Option Bytes
  first_data wanted [] = none
  first_data wanted ((uuid, octets) ∷ rest) =
      if same_bytes (casefold uuid) wanted then some octets else first_data wanted rest

  unfoldable pub service_data_of : Option ServiceInfo → Text → Option Bytes
  service_data_of none service_uuid = none
  service_data_of (some info) service_uuid = first_data (casefold service_uuid) info.service_data
