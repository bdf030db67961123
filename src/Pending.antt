-- ===== src/Pending.antt =====
-- The recovery records of provisioning (custom_components/amaran_ble/pending.py) over Home
-- Assistant's store, of which a write either replaces the contents or, its failure being logged and
-- not raised, leaves them. A record is the text that is stored for it, and `upper` is a parameter.
pub mod Durable
mod Examples
use ha_amaran_ble.Base.{
  Bool, true, false, ◌&&◌, Option, none, some, [], ◌∷◌, Result, ok, err, storage_error,
  if◌then◌else◌,
}
use ha_amaran_ble.Base.Bytes.{same_bytes}
use ha_amaran_ble.Base.Dict.{Dict, get, put, remove}
use ha_amaran_ble.Base.Exec.{Exec}
use ha_amaran_ble.Resolver.{Text, text_Eq}
use ha_amaran_ble.Sequence.Stores.{Fate, written, lost}

abbrev pub Fixtures : Type 0
Fixtures = Dict Text Text

-- What `Store.async_load` returns: `none` before the first write and after a removal.
abbrev pub Saved : Type 0
Saved = Option Fixtures

abbrev pub fixtures_of : Saved → Fixtures
fixtures_of none = []
fixtures_of (some fixtures) = fixtures

-- `==` of the two mappings. The one that is saved keeps the order of the one that was loaded, so
-- that both are compared in their order.
abbrev pub same_fixtures : Fixtures → Fixtures → Bool
same_fixtures [] [] = true
same_fixtures ((a, r) ∷ rest) ((b, s) ∷ more) =
    let tails = same_fixtures rest more in (same_bytes a b && same_bytes r s) && tails
same_fixtures _ _ = false

abbrev pub same_saved : Saved → Fixtures → Bool
same_saved none expected = false
same_saved (some fixtures) expected = same_fixtures fixtures expected

abbrev pub save : Fate → Saved → Fixtures → Saved
save written saved expected = some expected
save lost saved expected = saved

-- The write, and the read-back that makes its failure visible.
abbrev pub save_verified : Fate → Fixtures → Exec Saved (Unit {0})
save_verified fate expected saved =
    let persisted = save fate saved expected in
    if same_saved persisted expected then (ok tt, persisted) else (err storage_error, persisted)

module _ (upper : Text → Text) where
  unfoldable pub get_pending : Text → Saved → Option Text
  get_pending address saved = get (upper address) (fixtures_of saved)

  unfoldable pub save_pending : Fate → Text → Text → Exec Saved (Unit {0})
  save_pending fate address stored saved =
      save_verified fate (put (upper address) stored (fixtures_of saved)) saved

  -- The last record takes the store with it; a removal that fails raises.
  abbrev pub save_remaining : Fate → Fixtures → Exec Saved (Unit {0})
  save_remaining written [] saved = (ok tt, none)
  save_remaining lost [] saved = (err storage_error, saved)
  save_remaining fate (fixture ∷ rest) saved = save_verified fate (fixture ∷ rest) saved

  abbrev pub remove_present : Fate → Text → Option Text → Exec Saved (Unit {0})
  remove_present fate address none saved = (ok tt, saved)
  remove_present fate address (some stored) saved =
      save_remaining fate (remove (upper address) (fixtures_of saved)) saved

  unfoldable pub remove_pending : Fate → Text → Exec Saved (Unit {0})
  remove_pending fate address saved =
      remove_present fate address (get (upper address) (fixtures_of saved)) saved
