-- ===== src/Pending/Examples.antt =====
-- A record that is saved, and one whose write is lost.
use ha_amaran_ble.Base.{◌≡◌, refl, some, none, [], ◌∷◌, err, storage_error}
use ha_amaran_ble.Base.Dict.{put}
use ha_amaran_ble.Base.Exec.{Ensures}
use ha_amaran_ble.Resolver.{Text}
use ha_amaran_ble.Sequence.Stores.{written, lost}
use ha_amaran_ble.Pending.{Saved, get_pending, save_pending, remove_pending}
use ha_amaran_ble.Pending.Durable.{SameOthers, pending_durable}

abbrev saved : Saved
saved = some ((9 ∷ [], 1 ∷ []) ∷ [])

abbrev as_is : Text → Text
as_is text = text

pending_durable_example :
    Ensures
      (λ _ after.
        (get_pending as_is (7 ∷ []) after ≡ some (2 ∷ [])) × SameOthers as_is (7 ∷ []) saved after)
      (λ after. after ≡ saved)
      (save_pending as_is written (7 ∷ []) (2 ∷ []) saved)
    × Ensures
        (λ _ after.
          (get_pending as_is (7 ∷ []) after ≡ none) × SameOthers as_is (7 ∷ []) saved after)
        (λ after. after ≡ saved)
        (remove_pending as_is written (7 ∷ []) saved)
pending_durable_example = pending_durable as_is written (7 ∷ []) (2 ∷ []) saved

lost_save : save_pending as_is lost (7 ∷ []) (2 ∷ []) saved ≡ (err storage_error, saved)
unfolding save_pending put
lost_save = refl
