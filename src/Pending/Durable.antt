-- ===== src/Pending/Durable.antt =====
-- The recovery records are a map that survives failed writes
-- (custom_components/amaran_ble/pending.py).
use ha_amaran_ble.Base.{
  ◌≡◌, ◌≢◌, refl, sym, ◌∙◌, ap, arith, true, false, Bool-cases, inl, inr, Option, none, some, [],
  ◌∷◌,
}
use ha_amaran_ble.Base.Bytes.{same_bytes, same_bytes_iff}
use ha_amaran_ble.Base.Dict.{get, put, remove, get-put, get-remove}
use ha_amaran_ble.Base.Exec.{Ensures, Ensures-weaken}
use ha_amaran_ble.Resolver.{Text, text_Eq}
use ha_amaran_ble.Sequence.Stores.{Fate, written, lost}
use ha_amaran_ble.Pending.{
  Fixtures, Saved, fixtures_of, same_fixtures, save_verified, get_pending, save_pending,
  save_remaining, remove_present, remove_pending,
}

same_fixtures_eq : (d e : Fixtures) → same_fixtures d e ≡ true → d ≡ e
same_fixtures_eq [] [] h = refl
same_fixtures_eq [] (y ∷ ys) h = absurd (ground arith)
same_fixtures_eq (x ∷ xs) [] h = absurd (ground arith)
same_fixtures_eq ((a, r) ∷ rest) ((b, s) ∷ more) h =
    let tails : rest ≡ more = same_fixtures_eq rest more (ground arith) in
    let keys : a ≡ b = (same_bytes_iff a b).0 (ground arith) in
    let records : r ≡ s = (same_bytes_iff r s).0 (ground arith) in
    λ i. (keys i, records i) ∷ tails i

same_fixtures_refl : (d : Fixtures) → same_fixtures d d ≡ true
same_fixtures_refl [] = refl
same_fixtures_refl ((a, r) ∷ rest) =
    rw ((same_bytes_iff a a).1 refl, (same_bytes_iff r r).1 refl, same_fixtures_refl rest) refl

-- Saved means readable; an error means that nothing changed.
save_verified_lem :
    (fate : Fate) (expected : Fixtures) (saved : Saved)
    → Ensures
        (λ _ after. fixtures_of after ≡ expected)
        (λ after. after ≡ saved)
        (save_verified fate expected saved)
save_verified_lem written expected saved = rw (same_fixtures_refl expected) refl
save_verified_lem lost expected none = refl
save_verified_lem lost expected (some fixtures) =
    elim (Bool-cases (same_fixtures fixtures expected)) [
      | inl same ↦ rw same (same_fixtures_eq fixtures expected same)
      | inr other ↦ rw other refl
    ]

module _ (upper : Text → Text) where
  -- The records of the other addresses.
  abbrev pub SameOthers : Text → Saved → Saved → Type 0
  SameOthers address saved after =
      (other : Text)
      → upper other ≢ upper address
      → get_pending upper other after ≡ get_pending upper other saved

  different :
      (address other : Text)
      → upper other ≢ upper address
      → same_bytes (upper address) (upper other) ≡ false
  different address other d = elim (Bool-cases (same_bytes (upper address) (upper other))) [
    | inl same ↦ absurd (d (sym ((same_bytes_iff (upper address) (upper other)).0 same)))
    | inr other_address ↦ other_address
  ]

  put_after :
      (address stored : Text) (saved after : Saved)
      → fixtures_of after ≡ put (upper address) stored (fixtures_of saved)
      → (get_pending upper address after ≡ some stored) × SameOthers address saved after
  unfolding get_pending
  put_after address stored saved after e = (
    ap (get (upper address)) e
        ∙ get-put (upper address) (upper address) stored (fixtures_of saved)
        ∙ rw ((same_bytes_iff (upper address) (upper address)).1 refl) refl,
    λ other d.
        ap (get (upper other)) e
        ∙ get-put (upper address) (upper other) stored (fixtures_of saved)
        ∙ rw (different address other d) refl,
  )

  remove_after :
      (address : Text) (saved after : Saved)
      → fixtures_of after ≡ remove (upper address) (fixtures_of saved)
      → (get_pending upper address after ≡ none) × SameOthers address saved after
  unfolding get_pending
  remove_after address saved after e = (
    ap (get (upper address)) e
        ∙ get-remove (upper address) (upper address) (fixtures_of saved)
        ∙ rw ((same_bytes_iff (upper address) (upper address)).1 refl) refl,
    λ other d.
        ap (get (upper other)) e
        ∙ get-remove (upper address) (upper other) (fixtures_of saved)
        ∙ rw (different address other d) refl,
  )

  save_remaining_lem :
      (fate : Fate) (fixtures : Fixtures) (saved : Saved)
      → Ensures
          (λ _ after. fixtures_of after ≡ fixtures)
          (λ after. after ≡ saved)
          (save_remaining upper fate fixtures saved)
  save_remaining_lem written [] saved = refl
  save_remaining_lem lost [] saved = refl
  save_remaining_lem fate (fixture ∷ rest) saved = save_verified_lem fate (fixture ∷ rest) saved

  remove_present_lem :
      (fate : Fate) (address : Text) (present : Option Text) (saved : Saved)
      → get (upper address) (fixtures_of saved) ≡ present
      → Ensures
          (λ _ after. (get_pending upper address after ≡ none) × SameOthers address saved after)
          (λ after. after ≡ saved)
          (remove_present upper fate address present saved)
  unfolding get_pending
  remove_present_lem fate address none saved e = (e, λ other d. refl)
  remove_present_lem fate address (some stored) saved e =
      Ensures-weaken (save_remaining upper fate (remove (upper address) (fixtures_of saved)) saved)
        (λ _ after. fixtures_of after ≡ remove (upper address) (fixtures_of saved)) _ _
        (λ _ after same. remove_after address saved after same)
        (save_remaining_lem fate (remove (upper address) (fixtures_of saved)) saved)

  -- Whether the writes reach the disk or not, the recovery records behave as a map that can be
  -- relied on. A save that returns makes the record readable, a removal that returns takes it away,
  -- both leave every other address as it was, and one that raises leaves all of them.
  pub pending_durable :
      (fate : Fate) (address stored : Text) (saved : Saved)
      → Ensures
          (λ _ after.
            (get_pending upper address after ≡ some stored) × SameOthers address saved after)
          (λ after. after ≡ saved)
          (save_pending upper fate address stored saved)
        × Ensures
            (λ _ after. (get_pending upper address after ≡ none) × SameOthers address saved after)
            (λ after. after ≡ saved)
            (remove_pending upper fate address saved)
  unfolding save_pending remove_pending
  pending_durable fate address stored saved = (
    Ensures-weaken (save_verified fate (put (upper address) stored (fixtures_of saved)) saved)
        (λ _ after. fixtures_of after ≡ put (upper address) stored (fixtures_of saved)) _ _
        (λ _ after same. put_after address stored saved after same)
        (save_verified_lem fate (put (upper address) stored (fixtures_of saved)) saved),
    remove_present_lem fate address (get (upper address) (fixtures_of saved)) saved refl,
  )
