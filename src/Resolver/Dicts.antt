-- ===== src/Resolver/Dicts.antt =====
-- What writes and removals keep of the resolver's collections
-- (custom_components/amaran_ble/resolver.py).
use ha_amaran_ble.Base.{
  ◌≡◌, refl, sym, ◌∙◌, ap, arith, true, false, Bool-cases, inl, inr, ◌||◌, Option, none, some, List,
  [], ◌∷◌, All, ◌⊎◌,
}
use ha_amaran_ble.Base.Bytes.{same_bytes, same_bytes_iff}
use ha_amaran_ble.Base.Dict.{Dict, get, put, remove, get-put, get-remove}
use ha_amaran_ble.Resolver.{Text, text_Eq, RankedCandidate, is_in, outranks, insert, sorted, values}
use ha_amaran_ble.Resolver.Candidates.{is_some}

module _ {A : Type 0} (P : A → Type 0) where
  abbrev pub AllValues : Dict Text A → Type 0
  AllValues [] = Unit {0}
  AllValues ((key, value) ∷ rest) = P value × AllValues rest

  pub put-AllValues :
      (k : Text) (v : A) (d : Dict Text A) → P v → AllValues d → AllValues (put k v d)
  unfolding put
  put-AllValues k v [] p h = (p, tt)
  put-AllValues k v ((j, w) ∷ d) p h = elim (Bool-cases (same_bytes j k)) [
    | inl same ↦ rw same (p, h.1)
    | inr other ↦ rw other (h.0, put-AllValues k v d p h.1)
  ]

  pub remove-AllValues : (k : Text) (d : Dict Text A) → AllValues d → AllValues (remove k d)
  unfolding remove
  remove-AllValues k [] h = tt
  remove-AllValues k ((j, w) ∷ d) h = elim (Bool-cases (same_bytes j k)) [
    | inl same ↦ rw same (remove-AllValues k d h.1)
    | inr other ↦ rw other (h.0, remove-AllValues k d h.1)
  ]

  pub values-All : (d : Dict Text A) → AllValues d → All P (values d)
  values-All [] h = tt
  values-All ((key, value) ∷ rest) h = (h.0, values-All rest h.1)

module _ {Device : Type 0} (P : RankedCandidate Device → Type 0) where
  pub insert-All :
      (r : RankedCandidate Device) (rest : List (RankedCandidate Device))
      → P r
      → All P rest
      → All P (insert r rest)
  insert-All r [] p h = (p, tt)
  insert-All r (x ∷ rest) p h = elim (Bool-cases (outranks x r)) [
    | inl above ↦ rw above (h.0, insert-All r rest p h.1)
    | inr below ↦ rw below (p, h)
  ]

  pub sorted-All : (items : List (RankedCandidate Device)) → All P items → All P (sorted items)
  unfolding sorted
  sorted-All [] h = tt
  sorted-All (x ∷ rest) h = insert-All x (sorted rest) h.0 (sorted-All rest h.1)

pub remove-none :
    {A : Type 0} (k j : Text) (d : Dict Text A) → get j d ≡ none → get j (remove k d) ≡ none
remove-none k j d h = elim (Bool-cases (same_bytes k j)) [
  | inl same ↦ get-remove k j d ∙ rw same refl
  | inr other ↦ get-remove k j d ∙ rw other h
]

pub remove-same : {A : Type 0} (k : Text) (d : Dict Text A) → get k (remove k d) ≡ none
remove-same k d = get-remove k k d ∙ rw ((same_bytes_iff k k).1 refl) refl

pub get-remove-some :
    {A : Type 0} (k j : Text) (v : A) (d : Dict Text A)
    → get j (remove k d) ≡ some v
    → get j d ≡ some v
get-remove-some k j v d e = ground (arith, get-remove k j d)

-- What was not there, or is the key itself, is not there without the key.
pub remove-unsafe :
    {A : Type 0} (k j : Text) (seen : List Text) (d : Dict Text A)
    → is_in j (k ∷ seen) ≡ true
    → (is_in j seen ≡ true → get j d ≡ none)
    → get j (remove k d) ≡ none
remove-unsafe k j seen d e h = elim (Bool-cases (same_bytes j k)) [
  | inl same ↦
      get-remove k j d ∙ rw ((same_bytes_iff k j).1 (sym ((same_bytes_iff j k).0 same))) refl
  | inr other ↦ remove-none k j d (h (ground (arith, e, other)))
]

pub neither-none :
    {A B : Type 0} (a : Option A) (b : Option B) → (is_some a || is_some b) ≡ false → a ≡ none
neither-none none b e = refl
neither-none (some a) b e = ground arith

-- A write of another key leaves it out.
pub put-unsafe :
    {A : Type 0} (k j : Text) (v : A) (seen : List Text) (d : Dict Text A)
    → is_in j seen ≡ true
    → is_in k seen ≡ false
    → get j d ≡ none
    → get j (put k v d) ≡ none
put-unsafe k j v seen d inside outside e = elim (Bool-cases (same_bytes k j)) [
  | inl same ↦ absurd (
      let moved : is_in k seen ≡ is_in j seen =
        ap (λ i. is_in i seen) ((same_bytes_iff k j).0 same) in
      ground (arith, moved, inside, outside))
  | inr other ↦ get-put k j v d ∙ rw other e
]

pub get-put-some :
    {A : Type 0} (k j : Text) (v w : A) (d : Dict Text A)
    → get j (put k v d) ≡ some w
    → ((k ≡ j) × (v ≡ w)) ⊎ (get j d ≡ some w)
get-put-some k j v w d e = elim (Bool-cases (same_bytes k j)) [
  | inl same ↦ inl ((same_bytes_iff k j).0 same, ground (arith, get-put k j v d))
  | inr other ↦ inr (ground (arith, get-put k j v d))
]
