-- ===== src/Config/Pages.antt =====
-- Composition data pages as the Mesh profile lays them out, and that they are read back
-- (custom_components/amaran_ble/amaranble/config_client.py, `CompositionData.parse`).
use ha_amaran_ble.Base.{
  ℕ, zero, suc, ◌+◌, ◌/◌, ◌%◌, ◌≤◌, ◌<◌, ◌≡◌, refl, List, [], ◌∷◌, ◌++◌, ok, All, arith, length,
  length-append,
}
use ha_amaran_ble.Base.Bytes.{Bytes, little_endian, from_bytes_little}
use ha_amaran_ble.Config.{
  Element, CompositionData, read_sig_models, read_vendor_models, read_elements,
}

abbrev pub IsWord : ℕ → Type 0
IsWord x = x < 65536

abbrev pub word : ℕ → Bytes
word x = little_endian 2 x

unfoldable pub encode_sig_models : List ℕ → Bytes
encode_sig_models [] = []
encode_sig_models (m ∷ rest) = word m ++ encode_sig_models rest

unfoldable pub encode_vendor_models : List (ℕ × ℕ) → Bytes
encode_vendor_models [] = []
encode_vendor_models ((company, m) ∷ rest) = word company ++ (word m ++ encode_vendor_models rest)

unfoldable pub encode_elements : List Element → Bytes
encode_elements [] = []
encode_elements (e ∷ rest) =
    word e.location
    ++ (length e.sig_models
        ∷ length e.vendor_models
        ∷ (encode_sig_models e.sig_models
            ++ (encode_vendor_models e.vendor_models ++ encode_elements rest)))

abbrev pub encode : CompositionData → Bytes
encode c =
    0
    ∷ (word c.company_id
        ++ (word c.product_id
            ++ (word c.version_id
                ++ (word c.crpl ++ (word c.features ++ encode_elements c.elements)))))

-- The elements number from `address` on, and everything fits its field.
abbrev pub AreElements : ℕ → List Element → Type 0
AreElements address [] = Unit {0}
AreElements address (e ∷ rest) =
    (e.address ≡ address)
    × IsWord e.location
    × (length e.sig_models < 256)
    × (length e.vendor_models < 256)
    × All IsWord e.sig_models
    × All (λ m. IsWord m.0 × IsWord m.1) e.vendor_models
    × AreElements (address + 1) rest

pub record IsComposition (base_address : ℕ) (c : CompositionData) : Type 0 where
  pub company_id : IsWord c.company_id
  pub product_id : IsWord c.product_id
  pub version_id : IsWord c.version_id
  pub crpl : IsWord c.crpl
  pub features : IsWord c.features
  pub elements : AreElements base_address c.elements

pub read_word : (x : ℕ) → IsWord x → from_bytes_little (x % 256 ∷ x / 256 % 256 ∷ []) ≡ x
read_word x h = omega arith

read-encode_sig :
    (ms : List ℕ) (rest : Bytes)
    → All IsWord ms
    → read_sig_models (length ms) (encode_sig_models ms ++ rest) ≡ ok (ms, rest)
unfolding read_sig_models encode_sig_models
read-encode_sig [] rest h = refl
read-encode_sig (m ∷ ms) rest h = rw (read-encode_sig ms rest h.1, read_word m h.0) refl

read-encode_vendor :
    (ms : List (ℕ × ℕ)) (rest : Bytes)
    → All (λ m. IsWord m.0 × IsWord m.1) ms
    → read_vendor_models (length ms) (encode_vendor_models ms ++ rest) ≡ ok (ms, rest)
unfolding read_vendor_models encode_vendor_models
read-encode_vendor [] rest h = refl
read-encode_vendor ((c, m) ∷ ms) rest h =
    rw (read-encode_vendor ms rest h.1, read_word c h.0.0, read_word m h.0.1) refl

pub read-encode_elements :
    (fuel address : ℕ) (es : List Element)
    → length es ≤ fuel
    → AreElements address es
    → read_elements fuel address (encode_elements es) ≡ ok es
unfolding read_elements encode_elements
read-encode_elements fuel address [] l h = refl
read-encode_elements zero address (e ∷ es) l h = absurd (omega arith)
read-encode_elements (suc fuel) address (e ∷ es) l h =
    let more = encode_elements es in
    rw
      (
        read-encode_sig e.sig_models (encode_vendor_models e.vendor_models ++ more) h.4,
        read-encode_vendor e.vendor_models more h.5,
        read-encode_elements fuel (address + 1) es (omega arith) h.6,
        read_word e.location h.1,
        h.0,
      )
      refl

pub length-encode_elements : (es : List Element) → length es ≤ length (encode_elements es)
unfolding encode_elements
length-encode_elements [] = omega arith
length-encode_elements (e ∷ es) = omega (
  arith,
  length-encode_elements es,
  length-append (encode_sig_models e.sig_models)
      (encode_vendor_models e.vendor_models ++ encode_elements es),
  length-append (encode_vendor_models e.vendor_models) (encode_elements es),
)
