-- ===== src/Config/Reads.antt =====
-- What a successful read of models and elements says of the bytes
-- (custom_components/amaran_ble/amaranble/config_client.py, `CompositionData.parse`).
use ha_amaran_ble.Base.{
  ℕ, zero, suc, ◌+◌, ◌≡◌, refl, sym, ap, ◌∙◌, ◌>>=◌, List, [], ◌∷◌, ◌++◌, Result, ok, err, All,
  arith, length,
}
use ha_amaran_ble.Base.Bytes.{Bytes, IsByte, from_bytes_little, little_endian-from_bytes_little}
use ha_amaran_ble.Config.{Element, read_sig_models, read_vendor_models, read_elements}
use ha_amaran_ble.Config.Pages.{
  IsWord, word, encode_sig_models, encode_vendor_models, encode_elements, AreElements,
}

-- What was read is what stands there.
pub word_of : (a b : ℕ) → IsByte a → IsByte b → word (from_bytes_little (a ∷ b ∷ [])) ≡ a ∷ b ∷ []
word_of a b ha hb = little_endian-from_bytes_little (a ∷ b ∷ []) (ha, (hb, tt))

-- What a successful read says of the bytes.
abbrev SigRead : ℕ → Bytes → Result (List ℕ × Bytes) → Type 0
SigRead n bytes (err e) = Unit {0}
SigRead n bytes (ok (ms, left)) =
    (bytes ≡ encode_sig_models ms ++ left) × (length ms ≡ n) × All IsWord ms × All IsByte left

sig_step :
    (n a b : ℕ) (rest : Bytes) (r : Result (List ℕ × Bytes))
    → IsByte a
    → IsByte b
    → SigRead n rest r
    → SigRead
        (suc n)
        (a ∷ b ∷ rest)
        (r >>= λ (models, left). ok (from_bytes_little (a ∷ b ∷ []) ∷ models, left))
unfolding encode_sig_models
sig_step n a b rest (err e) ha hb h = tt
sig_step n a b rest (ok (models, left)) ha hb h = (
  rw (h.0) (ap (λ w. w ++ (encode_sig_models models ++ left)) (sym (word_of a b ha hb))),
  ap suc h.1,
  (omega (arith, ha, hb), h.2),
  h.3,
)

read_sig-SigRead :
    (n : ℕ) (bytes : Bytes) → All IsByte bytes → SigRead n bytes (read_sig_models n bytes)
unfolding read_sig_models encode_sig_models
read_sig-SigRead zero bytes h = (refl, refl, tt, h)
read_sig-SigRead (suc n) [] h = tt
read_sig-SigRead (suc n) (a ∷ []) h = tt
read_sig-SigRead (suc n) (a ∷ b ∷ rest) h =
    sig_step n a b rest (read_sig_models n rest) h.0 h.1.0 (read_sig-SigRead n rest h.1.1)

abbrev AreWords : List (ℕ × ℕ) → Type 0
AreWords ms = All (λ m. IsWord m.0 × IsWord m.1) ms

abbrev VendorRead : ℕ → Bytes → Result (List (ℕ × ℕ) × Bytes) → Type 0
VendorRead n bytes (err e) = Unit {0}
VendorRead n bytes (ok (ms, left)) =
    (bytes ≡ encode_vendor_models ms ++ left) × (length ms ≡ n) × AreWords ms × All IsByte left

vendor_step :
    (n a b c d : ℕ) (rest : Bytes) (r : Result (List (ℕ × ℕ) × Bytes))
    → All IsByte (a ∷ b ∷ c ∷ d ∷ [])
    → VendorRead n rest r
    → VendorRead (suc n) (a ∷ b ∷ c ∷ d ∷ rest) (
        r >>= λ (models, left).
        ok ((from_bytes_little (a ∷ b ∷ []), from_bytes_little (c ∷ d ∷ [])) ∷ models, left))
unfolding encode_vendor_models
vendor_step n a b c d rest (err e) hs h = tt
vendor_step n a b c d rest (ok (models, left)) (ha, (hb, (hc, (hd, _)))) h = (
  rw h.0 (
      ap (λ w. w ++ (c ∷ d ∷ (encode_vendor_models models ++ left))) (sym (word_of a b ha hb))
      ∙ ap
          (λ w.
            word (from_bytes_little (a ∷ b ∷ [])) ++ (w ++ (encode_vendor_models models ++ left)))
          (sym (word_of c d hc hd))),
  ap suc h.1,
  ((omega (arith, ha, hb), omega (arith, hc, hd)), h.2),
  h.3,
)

read_vendor-VendorRead :
    (n : ℕ) (bytes : Bytes) → All IsByte bytes → VendorRead n bytes (read_vendor_models n bytes)
unfolding read_vendor_models encode_vendor_models
read_vendor-VendorRead zero bytes h = (refl, refl, tt, h)
read_vendor-VendorRead (suc n) [] h = tt
read_vendor-VendorRead (suc n) (a ∷ []) h = tt
read_vendor-VendorRead (suc n) (a ∷ b ∷ []) h = tt
read_vendor-VendorRead (suc n) (a ∷ b ∷ c ∷ []) h = tt
read_vendor-VendorRead (suc n) (a ∷ b ∷ c ∷ d ∷ rest) (ha, (hb, (hc, (hd, h)))) =
    vendor_step n a b c d rest (read_vendor_models n rest) (ha, (hb, (hc, (hd, tt))))
      (read_vendor-VendorRead n rest h)

abbrev pub ElementsRead : ℕ → Bytes → Result (List Element) → Type 0
ElementsRead address bytes (err e) = Unit {0}
ElementsRead address bytes (ok es) = (bytes ≡ encode_elements es) × AreElements address es

abbrev element : ℕ → ℕ → ℕ → List ℕ → List (ℕ × ℕ) → Element
element address a b sig_models vendor_models = record {
  address = address;
  location = from_bytes_little (a ∷ b ∷ []);
  sig_models = sig_models;
  vendor_models = vendor_models;
}

elements_step :
    (address a b num_sig num_vendor : ℕ) (rest : Bytes) (sig : Result (List ℕ × Bytes))
    (vendor : Bytes → Result (List (ℕ × ℕ) × Bytes)) (more : Bytes → Result (List Element))
    → All IsByte (a ∷ b ∷ num_sig ∷ num_vendor ∷ [])
    → SigRead num_sig rest sig
    → ((left : Bytes) → All IsByte left → VendorRead num_vendor left (vendor left))
    → ((left : Bytes) → All IsByte left → ElementsRead (address + 1) left (more left))
    → ElementsRead address (a ∷ b ∷ num_sig ∷ num_vendor ∷ rest) (
        sig >>= λ (sig_models, after_sig). vendor after_sig >>= λ (vendor_models, after_vendor).
        more after_vendor >>= λ es. ok (element address a b sig_models vendor_models ∷ es))
unfolding encode_elements
elements_step address a b num_sig num_vendor rest (err e) vendor more hs hsig hv hm = tt
elements_step address a b num_sig num_vendor rest (ok (ms, left)) vendor more hs hsig hv hm =
    after_sig (vendor left) (hv left hsig.3)
  where
    after_elements :
        (vs : List (ℕ × ℕ)) (left' : Bytes) (es : Result (List Element))
        → VendorRead num_vendor left (ok (vs, left'))
        → ElementsRead (address + 1) left' es
        → ElementsRead address
            (a ∷ b ∷ num_sig ∷ num_vendor ∷ rest)
            (es >>= λ es. ok (element address a b ms vs ∷ es))
    after_elements vs left' (err e) hvs hes = tt
    after_elements vs left' (ok es) hvs hes =
        let tail_eq : rest
            ≡ encode_sig_models ms ++ (encode_vendor_models vs ++ encode_elements es) =
          hsig.0
          ∙ ap (λ t. encode_sig_models ms ++ t)
              (hvs.0 ∙ ap (λ t. encode_vendor_models vs ++ t) hes.0) in
        (
          ap (λ t. a ∷ b ∷ num_sig ∷ num_vendor ∷ t) tail_eq
              ∙ (rw (hsig.1, hvs.1)
                  (ap
                    (λ w.
                      w
                      ++ (num_sig
                          ∷ num_vendor
                          ∷ (encode_sig_models ms
                              ++ (encode_vendor_models vs ++ encode_elements es))))
                    (sym (word_of a b hs.0 hs.1.0)))),
          (
            refl,
            omega (arith, hs.0, hs.1.0),
            omega (arith, hsig.1, hs.1.1.0),
            omega (arith, hvs.1, hs.1.1.1.0),
            hsig.2,
            hvs.2,
            hes.1,
          ),
        )

    after_sig :
        (v : Result (List (ℕ × ℕ) × Bytes))
        → VendorRead num_vendor left v
        → ElementsRead address (a ∷ b ∷ num_sig ∷ num_vendor ∷ rest) (
            v >>= λ (vendor_models, after_vendor).
            more after_vendor >>= λ es. ok (element address a b ms vendor_models ∷ es))
    after_sig (err e) hvs = tt
    after_sig (ok (vs, left')) hvs = after_elements vs left' (more left') hvs (hm left' hvs.3)

pub read_elements-ElementsRead :
    (fuel address : ℕ) (bytes : Bytes)
    → All IsByte bytes
    → ElementsRead address bytes (read_elements fuel address bytes)
unfolding read_elements encode_elements
read_elements-ElementsRead fuel address [] h = (refl, tt)
read_elements-ElementsRead zero address (a ∷ rest) h = tt
read_elements-ElementsRead (suc fuel) address (a ∷ []) h = tt
read_elements-ElementsRead (suc fuel) address (a ∷ b ∷ []) h = tt
read_elements-ElementsRead (suc fuel) address (a ∷ b ∷ c ∷ []) h = tt
read_elements-ElementsRead (suc fuel) address (a ∷ b ∷ c ∷ d ∷ rest) (ha, (hb, (hc, (hd, h)))) =
    elements_step address a b c d rest (read_sig_models c rest) (read_vendor_models d)
      (read_elements fuel (address + 1)) (ha, (hb, (hc, (hd, tt)))) (read_sig-SigRead c rest h)
      (read_vendor-VendorRead d) (read_elements-ElementsRead fuel (address + 1))
