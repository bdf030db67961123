-- ===== src/Config/Composition.antt =====
-- `CompositionData.parse` against the layout of the pages
-- (custom_components/amaran_ble/amaranble/config_client.py).
use ha_amaran_ble.Base.{
  ℕ, ◌≡◌, ◌↔◌, refl, sym, ap, ◌∙◌, true, ◌>>=◌, List, [], ◌∷◌, ◌++◌, Result, ok, err, inl, inr, All,
  arith, length, leb, ◌==◌, Bool-cases, le→leb, ==_iff,
}
use ha_amaran_ble.Base.Bytes.{Bytes, IsByte, from_bytes_little}
use ha_amaran_ble.Config.{Element, CompositionData, read_elements, parse}
use ha_amaran_ble.Config.Pages.{
  encode_elements, encode, IsComposition, read_word, read-encode_elements, length-encode_elements,
}
use ha_amaran_ble.Config.Reads.{word_of, ElementsRead, read_elements-ElementsRead}

parse-encode :
    (base : ℕ) (c : CompositionData) → IsComposition base c → parse (encode c) base ≡ ok c
unfolding parse
parse-encode base c v =
    let long : leb 11 (length (encode c)) ≡ true = ground arith in
    rw
      (
        long,
        read-encode_elements (length (encode c)) base c.elements
            (omega (arith, length-encode_elements c.elements)) v.elements,
        read_word c.company_id v.company_id,
        read_word c.product_id v.product_id,
        read_word c.version_id v.version_id,
        read_word c.crpl v.crpl,
        read_word c.features v.features,
      )
      refl

abbrev Parsed : ℕ → Bytes → Result CompositionData → Type 0
Parsed base page (err e) = Unit {0}
Parsed base page (ok c) = (page ≡ encode c) × IsComposition base c

parse-Parsed : (page : Bytes) (base : ℕ) → All IsByte page → Parsed base page (parse page base)
unfolding parse
parse-Parsed (z ∷ a0 ∷ a1 ∷ b0 ∷ b1 ∷ c0 ∷ c1 ∷ d0 ∷ d1 ∷ e0 ∷ e1 ∷ rest) base
      (hz, (ha0, (ha1, (hb0, (hb1, (hc0, (hc1, (hd0, (hd1, (he0, (he1, h))))))))))) =
    let page = z ∷ a0 ∷ a1 ∷ b0 ∷ b1 ∷ c0 ∷ c1 ∷ d0 ∷ d1 ∷ e0 ∷ e1 ∷ rest in
    let long : leb 11 (length page) ≡ true = le→leb 11 (length page) (omega arith) in
    elim (Bool-cases (z == 0)) [
      | inr other ↦ rw (long, other) tt
      | inl zero_page ↦
          rw (long, zero_page)
            (step zero_page (read_elements (length page) base rest)
              (read_elements-ElementsRead (length page) base rest h))
    ]
  where
    step :
        (z == 0) ≡ true
        → (r : Result (List Element)) → ElementsRead base rest r
        → Parsed base (z ∷ a0 ∷ a1 ∷ b0 ∷ b1 ∷ c0 ∷ c1 ∷ d0 ∷ d1 ∷ e0 ∷ e1 ∷ rest) (
            r >>= λ elements. ok (record {
              company_id = from_bytes_little (a0 ∷ a1 ∷ []);
              product_id = from_bytes_little (b0 ∷ b1 ∷ []);
              version_id = from_bytes_little (c0 ∷ c1 ∷ []);
              crpl = from_bytes_little (d0 ∷ d1 ∷ []);
              features = from_bytes_little (e0 ∷ e1 ∷ []);
              elements = elements;
            }))
    step zero_page (err e) read = tt
    step zero_page (ok elements) read = (
      ap (λ x. x ∷ a0 ∷ a1 ∷ b0 ∷ b1 ∷ c0 ∷ c1 ∷ d0 ∷ d1 ∷ e0 ∷ e1 ∷ rest)
            ((==_iff z 0).0 zero_page)
          ∙ rw read.0 (
              sym (λ i.
                0
                ∷ (word_of a0 a1 ha0 ha1 i
                    ++ (word_of b0 b1 hb0 hb1 i
                        ++ (word_of c0 c1 hc0 hc1 i
                            ++ (word_of d0 d1 hd0 hd1 i
                                ++ (word_of e0 e1 he0 he1 i ++ encode_elements elements))))))),
      record {
        company_id = omega (arith, ha0, ha1);
        product_id = omega (arith, hb0, hb1);
        version_id = omega (arith, hc0, hc1);
        crpl = omega (arith, hd0, hd1);
        features = omega (arith, he0, he1);
        elements = read.1;
      },
    )
parse-Parsed page base h = tt

-- On any page of bytes, `parse` succeeds exactly on what `encode` writes for a composition whose
-- numbers fit their fields and whose elements are numbered from the base address, and it returns
-- that composition.
pub parse_iff :
    (page : Bytes) (base : ℕ) (c : CompositionData)
    → All IsByte page
    → (parse page base ≡ ok c) ↔ ((page ≡ encode c) × IsComposition base c)
parse_iff page base c h =
    (λ e. rw e at (parse-Parsed page base h), λ (e, v). rw e (parse-encode base c v))
