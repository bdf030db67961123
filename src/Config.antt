-- ===== src/Config.antt =====
-- The configuration client (custom_components/amaran_ble/amaranble/config_client.py): composition
-- data, and the foundation messages to one node, over Proxy/Requests.

pub mod Pages
pub mod Reads
pub mod Composition
pub mod Client
pub mod AppKey
pub mod Asking
pub mod Binding
mod Examples
use ha_amaran_ble.Base.{
  ℕ, zero, suc, ◌+◌, Bool, not, ◌&&◌, List, [], ◌∷◌, Result, ok, err, guard, config_error, leb,
  ◌==◌, length, drop, get_or, bit_or, ◌>>=◌, ◌>>◌, if◌then◌else◌,
}
use ha_amaran_ble.Base.Bits.{shl, low_bits}
use ha_amaran_ble.Base.Bytes.{Bytes, slice, from_bytes_little, to_bytes_little}

pub record Element : Type 0 where
  pub address : ℕ
  pub location : ℕ
  pub sig_models : List ℕ
  pub vendor_models : List (ℕ × ℕ)

pub record CompositionData : Type 0 where
  pub company_id : ℕ
  pub product_id : ℕ
  pub version_id : ℕ
  pub crpl : ℕ
  pub features : ℕ
  pub elements : List Element

-- The offset into the page is kept as the bytes that are left of it.
unfoldable pub read_sig_models : ℕ → Bytes → Result (List ℕ × Bytes)
read_sig_models zero rest = ok ([], rest)
read_sig_models (suc n) [] = err config_error
read_sig_models (suc n) (a ∷ []) = err config_error
read_sig_models (suc n) (a ∷ b ∷ rest) = do
  (models, left) ← read_sig_models n rest
  ok (from_bytes_little (a ∷ b ∷ []) ∷ models, left)

unfoldable pub read_vendor_models : ℕ → Bytes → Result (List (ℕ × ℕ) × Bytes)
read_vendor_models zero rest = ok ([], rest)
read_vendor_models (suc n) [] = err config_error
read_vendor_models (suc n) (a ∷ []) = err config_error
read_vendor_models (suc n) (a ∷ b ∷ []) = err config_error
read_vendor_models (suc n) (a ∷ b ∷ c ∷ []) = err config_error
read_vendor_models (suc n) (a ∷ b ∷ c ∷ d ∷ rest) = do
  (models, left) ← read_vendor_models n rest
  ok ((from_bytes_little (a ∷ b ∷ []), from_bytes_little (c ∷ d ∷ [])) ∷ models, left)

-- `while offset + 4 <= len(data)`, and the check of the offset after it. A round takes four bytes
-- at least, so as many rounds as there are bytes are enough.
unfoldable pub read_elements : ℕ → ℕ → Bytes → Result (List Element)
read_elements fuel address [] = ok []
read_elements zero address (a ∷ rest) = err config_error
read_elements (suc fuel) address (a ∷ []) = err config_error
read_elements (suc fuel) address (a ∷ b ∷ []) = err config_error
read_elements (suc fuel) address (a ∷ b ∷ num_sig ∷ []) = err config_error
read_elements (suc fuel) address (a ∷ b ∷ num_sig ∷ num_vendor ∷ rest) = do
  (sig_models, after_sig) ← read_sig_models num_sig rest
  (vendor_models, after_vendor) ← read_vendor_models num_vendor after_sig
  more ← read_elements fuel (address + 1) after_vendor
  ok (
      record {
        address = address;
        location = from_bytes_little (a ∷ b ∷ []);
        sig_models = sig_models;
        vendor_models = vendor_models;
      }
      ∷ more)

unfoldable pub parse : Bytes → ℕ → Result CompositionData
parse page base_address = do
  guard (leb 11 (length page) && (get_or page 0 0 == 0)) config_error
  elements ← read_elements (length page) base_address (drop 11 page)
  ok (record {
    company_id = from_bytes_little (slice 1 3 page);
    product_id = from_bytes_little (slice 3 5 page);
    version_id = from_bytes_little (slice 5 7 page);
    crpl = from_bytes_little (slice 7 9 page);
    features = from_bytes_little (slice 9 11 page);
    elements = elements;
  })

-- (net_key_index & 0xFFF) | ((app_key_index & 0xFFF) << 12), in three bytes
unfoldable pub pack_key_indexes : ℕ → ℕ → Result Bytes
pack_key_indexes net_key_index app_key_index =
    to_bytes_little 3 (bit_or (low_bits net_key_index 12) (shl (low_bits app_key_index 12) 12))

abbrev pub status_success : ℕ
status_success = 0x00

unfoldable pub check_status : ℕ → Result (Unit {0})
check_status status = guard (status == status_success) config_error
