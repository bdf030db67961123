-- ===== src/Config/Binding.antt =====
-- The requests that bind the models of a node
-- (custom_components/amaran_ble/amaranble/config_client.py, `bind_all_models`).
use ha_amaran_ble.Base.{
  zero, suc, true, false, arith, ℕ, ◌≡◌, refl, sym, Bool-cases, inl, inr, List, [], ◌∷◌, ◌++◌, ok,
  All, map,
}
use ha_amaran_ble.Base.Bytes.{Bytes, little_endian, to_bytes_little_ok}
use ha_amaran_ble.Proxy.Requests.{Request, Mesh}
use ha_amaran_ble.Config.{Element, CompositionData}
use ha_amaran_ble.Config.Pages.{IsWord}
use ha_amaran_ble.Config.Client.{
  Model, sig, vendor, model_bytes, bind_request, bind_model, try_bind, is_configuration,
  bind_sig_models, bind_vendor_models, bind_elements, bind_all_models,
}
use ha_amaran_ble.Config.Asking.{IsTame, Returns, append_nil, Returns-then_do, answer_lem}

-- A model and its addresses fit two bytes each.
abbrev pub IsModel : Model → Type 0
IsModel (sig m) = IsWord m
IsModel (vendor company m) = IsWord company × IsWord m

abbrev pub bytes_of : Model → Bytes
bytes_of (sig m) = little_endian 2 m
bytes_of (vendor company m) = little_endian 2 company ++ little_endian 2 m

-- The request that binds a model of an element.
abbrev pub request_for : ℕ → ℕ → ℕ → Model → Request
request_for address index element_address model =
    bind_request address
      (little_endian 2 element_address ++ (little_endian 2 index ++ bytes_of model))

model_bytes_ok :
    (model : Model) (mesh : Mesh)
    → IsModel model
    → model_bytes model mesh ≡ (ok (bytes_of model), mesh)
unfolding model_bytes
model_bytes_ok (sig m) mesh h = rw (to_bytes_little_ok 2 m h) refl
model_bytes_ok (vendor company m) mesh h =
    rw (to_bytes_little_ok 2 company h.0, to_bytes_little_ok 2 m h.1) refl

try_bind_lem :
    (address index element_address : ℕ) (model : Model) (mesh : Mesh)
    → IsWord index
    → IsWord element_address
    → IsModel model
    → All IsTame mesh.outcomes
    → Returns
        (request_for address index element_address model ∷ [])
        mesh
        (try_bind address index element_address model mesh)
unfolding try_bind bind_model
try_bind_lem address index element_address model mesh hi he hm tame =
    rw
      (
        model_bytes_ok model mesh hm,
        to_bytes_little_ok 2 element_address he,
        to_bytes_little_ok 2 index hi,
      )
      (answer_lem (request_for address index element_address model) mesh tame)

-- The models of an element that take an application key: all but Configuration Server (0) and
-- Configuration Client (1).
abbrev pub takes_key : ℕ → List Model
takes_key zero = []
takes_key (suc zero) = []
takes_key (suc (suc n)) = sig (suc (suc n)) ∷ []

abbrev pub bindable_sig : List ℕ → List Model
bindable_sig [] = []
bindable_sig (m ∷ rest) = takes_key m ++ bindable_sig rest

takes_key-skip : (m : ℕ) → is_configuration m ≡ true → takes_key m ≡ []
takes_key-skip zero h = refl
takes_key-skip (suc zero) h = refl
takes_key-skip (suc (suc n)) h = absurd (ground arith)

takes_key-keep : (m : ℕ) → is_configuration m ≡ false → takes_key m ≡ sig m ∷ []
takes_key-keep zero h = absurd (ground arith)
takes_key-keep (suc zero) h = absurd (ground arith)
takes_key-keep (suc (suc n)) h = refl

abbrev pub vendors : List (ℕ × ℕ) → List Model
vendors [] = []
vendors ((company, m) ∷ rest) = vendor company m ∷ vendors rest

abbrev pub requests_for : ℕ → ℕ → List Element → List Request
requests_for address index [] = []
requests_for address index (e ∷ rest) =
    map (request_for address index e.address) (bindable_sig e.sig_models)
    ++ (map (request_for address index e.address) (vendors e.vendor_models)
        ++ requests_for address index rest)

-- The addresses and models of these elements fit two bytes.
abbrev pub AreBindable : List Element → Type 0
AreBindable [] = Unit {0}
AreBindable (e ∷ rest) =
    IsWord e.address
    × All IsWord e.sig_models
    × All (λ m. IsWord m.0 × IsWord m.1) e.vendor_models
    × AreBindable rest

module _ (address index : ℕ) (hi : IsWord index) where
  bind_sig_lem :
      (element_address : ℕ) (ms : List ℕ) (mesh : Mesh)
      → IsWord element_address
      → All IsWord ms
      → All IsTame mesh.outcomes
      → Returns
          (map (request_for address index element_address) (bindable_sig ms))
          mesh
          (bind_sig_models address index element_address ms mesh)
  unfolding bind_sig_models
  bind_sig_lem a [] mesh ha hs tame = (refl, sym (append_nil mesh.requests), tame)
  bind_sig_lem a (m ∷ ms) mesh ha hs tame = elim (Bool-cases (is_configuration m)) [
    | inl skip ↦ rw (skip, takes_key-skip m skip) (bind_sig_lem a ms mesh ha hs.1 tame)
    | inr keep ↦
        rw (keep, takes_key-keep m keep)
          (Returns-then_do (request_for address index a (sig m) ∷ [])
            (map (request_for address index a) (bindable_sig ms)) mesh
            (try_bind address index a (sig m) mesh) (bind_sig_models address index a ms)
            (try_bind_lem address index a (sig m) mesh hi ha hs.0 tame)
            (λ mesh' t. bind_sig_lem a ms mesh' ha hs.1 t))
  ]

  bind_vendor_lem :
      (element_address : ℕ) (ms : List (ℕ × ℕ)) (mesh : Mesh)
      → IsWord element_address
      → All (λ m. IsWord m.0 × IsWord m.1) ms
      → All IsTame mesh.outcomes
      → Returns
          (map (request_for address index element_address) (vendors ms))
          mesh
          (bind_vendor_models address index element_address ms mesh)
  unfolding bind_vendor_models
  bind_vendor_lem a [] mesh ha hs tame = (refl, sym (append_nil mesh.requests), tame)
  bind_vendor_lem a ((company, m) ∷ ms) mesh ha hs tame =
      Returns-then_do (request_for address index a (vendor company m) ∷ [])
        (map (request_for address index a) (vendors ms)) mesh
        (try_bind address index a (vendor company m) mesh) (bind_vendor_models address index a ms)
        (try_bind_lem address index a (vendor company m) mesh hi ha hs.0 tame)
        (λ mesh' t. bind_vendor_lem a ms mesh' ha hs.1 t)

  bind_elements_lem :
      (es : List Element) (mesh : Mesh)
      → AreBindable es
      → All IsTame mesh.outcomes
      → Returns (requests_for address index es) mesh (bind_elements address index es mesh)
  unfolding bind_elements
  bind_elements_lem [] mesh h tame = (refl, sym (append_nil mesh.requests), tame)
  bind_elements_lem (e ∷ es) mesh h tame =
      Returns-then_do _ _ mesh (bind_sig_models address index e.address e.sig_models mesh) _
        (bind_sig_lem e.address e.sig_models mesh h.0 h.1 tame)
        (λ mesh' t.
          Returns-then_do _ _ mesh'
            (bind_vendor_models address index e.address e.vendor_models mesh') _
            (bind_vendor_lem e.address e.vendor_models mesh' h.0 h.2 t)
            (λ mesh'' t'. bind_elements_lem es mesh'' h.3 t'))

-- For an index, addresses and models of two bytes, and as long as the proxy raises no other exception
-- than its own, binding all models returns whatever the node answers, refuses or leaves unanswered,
-- and asks the node once, in the order of the composition data, to bind each SIG model but 0 and 1,
-- which configure the node, and each vendor model.
pub bind_all_models_requests :
    (address index : ℕ) (c : CompositionData) (mesh : Mesh)
    → IsWord index
    → AreBindable c.elements
    → All IsTame mesh.outcomes
    → ((bind_all_models address c index mesh).0 ≡ ok tt)
      × ((bind_all_models address c index mesh).1.requests
          ≡ mesh.requests ++ requests_for address index c.elements)
unfolding bind_all_models
bind_all_models_requests address index c mesh hi h tame =
    let done = bind_elements_lem address index hi c.elements mesh h tame in (done.0, done.1)
