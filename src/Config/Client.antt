-- ===== src/Config/Client.antt =====
-- `ConfigClient` (custom_components/amaran_ble/amaranble/config_client.py) over
-- `ProxyClient.request`.
use ha_amaran_ble.Base.{
  ℕ, Bool, true, false, ◌||◌, List, [], ◌∷◌, ◌++◌, Result, ok, err, config_error, proxy_error,
  network_decode_error, ◌==◌, if◌then◌else◌, drop, get_or,
}
use ha_amaran_ble.Base.Bits.{low_bits}
use ha_amaran_ble.Base.Bytes.{Bytes, slice, same_bytes, to_bytes_little}
use ha_amaran_ble.Base.Exec.{Exec, lift, pure, ◌>>=◌, ◌>>◌}
use ha_amaran_ble.Proxy.{AccessMessage}
use ha_amaran_ble.Proxy.Requests.{Request, Mesh, request}
use ha_amaran_ble.Config.{Element, CompositionData, parse, pack_key_indexes, check_status}

abbrev pub composition_data_get : ℕ
composition_data_get = 0x8008

abbrev pub composition_data_status : ℕ
composition_data_status = 0x02

abbrev pub appkey_add : ℕ
appkey_add = 0x00

abbrev pub appkey_status : ℕ
appkey_status = 0x8003

abbrev pub model_app_bind : ℕ
model_app_bind = 0x803D

abbrev pub model_app_status : ℕ
model_app_status = 0x803E

abbrev pub default_ttl_set : ℕ
default_ttl_set = 0x800E

abbrev pub default_ttl_status : ℕ
default_ttl_status = 0x800D

abbrev pub node_reset_opcode : ℕ
node_reset_opcode = 0x8049

abbrev pub node_reset_status : ℕ
node_reset_status = 0x804A

-- A request to the node itself, under its device key.
abbrev pub to_node : ℕ → ℕ → Bytes → ℕ → (Bytes → Bool) → Request
to_node address opcode parameters expect_opcode response_matcher = record {
  dst = address;
  opcode = opcode;
  parameters = parameters;
  expect_opcode = expect_opcode;
  device_key_for = address;
  response_matcher = response_matcher;
}

-- bool(parameters) and parameters[0] == page
abbrev pub is_page : ℕ → Bytes → Bool
is_page page [] = false
is_page page (first ∷ rest) = first == page

unfoldable pub get_composition_data : ℕ → ℕ → Exec Mesh CompositionData
get_composition_data address page = do
  reply ←
      request
        (to_node address composition_data_get (page ∷ []) composition_data_status (is_page page))
  lift (parse reply.parameters address)

abbrev pub appkey_request : ℕ → Bytes → Bytes → Request
appkey_request address key_indexes app_key =
    to_node address appkey_add (key_indexes ++ app_key) appkey_status
      (λ parameters. same_bytes (slice 1 4 parameters) key_indexes)

-- reply.parameters[0] if reply.parameters else 0xFF
abbrev pub status_of : Bytes → ℕ
status_of parameters = get_or parameters 0 0xFF

unfoldable pub add_app_key : ℕ → Bytes → ℕ → ℕ → Exec Mesh (Unit {0})
add_app_key address app_key net_key_index app_key_index = do
  key_indexes ← lift (pack_key_indexes net_key_index app_key_index)
  reply ← request (appkey_request address key_indexes app_key)
  lift (check_status (status_of reply.parameters))

-- A SIG model, or a vendor model of a company.
pub data Model : Type 0 where
  sig : ℕ → Model
  vendor : ℕ → ℕ → Model

unfoldable pub model_bytes : Model → Exec Mesh Bytes
model_bytes (sig model_id) = lift (to_bytes_little 2 model_id)
model_bytes (vendor company_id model_id) = do
  company_bytes ← lift (to_bytes_little 2 company_id)
  id_bytes ← lift (to_bytes_little 2 model_id)
  pure (company_bytes ++ id_bytes)

abbrev pub bind_request : ℕ → Bytes → Request
bind_request address params =
    to_node address model_app_bind params model_app_status
      (λ parameters. same_bytes (drop 1 parameters) params)

unfoldable pub bind_model : ℕ → ℕ → Model → ℕ → Exec Mesh (Unit {0})
unfolding model_bytes
bind_model address element_address model app_key_index = do
  bytes ← model_bytes model
  element_bytes ← lift (to_bytes_little 2 element_address)
  index_bytes ← lift (to_bytes_little 2 app_key_index)
  reply ← request (bind_request address (element_bytes ++ (index_bytes ++ bytes)))
  lift (check_status (status_of reply.parameters))

unfoldable pub set_default_ttl : ℕ → ℕ → Exec Mesh (Unit {0})
set_default_ttl address ttl = do
  reply ← request (
      to_node address default_ttl_set (low_bits ttl 7 ∷ []) default_ttl_status
        (λ parameters. same_bytes parameters (low_bits ttl 7 ∷ [])))
  pure tt

-- `except ProxyError, NetworkDecodeError: return False`
abbrev pub reset_outcome : Result AccessMessage × Mesh → Result Bool × Mesh
reset_outcome (ok reply, mesh) = (ok true, mesh)
reset_outcome (err proxy_error, mesh) = (ok false, mesh)
reset_outcome (err network_decode_error, mesh) = (ok false, mesh)
reset_outcome (err e, mesh) = (err e, mesh)

unfoldable pub node_reset : ℕ → Exec Mesh Bool
node_reset address mesh =
    reset_outcome
      (request (to_node address node_reset_opcode [] node_reset_status (λ parameters. true)) mesh)

-- `except (ConfigError, ProxyError): pass`
abbrev pub skip_rejected : Result (Unit {0}) × Mesh → Result (Unit {0}) × Mesh
skip_rejected (err config_error, mesh) = (ok tt, mesh)
skip_rejected (err proxy_error, mesh) = (ok tt, mesh)
skip_rejected (r, mesh) = (r, mesh)

unfoldable pub try_bind : ℕ → ℕ → ℕ → Model → Exec Mesh (Unit {0})
try_bind address app_key_index element_address model mesh =
    skip_rejected (bind_model address element_address model app_key_index mesh)

-- The Configuration Server and Client use the device key.
abbrev pub is_configuration : ℕ → Bool
is_configuration model_id = model_id == 0x0000 || model_id == 0x0001

unfoldable pub bind_sig_models : ℕ → ℕ → ℕ → List ℕ → Exec Mesh (Unit {0})
bind_sig_models address index element_address [] = pure tt
bind_sig_models address index element_address (m ∷ rest) =
    let more = bind_sig_models address index element_address rest in
    if is_configuration m then more else (try_bind address index element_address (sig m) >> more)

unfoldable pub bind_vendor_models : ℕ → ℕ → ℕ → List (ℕ × ℕ) → Exec Mesh (Unit {0})
bind_vendor_models address index element_address [] = pure tt
bind_vendor_models address index element_address ((company, m) ∷ rest) = do
  try_bind address index element_address (vendor company m)
  bind_vendor_models address index element_address rest

unfoldable pub bind_elements : ℕ → ℕ → List Element → Exec Mesh (Unit {0})
bind_elements address index [] = pure tt
bind_elements address index (e ∷ rest) = do
  bind_sig_models address index e.address e.sig_models
  bind_vendor_models address index e.address e.vendor_models
  bind_elements address index rest

unfoldable pub bind_all_models : ℕ → CompositionData → ℕ → Exec Mesh (Unit {0})
unfolding bind_elements
bind_all_models address composition app_key_index =
    bind_elements address app_key_index composition.elements
