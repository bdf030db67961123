-- ===== src/Config/Examples.antt =====
-- A node with one element: a configuration server, a light model and a vendor model.
use mathlib.Core.List.{Memᴰ}
use ha_amaran_ble.Base.{
  List, ◌+◌, ◌≤◌, ◌≡◌, ◌↔◌, refl, true, [], ◌∷◌, ◌++◌, ok, err, proxy_error, length, arith,
}
use ha_amaran_ble.Base.Bytes.{Bytes}
use ha_amaran_ble.Base.Exec.{Ensures}
use ha_amaran_ble.Proxy.{AccessMessage}
use ha_amaran_ble.Proxy.Requests.{Mesh}
use ha_amaran_ble.Config.{CompositionData, parse, pack_key_indexes}
use ha_amaran_ble.Config.Pages.{encode, IsComposition}
use ha_amaran_ble.Config.Composition.{parse_iff}
use ha_amaran_ble.Config.Client.{add_app_key, appkey_request, bind_all_models}
use ha_amaran_ble.Config.AppKey.{Confirms, add_app_key_confirmed}
use ha_amaran_ble.Config.Binding.{requests_for, bind_all_models_requests}

abbrev page : Bytes
page =
    0 ∷ 1 ∷ 2 ∷ 3 ∷ 0 ∷ 4 ∷ 0 ∷ 5 ∷ 0 ∷ 6 ∷ 0 ∷ 0 ∷ 1 ∷ 2 ∷ 1 ∷ 0 ∷ 0 ∷ 0 ∷ 16 ∷ 17 ∷ 2 ∷ 1 ∷ 0 ∷ []

abbrev composition : CompositionData
composition = record {
  company_id = 513;
  product_id = 3;
  version_id = 4;
  crpl = 5;
  features = 6;
  elements =
      record {
        address = 2;
        location = 256;
        sig_models = 0 ∷ 4096 ∷ [];
        vendor_models = (529, 1) ∷ [];
      }
      ∷ [];
}

parse_iff_example :
    (parse page 2 ≡ ok composition) ↔ ((page ≡ encode composition) × IsComposition 2 composition)
parse_iff_example = parse_iff page 2 composition (omega arith)

-- The node answers the first request with success, refuses the second, and is silent then.
abbrev reply : Bytes → AccessMessage
reply parameters = record {
  src = 2;
  dst = 1;
  opcode = 0x8003;
  parameters = parameters;
  device_key = true;
}

abbrev mesh : Mesh
mesh = record {
  outcomes = ok (reply (0 ∷ 0 ∷ 0 ∷ 0 ∷ []) ∷ []) ∷ ok [] ∷ err proxy_error ∷ [];
  requests = [];
}

add_app_key_confirmed_example :
    Ensures
      (λ _ mesh'.
        (key_indexes : Bytes) × (reply : AccessMessage) × (messages : List AccessMessage)
        × (pack_key_indexes 0 0 ≡ ok key_indexes)
        × (mesh.outcomes ≡ ok messages ∷ mesh'.outcomes)
        × Memᴰ reply messages
        × Confirms 2 key_indexes reply
        × (mesh'.requests ≡ mesh.requests ++ (appkey_request 2 key_indexes (7 ∷ []) ∷ [])))
      (λ mesh'. length mesh'.requests ≤ length mesh.requests + 1)
      (add_app_key 2 (7 ∷ []) 0 0 mesh)
add_app_key_confirmed_example = add_app_key_confirmed 2 (7 ∷ []) 0 0 mesh

bind_all_models_requests_example :
    ((bind_all_models 2 composition 0 mesh).0 ≡ ok tt)
    × ((bind_all_models 2 composition 0 mesh).1.requests
        ≡ mesh.requests ++ requests_for 2 0 composition.elements)
bind_all_models_requests_example =
    bind_all_models_requests 2 0 composition mesh (omega arith) (omega arith) (tt, (tt, (refl, tt)))
