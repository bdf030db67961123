-- ===== src/Config/AppKey.antt =====
-- What a configuration client takes for the answer to a key
-- (custom_components/amaran_ble/amaranble/config_client.py, `add_app_key`).
use mathlib.Core.List.{Memᴰ}
use ha_amaran_ble.Base.{
  ℕ, List, ◌+◌, ◌≤◌, length, length-append, ◌≡◌, true, [], ◌∷◌, ◌++◌, ok, arith,
}
use ha_amaran_ble.Base.Bytes.{Bytes, slice, same_bytes_iff}
use ha_amaran_ble.Base.Exec.{Ensures, Ensures-then_do, Ensures-lift, Ensures-last}
use ha_amaran_ble.Proxy.{AccessMessage}
use ha_amaran_ble.Proxy.Requests.{Mesh, matches, request, request-Answers}
use ha_amaran_ble.Config.{pack_key_indexes, check_status}
use ha_amaran_ble.Config.Client.{appkey_request, appkey_status, status_of, add_app_key}

-- The node's own report that it holds the key under these indexes.
pub record Confirms (address : ℕ) (key_indexes : Bytes) (reply : AccessMessage) : Type 0 where
  pub src : reply.src ≡ address
  pub opcode : reply.opcode ≡ appkey_status
  pub indexes : slice 1 4 reply.parameters ≡ key_indexes
  pub status : status_of reply.parameters ≡ 0

confirms :
    (address : ℕ) (key_indexes app_key : Bytes) (reply : AccessMessage)
    → matches (appkey_request address key_indexes app_key) reply ≡ true
    → check_status (status_of reply.parameters) ≡ ok tt
    → Confirms address key_indexes reply
unfolding matches check_status
confirms address key_indexes app_key reply m s = record {
  src = ground arith;
  opcode = ground arith;
  indexes = ground (arith, same_bytes_iff (slice 1 4 reply.parameters) key_indexes);
  status = ground arith;
}

-- Whatever the mesh does, adding an application key returns only if, among the messages that were
-- dispatched to its one request, there is a report of the node itself of success for exactly the key
-- indexes that were sent. Where it raises, it made one request at most.
pub add_app_key_confirmed :
    (address : ℕ) (app_key : Bytes) (net_key_index app_key_index : ℕ) (mesh : Mesh)
    → Ensures
        (λ _ mesh'.
          (key_indexes : Bytes) × (reply : AccessMessage) × (messages : List AccessMessage)
          × (pack_key_indexes net_key_index app_key_index ≡ ok key_indexes)
          × (mesh.outcomes ≡ ok messages ∷ mesh'.outcomes)
          × Memᴰ reply messages
          × Confirms address key_indexes reply
          × (mesh'.requests ≡ mesh.requests ++ (appkey_request address key_indexes app_key ∷ [])))
        (λ mesh'. length mesh'.requests ≤ length mesh.requests + 1)
        (add_app_key address app_key net_key_index app_key_index mesh)
unfolding add_app_key
add_app_key_confirmed address app_key net_key_index app_key_index mesh =
    Ensures-lift (pack_key_indexes net_key_index app_key_index) _ _ _ mesh (omega arith)
      (λ key_indexes packed.
        let r = appkey_request address key_indexes app_key in
        Ensures-then_do (request r mesh) _ _ _ _ _ (request-Answers r mesh)
          (λ mesh' e. rw e (omega (arith, length-append mesh.requests (r ∷ []))))
          (λ reply mesh' h.
            Ensures-last (check_status (status_of reply.parameters)) _ _ mesh'
              (rw h.asked (omega (arith, length-append mesh.requests (r ∷ []))))
              (λ done success. (
                key_indexes,
                reply,
                h.messages,
                packed,
                h.dispatched,
                h.among,
                confirms address key_indexes app_key reply h.matching success,
                h.asked,
              ))))
