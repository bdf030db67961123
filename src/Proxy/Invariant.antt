-- ===== src/Proxy/Invariant.antt =====
-- What every step of the receive path keeps holds after whatever arrives
-- (custom_components/amaran_ble/amaranble/proxy.py): `Inv` of the client, where each control message
-- keeps it that comes from a `Good` network message.
use ha_amaran_ble.Network.Reassembler.{Reassembler, Pair, AddResult, add, completed_ack}
use ha_amaran_ble.Base.{
  ℕ, ◌≡◌, refl, Bool, true, false, Bool-cases, inl, inr, Option, none, some, List, [], ◌∷◌, Result,
  ok, err, ◌==◌, if◌then◌else◌,
}
use ha_amaran_ble.Base.Bits.{shr, low_bits}
use ha_amaran_ble.Base.Bytes.{Bytes}
use ha_amaran_ble.Base.Dict.{nat_Eq}
use ha_amaran_ble.Crypto.{Cipher}
use ha_amaran_ble.Network.{NetworkMessage, decode_network_pdu}
use ha_amaran_ble.Network.Segments.{AccessSegment, parse_access_segment}
use ha_amaran_ble.Proxy.{
  Client, Output, is_replay, remember_sequence, decrypt_and_dispatch, handle_control, handle_added,
  handle_result, handle_segment, handle_lower, handle_message, handle_network, AccessMessage,
  dispatch, try_keys, candidates,
}
use ha_amaran_ble.Gatt.{type_network, type_proxy_configuration}
use ha_amaran_ble.Proxy.Filter.{
  completed, is_filter_status, accept_status, accept_config, handle_proxy_config, on_proxy_pdu,
}

module _ (Inv : Client → Type 0) (Good : NetworkMessage → Type 0)
    (remembers : (c : Client) (src seq : ℕ) → Inv c → Inv (remember_sequence c src seq))
    (reassembles : (c : Client) (r : Reassembler) → Inv c → Inv (record c { reassembler = r }))
    (completes : (c : Client) (o : Option Bool) → Inv c → Inv (record c { filter_status = o }))
    (controls : (c : Client) (m : NetworkMessage) (first : ℕ) (rest : Bytes)
      → Good m
      → m.transport_pdu ≡ first ∷ rest
      → (m.ctl == 0) ≡ false
      → Inv c
      → Inv (handle_control c m first rest).1) where
  either : (b : Bool) (x y : List Output × Client) → Inv x.1 → Inv y.1 → Inv (if b then x else y).1
  either true x y h k = h
  either false x y h k = k

  dispatch_holds :
      (c : Client) (src seq : ℕ) (found : Option AccessMessage)
      → Inv c
      → Inv (dispatch c src seq found).1
  dispatch_holds c src seq none h = h
  dispatch_holds c src seq (some message) h = remembers c src seq h

  decrypt_and_dispatch_holds :
      (cipher : Cipher) (c : Client) (m : NetworkMessage) (upper : Bytes)
      (akf aid szmic seq_auth seq : ℕ)
      → Inv c
      → Inv (decrypt_and_dispatch cipher c m upper akf aid szmic seq_auth seq).1
  unfolding decrypt_and_dispatch
  decrypt_and_dispatch_holds cipher c m upper akf aid szmic seq_auth seq h =
      dispatch_holds c m.src seq
        (try_keys cipher c m upper szmic seq_auth (candidates c m.src akf aid)) h

  handle_added_holds :
      (cipher : Cipher) (c : Client) (m : NetworkMessage) (seg : AccessSegment) (result : AddResult)
      (upper : Option Bytes) (last : Option ℕ)
      → result.last_segment_seq ≡ last
      → Inv c
      → Inv (handle_added cipher c m seg result upper).1
  handle_added_holds cipher c m seg result none last e h = either (seg.seg_o == seg.seg_n) _ _ h h
  handle_added_holds cipher c m seg result (some upper) none e h = rw e h
  handle_added_holds cipher c m seg result (some upper) (some last) e h = rw e (
      either (is_replay c m.src last) _ _ h
        (decrypt_and_dispatch_holds cipher c m upper seg.akf seg.aid seg.szmic seg.seq_auth last h))

  handle_result_holds :
      (cipher : Cipher) (c : Client) (m : NetworkMessage) (seg : AccessSegment)
      (result : Result AddResult)
      → Inv c
      → Inv (handle_result cipher c m seg result).1
  handle_result_holds cipher c m seg (err e) h = h
  handle_result_holds cipher c m seg (ok result) h =
      either result.already_complete _ _ h
        (handle_added_holds cipher c m seg result result.upper_pdu result.last_segment_seq refl h)

  handle_segment_holds :
      (cipher : Cipher) (c : Client) (m : NetworkMessage) (now : ℕ) (seg : Result AccessSegment)
      → Inv c
      → Inv (handle_segment cipher c m now seg).1
  handle_segment_holds cipher c m now (err e) h = h
  handle_segment_holds cipher c m now (ok seg) h =
      let pair : Pair = record { src = m.src; dst = m.dst } in
      let acked = completed_ack c.reassembler pair seg.seq_auth now in
      let added = add acked.1 pair m.seq seg now in
      either (is_replay c m.src m.seq) _ _ (reassembles c acked.1 h) (
        handle_result_holds cipher (record c { reassembler = added.1 }) m seg added.0
          (reassembles c added.1 h))

  handle_lower_holds :
      (cipher : Cipher) (c : Client) (m : NetworkMessage) (now : ℕ) (lower : Bytes)
      → m.transport_pdu ≡ lower
      → Good m
      → Inv c
      → Inv (handle_lower cipher c m now lower).1
  handle_lower_holds cipher c m now [] e good h = h
  handle_lower_holds cipher c m now (first ∷ rest) e good h = elim (Bool-cases (m.ctl == 0)) [
    | inl access ↦ rw access (
        either (low_bits (shr first 7) 1 == 1) _ _
          (handle_segment_holds cipher c m now (parse_access_segment m.seq (first ∷ rest)) h)
          (either (is_replay c m.src m.seq) _ _ h
            (decrypt_and_dispatch_holds cipher c m rest _ _ 0 m.seq m.seq h)))
    | inr control ↦ rw control (controls c m first rest good e control h)
  ]

  pub handle_message_holds :
      (cipher : Cipher) (c : Client) (now : ℕ) (m : Result NetworkMessage)
      → ((message : NetworkMessage) → m ≡ ok message → Good message)
      → Inv c
      → Inv (handle_message cipher c now m).1
  handle_message_holds cipher c now (err e) good h = h
  handle_message_holds cipher c now (ok m) good h =
      either (m.src == c.local_address) _ _ h
        (handle_lower_holds cipher c m now m.transport_pdu refl (good m refl) h)

  accept_status_holds : (c : Client) (m : NetworkMessage) → Inv c → Inv (accept_status c m)
  accept_status_holds c m h = elim (Bool-cases (is_replay c m.src m.seq)) [
    | inl e ↦ rw e h
    | inr e ↦ elim (Bool-cases (is_filter_status m.transport_pdu)) [
      | inl f ↦
          rw (e, f)
            (completes (remember_sequence c m.src m.seq) (completed c.filter_status)
              (remembers c m.src m.seq h))
      | inr f ↦ rw (e, f) h
    ]
  ]

  accept_config_holds : (c : Client) (m : Result NetworkMessage) → Inv c → Inv (accept_config c m)
  accept_config_holds c (err e) h = h
  accept_config_holds c (ok m) h = accept_status_holds c m h

  pub on_proxy_pdu_holds :
      (cipher : Cipher) (c : Client) (msg_type : ℕ) (payload : Bytes) (now : ℕ)
      → ((message : NetworkMessage)
          → decode_network_pdu cipher c.keys c.iv_index false payload ≡ ok message
          → Good message)
      → Inv c
      → Inv (on_proxy_pdu cipher c msg_type payload now).1
  unfolding on_proxy_pdu handle_proxy_config handle_network
  on_proxy_pdu_holds cipher c msg_type payload now good h =
      either (msg_type == type_proxy_configuration) _ _
        (accept_config_holds c (decode_network_pdu cipher c.keys c.iv_index true payload) h)
        (either (msg_type == type_network) _ _
          (handle_message_holds cipher c now
            (decode_network_pdu cipher c.keys c.iv_index false payload) good h)
          h)
