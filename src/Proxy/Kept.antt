-- ===== src/Proxy/Kept.antt =====
-- What the receive path leaves as it is: the network keys, the IV Index and the client's address. No
-- replay mark falls (custom_components/amaran_ble/amaranble/proxy.py).
use ha_amaran_ble.Network.Reassembler.{Reassembler}
use ha_amaran_ble.Proxy.Invariant.{handle_message_holds, on_proxy_pdu_holds}
use ha_amaran_ble.Base.{
  ℕ, ◌≡◌, Bool, true, false, Option, none, some, List, [], ◌∷◌, Result, ok, err, ◌==◌,
  if◌then◌else◌,
}
use ha_amaran_ble.Base.Bits.{low_bits}
use ha_amaran_ble.Base.Bytes.{Bytes}
use ha_amaran_ble.Base.Dict.{get, nat_Eq}
use ha_amaran_ble.Crypto.{Cipher}
use ha_amaran_ble.Network.{NetworkMessage, decode_network_pdu}
use ha_amaran_ble.Network.Segments.{SegmentAck, parse_segment_ack}
use ha_amaran_ble.Proxy.{
  PendingSegmentAck, Client, Output, is_replay, remember_sequence, ignores, accept_ack, handle_ack,
  handle_control, handle_message, handle_network,
}
use ha_amaran_ble.Proxy.Marks.{
  Keeps, Keeps-refl, Keeps-trans, remember_sequence-Keeps, pending_ack-Keeps, reassembler-Keeps,
  filter_status-Keeps,
}
use ha_amaran_ble.Proxy.Filter.{on_proxy_pdu}

Keeps-if :
    (c : Client) (b : Bool) (x y : List Output × Client)
    → Keeps c x.1
    → Keeps c y.1
    → Keeps c (if b then x else y).1
Keeps-if c true x y h k = h
Keeps-if c false x y h k = k

accept_ack-Keeps :
    (c : Client) (m : NetworkMessage) (ack : SegmentAck) (p : Option PendingSegmentAck)
    → Keeps c (accept_ack c m ack p).1
accept_ack-Keeps c m ack none = Keeps-refl c
accept_ack-Keeps c m ack (some p) =
    Keeps-if c (ignores c m ack p) ([], c) _ (Keeps-refl c)
      (Keeps-trans c (remember_sequence c m.src m.seq) _ (remember_sequence-Keeps c m.src m.seq)
        (pending_ack-Keeps (remember_sequence c m.src m.seq) _))

handle_ack-Keeps :
    (c : Client) (m : NetworkMessage) (r : Result SegmentAck) → Keeps c (handle_ack c m r).1
handle_ack-Keeps c m (err e) = Keeps-refl c
handle_ack-Keeps c m (ok ack) = accept_ack-Keeps c m ack (get ack.seq_zero c.pending_ack)

handle_control-Keeps :
    (c : Client) (m : NetworkMessage) (first : ℕ) (rest : Bytes)
    → Keeps c (handle_control c m first rest).1
unfolding handle_control
handle_control-Keeps c m first rest = Keeps-if c (is_replay c m.src m.seq) _ _ (Keeps-refl c) (
    Keeps-if c (low_bits first 7 == 0) _ _ (handle_ack-Keeps c m (parse_segment_ack rest))
      (Keeps-refl c))

module _ (c0 : Client) where
  remembers : (c : Client) (src seq : ℕ) → Keeps c0 c → Keeps c0 (remember_sequence c src seq)
  remembers c src seq h = Keeps-trans c0 c _ h (remember_sequence-Keeps c src seq)

  reassembles :
      (c : Client) (r : Reassembler) → Keeps c0 c → Keeps c0 (record c { reassembler = r })
  reassembles c r h = Keeps-trans c0 c _ h (reassembler-Keeps c r)

  completes :
      (c : Client) (o : Option Bool) → Keeps c0 c → Keeps c0 (record c { filter_status = o })
  completes c o h = Keeps-trans c0 c _ h (filter_status-Keeps c o)

  controls :
      (c : Client) (m : NetworkMessage) (first : ℕ) (rest : Bytes)
      → Unit {0}
      → m.transport_pdu ≡ first ∷ rest
      → (m.ctl == 0) ≡ false
      → Keeps c0 c
      → Keeps c0 (handle_control c m first rest).1
  controls c m first rest good e control h =
      Keeps-trans c0 c _ h (handle_control-Keeps c m first rest)

pub handle_message-Keeps :
    (cipher : Cipher) (c : Client) (now : ℕ) (m : Result NetworkMessage)
    → Keeps c (handle_message cipher c now m).1
handle_message-Keeps cipher c now m =
    handle_message_holds (Keeps c) (λ _. Unit {0}) (remembers c) (reassembles c) (completes c)
      (controls c) cipher c now m (λ _ _. tt) (Keeps-refl c)

pub handle_network-Keeps :
    (cipher : Cipher) (c : Client) (payload : Bytes) (now : ℕ)
    → Keeps c (handle_network cipher c payload now).1
unfolding handle_network
handle_network-Keeps cipher c payload now =
    handle_message-Keeps cipher c now (decode_network_pdu cipher c.keys c.iv_index false payload)

pub on_proxy_pdu-Keeps :
    (cipher : Cipher) (c : Client) (msg_type : ℕ) (payload : Bytes) (now : ℕ)
    → Keeps c (on_proxy_pdu cipher c msg_type payload now).1
on_proxy_pdu-Keeps cipher c msg_type payload now =
    on_proxy_pdu_holds (Keeps c) (λ _. Unit {0}) (remembers c) (reassembles c) (completes c)
      (controls c) cipher c msg_type payload now (λ _ _. tt) (Keeps-refl c)
