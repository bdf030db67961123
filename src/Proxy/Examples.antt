-- ===== src/Proxy/Examples.antt =====
-- A client that has just connected.
use ha_amaran_ble.Base.{
  ℕ, ◌+◌, ◌≤◌, ◌≡◌, refl, false, none, List, [], ◌∷◌, Result, ok, err, proxy_error, All, replicate,
  arith, ◌*◌, ◌⊎◌, true, some, leb, length,
}
use ha_amaran_ble.Base.Exec.{Ensures}
use ha_amaran_ble.Gatt.{send, frames_from, max_proxy_message_length}
use ha_amaran_ble.Proxy.Sending.{Arrival, Link, Pause, Sending, next_seq, transmit, arrive}
use ha_amaran_ble.Proxy.Sending.Segmented.{attempts, put_pending, new_pending, send_round, wait_ack}
use ha_amaran_ble.Proxy.Sending.Heard.{AreHeard}
use ha_amaran_ble.Proxy.Sending.Outcome.{attempts_outcome}
use ha_amaran_ble.Proxy.Sending.Access.{Options}
use ha_amaran_ble.Proxy.Sending.Fresh.{Rises}
use ha_amaran_ble.Proxy.Filter.{on_proxy_pdu}
use ha_amaran_ble.Proxy.Session.{
  IsCarrying, Call, access, subscribe, acknowledge, connected, run, run-Rises,
}
use ha_amaran_ble.Proxy.Control.Parameters.{ack_parameters, parse-ack_parameters}
use ha_amaran_ble.Network.Segments.{parse_segment_ack}
use ha_amaran_ble.Base.Bytes.{Bytes, to_bytes_big}
use ha_amaran_ble.Base.Dict.{get, put, nat_Eq}
use ha_amaran_ble.Crypto.{network_nonce, transport_nonce, obfuscation_ecb}
use ha_amaran_ble.Network.{
  NetworkMessage, encode_network_pdu, decode_network_pdu, decrypt_access_payload,
}
use ha_amaran_ble.Network.Opcodes.{decode_opcode}
use ha_amaran_ble.Crypto.Plain.{plain_cipher, plain_cipher-IsCipher}
use ha_amaran_ble.Proxy.{
  AccessMessage, handle_control, Client, handle_network, decrypt_and_dispatch, try_keys, is_replay,
  remember_sequence,
}
use ha_amaran_ble.Proxy.Replay.{receive_all, messages_of, handle_network_once}

abbrev client : Client
client = record {
  keys = record { nid = 0x68; encryption_key = replicate 16 1; privacy_key = replicate 16 0 };
  app_key = replicate 16 3;
  aid = 0x26;
  device_keys = (5, replicate 16 4) ∷ [];
  local_address = 1;
  iv_index = 0;
  replay_list = (5, 3) ∷ [];
  reassembler = record {
    timeout = 10;
    max_pending = 32;
    max_completed = 64;
    pending = [];
    completed = [];
    discarded = [];
  };
  pending_ack = [];
  filter_status = none;
}

-- Node 5 answers with opcode 0x26 under sequence number 7, whose PDU is relayed twice.
abbrev relayed : Bytes
relayed =
    0x68 ∷ 0x05 ∷ 0 ∷ 0 ∷ 7 ∷ 0 ∷ 5 ∷ 0 ∷ 1 ∷ 0x66 ∷ 0x26 ∷ 1 ∷ 0 ∷ 0 ∷ 0 ∷ 0 ∷ 0 ∷ 0 ∷ 0 ∷ 0 ∷ []

abbrev relayed_message : NetworkMessage
relayed_message = record {
  ctl = 0;
  ttl = 5;
  seq = 7;
  src = 5;
  dst = 1;
  transport_pdu = 0x66 ∷ 0x26 ∷ 1 ∷ 0 ∷ 0 ∷ 0 ∷ 0 ∷ [];
}

abbrev relayed_access : AccessMessage
relayed_access = record { src = 5; dst = 1; opcode = 0x26; parameters = 1 ∷ []; device_key = false }

relayed_read :
    decode_network_pdu plain_cipher client.keys client.iv_index false relayed ≡ ok relayed_message
unfolding decode_network_pdu network_nonce obfuscation_ecb to_bytes_big
relayed_read = refl

relayed_given : messages_of (handle_network plain_cipher client relayed 1).0 ≡ relayed_access ∷ []
unfolding handle_network decode_network_pdu network_nonce obfuscation_ecb to_bytes_big
    decrypt_and_dispatch try_keys decrypt_access_payload transport_nonce decode_opcode is_replay
    remember_sequence get put
relayed_given = refl

-- It comes a second time, after one more copy.
handle_network_once_example :
    messages_of
      (handle_network plain_cipher
        (receive_all plain_cipher
          (handle_network plain_cipher client relayed 1).1
          ((relayed, 2) ∷ [])).1
        relayed
        3).0
    ≡ []
handle_network_once_example =
    handle_network_once plain_cipher client relayed 1 relayed_message relayed_access relayed_read
      refl relayed_given ((relayed, 2) ∷ []) relayed 3 relayed_message relayed_read refl
      (omega arith)

abbrev options : Options
options = record { device_key_for = none; ttl = 7; retries = 2 }

-- The filter set-up, a message of twenty octets, which takes segments, and an acknowledgement.
abbrev calls : List Call
calls = subscribe (0xC000 ∷ []) ∷ access 5 0x26 (replicate 20 9) options ∷ acknowledge 5 7 1 ∷ []

abbrev no_hook : ℕ → Result (Unit {0})
no_hook sequence = ok tt

-- Two numbers are taken during the first write, and the second one fails.
abbrev pauses : List Pause
pauses = record { taken = 2; result = ok tt } ∷ record { taken = 0; result = err proxy_error } ∷ []

run-Rises_example :
    Rises 40
      (run plain_cipher no_hook calls (connected client 40 [] pauses)).sent
      (run plain_cipher no_hook calls (connected client 40 [] pauses)).sequence
    × All
        (IsCarrying plain_cipher client)
        (run plain_cipher no_hook calls (connected client 40 [] pauses)).sent
run-Rises_example =
    run-Rises plain_cipher plain_cipher-IsCipher client (omega arith) (omega arith) no_hook 40 []
      pauses calls

parse-ack_parameters_example :
    (params : Bytes) × (ack_parameters 7 3 ≡ ok params)
    × (parse_segment_ack params ≡ ok (record { seq_zero = 7; block_ack = 3; obo = false }))
parse-ack_parameters_example = parse-ack_parameters 7 3 (omega arith) (omega arith)

-- Two segments for node 5, from which nothing is heard.
abbrev sending : Sending
sending = record {
  cipher = plain_cipher;
  before_sequence = no_hook;
  dst = 5;
  ttl = 7;
  key = replicate 16 3;
  akf = 1;
  aid = 0x26;
  use_device_key = false;
}

abbrev two_segments : List (ℕ × Bytes)
two_segments = (0, replicate 16 1) ∷ (1, replicate 16 2) ∷ []

-- Node 5 acknowledges both segments of the transaction 40.
abbrev acknowledgement : Arrival
acknowledgement = record {
  msg_type = 0;
  payload =
      (0x68 ∷ 0x85 ∷ 0 ∷ 0 ∷ 9 ∷ 0 ∷ 5 ∷ 0 ∷ 1 ∷ 0 ∷ 0 ∷ 0xA0 ∷ 0 ∷ 0 ∷ 0 ∷ 3 ∷ replicate 8 0);
  now = 1;
}

-- The transaction has just begun.
abbrev sending_from : Link
sending_from =
    put_pending 40 (new_pending 5 2)
      (connected client 41 (record { arrivals = acknowledgement ∷ []; taken = 0 } ∷ []) [])

sending_begins : get 40 sending_from.client.pending_ack ≡ some (new_pending 5 2)
unfolding get put
sending_begins = refl

attempts_outcome_example :
    Ensures
      (λ _ s'.
        ((leb 0x8000 5 ≡ true)
          ⊎ AreHeard plain_cipher sending_from.client sending_from.waits 5 40 two_segments)
        × (length s'.sent ≤ 0 + 4 * 2))
      (λ s'. length s'.sent ≤ 0 + 4 * 2)
      (attempts sending 40 two_segments 4 (some 40) two_segments sending_from)
attempts_outcome_example =
    attempts_outcome sending 40 two_segments 4 (some 40) sending_from sending_begins

-- The acknowledgement ends it after two PDUs.
both_heard : (attempts sending 40 two_segments 4 (some 40) two_segments sending_from).0 ≡ ok tt
unfolding attempts send_round transmit next_seq arrive wait_ack encode_network_pdu network_nonce
    obfuscation_ecb to_bytes_big send frames_from max_proxy_message_length get put on_proxy_pdu
    handle_network decode_network_pdu handle_control is_replay parse_segment_ack remember_sequence
both_heard = refl

-- It is given up after four rounds of both.
eight_sent :
    length
      (attempts sending 40 two_segments 4 (some 40) two_segments (connected client 41 [] [])).1.sent
    ≡ 8
unfolding attempts send_round transmit next_seq arrive wait_ack encode_network_pdu network_nonce
    obfuscation_ecb to_bytes_big send frames_from max_proxy_message_length get put
eight_sent = refl
