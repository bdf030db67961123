-- ===== src/Proxy/Session.antt =====
-- One proxy session as its calls follow each other: messages out, the filter set-up, and the
-- acknowledgements that the receive path schedules (custom_components/amaran_ble/amaranble/proxy.py).
-- A call that raises ends, and the session goes on with the next one.
use ha_amaran_ble.Base.{◌≡◌, refl, ◌<◌, ◌^◌, Bool, All, ℕ, arith, List, [], ◌∷◌, Result, ok, err}
use ha_amaran_ble.Base.Bytes.{Bytes}
use ha_amaran_ble.Base.Exec.{Exec, Ensures}
use ha_amaran_ble.Crypto.{Cipher, IsCipher}
use ha_amaran_ble.Network.{NetworkMessage, decode_network_pdu}
use ha_amaran_ble.Network.RoundTrip.{decode-encoded}
use ha_amaran_ble.Proxy.{Client}
use ha_amaran_ble.Proxy.Control.{send_segment_ack, setup_filter}
use ha_amaran_ble.Proxy.Control.Fresh.{send_segment_ack-IsFresh, setup_filter-IsFresh}
use ha_amaran_ble.Proxy.Sending.{Link, Meantime, Pause, Sent}
use ha_amaran_ble.Proxy.Sending.Access.{Options, send_access}
use ha_amaran_ble.Proxy.Sending.Fresh.{Origin, Rises, IsEncoded, IsFresh}
use ha_amaran_ble.Proxy.Sending.FreshAccess.{send_access-IsFresh}

pub data Call : Type 0 where
  access : ℕ → ℕ → Bytes → Options → Call
  subscribe : List ℕ → Call
  acknowledge : ℕ → ℕ → ℕ → Call

abbrev pub after : Result (Unit {0}) × Link → Link
after (r, s) = s

abbrev pub connected : Client → ℕ → List Meantime → List Pause → Link
connected c sequence waits pauses = record {
  client = c;
  sequence = sequence;
  waits = waits;
  pauses = pauses;
  sent = [];
}

module _ (cipher : Cipher) (before_sequence : ℕ → Result (Unit {0})) where
  unfoldable pub perform : Call → Exec Link (Unit {0})
  perform (access dst opcode parameters o) =
      send_access cipher before_sequence dst opcode parameters o
  perform (subscribe addresses) = setup_filter cipher before_sequence addresses
  perform (acknowledge dst seq_zero block_ack) =
      send_segment_ack cipher before_sequence dst seq_zero block_ack

  unfoldable pub run : List Call → Link → Link
  run [] s = s
  run (call ∷ rest) s = run rest (after (perform call s))

  after-IsFresh :
      (origin : Origin) (out : Result (Unit {0}) × Link)
      → Ensures (λ _. IsFresh origin) (IsFresh origin) out
      → IsFresh origin (after out)
  after-IsFresh origin (ok done, s) h = h
  after-IsFresh origin (err e, s) h = h

  perform-IsFresh :
      (origin : Origin)
      → cipher ≡ origin.cipher
      → (call : Call) (s : Link) → IsFresh origin s
      → Ensures (λ _. IsFresh origin) (IsFresh origin) (perform call s)
  unfolding perform
  perform-IsFresh origin same (access dst opcode parameters o) s h =
      send_access-IsFresh origin cipher same before_sequence dst opcode parameters o s h
  perform-IsFresh origin same (subscribe addresses) s h =
      setup_filter-IsFresh origin cipher same before_sequence addresses s h
  perform-IsFresh origin same (acknowledge dst seq_zero block_ack) s h =
      send_segment_ack-IsFresh origin cipher same before_sequence dst seq_zero block_ack s h

  run-IsFresh :
      (origin : Origin)
      → cipher ≡ origin.cipher
      → (calls : List Call) (s : Link) → IsFresh origin s
      → IsFresh origin (run calls s)
  unfolding run
  run-IsFresh origin same [] s h = h
  run-IsFresh origin same (call ∷ rest) s h =
      run-IsFresh origin same rest (after (perform call s))
        (after-IsFresh origin (perform call s) (perform-IsFresh origin same call s h))

-- The PDU decodes, under the keys and the IV Index of the client, to a message from its address
-- that carries the sequence number it is listed with.
abbrev pub IsCarrying : Cipher → Client → Sent → Type 0
IsCarrying cipher c p =
    (proxy_config : Bool) × (m : NetworkMessage) × (decode_network_pdu cipher c.keys c.iv_index
        proxy_config p.pdu
      ≡ ok m)
    × (m.seq ≡ p.seq)
    × (m.src ≡ c.local_address)

module _ (cipher : Cipher) (law : IsCipher cipher) (c : Client) (iv_lt : c.iv_index < 2 ^ 32)
    (nid_lt : c.keys.nid < 128) where
  abbrev origin_at : ℕ → Origin
  origin_at sequence = record {
    cipher = cipher;
    keys = c.keys;
    iv_index = c.iv_index;
    local_address = c.local_address;
    sequence = sequence;
  }

  carries :
      (sequence : ℕ) (sent : List Sent)
      → All (IsEncoded (origin_at sequence)) sent
      → All (IsCarrying cipher c) sent
  carries sequence [] h = tt
  carries sequence (p ∷ rest) ((proxy_config, m, e, seq, src), more) = (
    (
      proxy_config,
      m,
      (decode-encoded cipher law c.keys c.iv_index proxy_config m p.pdu iv_lt nid_lt e).1,
      seq,
      src,
    ),
    carries sequence rest more,
  )

  -- The PDUs that the calls of a session write, whatever the calls are and in whatever order, carry
  -- rising sequence numbers, from the one it connected with to below its counter, so that no number
  -- is used twice: each PDU decodes, under the session's keys and IV Index, to a message from the
  -- client with its number. With whatever arrives in the waits, whatever numbers other tasks take at
  -- any write or wait, whichever writes fail and whichever calls raise. The IV Index and the NID have
  -- the width of their fields, and the cipher decrypts what it encrypted.
  pub run-Rises :
      (before_sequence : ℕ → Result (Unit {0})) (sequence : ℕ) (waits : List Meantime)
      (pauses : List Pause) (calls : List Call)
      → Rises sequence
          (run cipher before_sequence calls (connected c sequence waits pauses)).sent
          (run cipher before_sequence calls (connected c sequence waits pauses)).sequence
        × All
            (IsCarrying cipher c)
            (run cipher before_sequence calls (connected c sequence waits pauses)).sent
  run-Rises before_sequence sequence waits pauses calls =
      let final =
        run-IsFresh cipher before_sequence (origin_at sequence) refl calls
          (connected c sequence waits pauses) (omega arith, (refl, refl, refl), tt) in
      (final.0, carries sequence _ final.2)
