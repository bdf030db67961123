-- ===== src/Proxy/Sending/Fresh.antt =====
-- Every network PDU goes out under a number of its own
-- (custom_components/amaran_ble/amaranble/proxy.py).
use ha_amaran_ble.Base.{
  ◌≡◌, refl, ◌∙◌, Bool, false, ok, All, All-append, ℕ, zero, suc, ◌+◌, ◌≤◌, ◌<◌, not, ltb, Option,
  none, some, List, [], ◌∷◌, ◌++◌, Result, arith, proxy_error,
}
use ha_amaran_ble.Base.Bytes.{Bytes}
use ha_amaran_ble.Base.Exec.{Ensures, Ensures-then_do, Ensures-lift, Ensures-last, Ensures-require}
use ha_amaran_ble.Gatt
use ha_amaran_ble.Gatt.{type_network}
use ha_amaran_ble.Network.Segments.{build_unsegmented_access}
use ha_amaran_ble.Sequence.{max_sequence}
use ha_amaran_ble.Base.Dict.{nat_Eq}
use ha_amaran_ble.Crypto.{Cipher}
use ha_amaran_ble.Network.{NetworkKeys, NetworkMessage, encode_network_pdu}
use ha_amaran_ble.Proxy.{Client}
use ha_amaran_ble.Proxy.Filter.{on_proxy_pdu}
use ha_amaran_ble.Proxy.Marks.{Keeps, Keeps-refl, Keeps-trans}
use ha_amaran_ble.Proxy.Kept.{on_proxy_pdu-Keeps}
use ha_amaran_ble.Proxy.Sending.{
  Arrival, receive, write, Sent, Link, Sending, next_seq, log_sent, pause_of, network_pdu, transmit,
  encrypted, upper_pdu, repeat_unsegmented, meantime_of, arrive,
}

-- The numbers rise, from `low` on and below `high`.
abbrev pub Rises : ℕ → List Sent → ℕ → Type 0
Rises low [] high = low ≤ high
Rises low (p ∷ rest) high = (low ≤ p.seq) × Rises (p.seq + 1) rest high

Rises-weaken :
    (low : ℕ) (sent : List Sent) (high high' : ℕ)
    → high ≤ high'
    → Rises low sent high
    → Rises low sent high'
Rises-weaken low [] high high' le h = omega arith
Rises-weaken low (p ∷ rest) high high' le h = (h.0, Rises-weaken (p.seq + 1) rest high high' le h.1)

Rises-append :
    (low : ℕ) (sent : List Sent) (p : Sent)
    → Rises low sent p.seq
    → Rises low (sent ++ (p ∷ [])) (p.seq + 1)
Rises-append low [] p h = (h, omega arith)
Rises-append low (q ∷ rest) p h = (h.0, Rises-append (q.seq + 1) rest p h.1)

-- What a session starts from, and does not change.
pub record Origin : Type 0 where
  pub cipher : Cipher
  pub keys : NetworkKeys
  pub iv_index : ℕ
  pub local_address : ℕ
  pub sequence : ℕ

receive-Keeps :
    (cipher : Cipher) (c : Client) (arrivals : List Arrival) → Keeps c (receive cipher c arrivals).1
receive-Keeps cipher c [] = Keeps-refl c
receive-Keeps cipher c (arrival ∷ rest) =
    let c' = (on_proxy_pdu cipher c arrival.msg_type arrival.payload arrival.now).1 in
    Keeps-trans c c' _ (on_proxy_pdu-Keeps cipher c arrival.msg_type arrival.payload arrival.now)
      (receive-Keeps cipher c' rest)

module _ (origin : Origin) where
  abbrev pub IsSession : Client → Type 0
  IsSession c =
      (c.keys ≡ origin.keys)
      × (c.iv_index ≡ origin.iv_index)
      × (c.local_address ≡ origin.local_address)

  -- The PDU encodes a message of this client under the number it is listed with.
  abbrev pub IsEncoded : Sent → Type 0
  IsEncoded p =
      (proxy_config : Bool) × (m : NetworkMessage) × (encode_network_pdu origin.cipher origin.keys
          origin.iv_index proxy_config m
        ≡ ok p.pdu)
      × (m.seq ≡ p.seq)
      × (m.src ≡ origin.local_address)

  abbrev pub IsFresh : Link → Type 0
  IsFresh s = Rises origin.sequence s.sent s.sequence × IsSession s.client × All IsEncoded s.sent

  -- The number `seq` was handed out and is not used yet.
  abbrev pub HasNumber : ℕ → Link → Type 0
  HasNumber seq s =
      Rises origin.sequence s.sent seq
      × (seq < s.sequence)
      × IsSession s.client
      × All IsEncoded s.sent

  abbrev pub IsReady : Option ℕ → Link → Type 0
  IsReady none s = IsFresh s
  IsReady (some seq) s = HasNumber seq s

  pub HasNumber-IsFresh : (seq : ℕ) (s : Link) → HasNumber seq s → IsFresh s
  HasNumber-IsFresh seq s h =
      (Rises-weaken origin.sequence s.sent seq s.sequence (omega (arith, h.1)) h.0, h.2, h.3)

  pub next_seq-HasNumber :
      (before_sequence : ℕ → Result (Unit {0})) (s : Link)
      → IsFresh s
      → Ensures HasNumber IsFresh (next_seq before_sequence s)
  unfolding next_seq
  next_seq-HasNumber before_sequence s h =
      Ensures-require (not (ltb max_sequence s.sequence)) proxy_error _ _ _ s h (λ _.
        Ensures-lift (before_sequence s.sequence) _ _ _ s h (λ _ _. (h.0, omega arith, h.1, h.2)))

  -- Writing a PDU uses its number up.
  log_sent-IsFresh :
      (seq : ℕ) (pdu : Bytes) (s : Link)
      → HasNumber seq s
      → IsEncoded (record { seq = seq; pdu = pdu })
      → IsFresh (log_sent seq pdu s)
  log_sent-IsFresh seq pdu s h e = (
    Rises-weaken origin.sequence (s.sent ++ (record { seq = seq; pdu = pdu } ∷ [])) (seq + 1)
        (s.sequence + (pause_of s.pauses).0.taken) (omega (arith, h.1))
        (Rises-append origin.sequence s.sent (record { seq = seq; pdu = pdu }) h.0),
    h.2,
    All-append IsEncoded s.sent (record { seq = seq; pdu = pdu } ∷ []) h.3 (e, tt),
  )

  -- A message of the client, encoded by its cipher, is written.
  pub write-IsFresh :
      (cipher : Cipher) (proxy_config : Bool) (m : NetworkMessage) (pdu : Bytes) (s : Link)
      → HasNumber m.seq s
      → cipher ≡ origin.cipher
      → m.src ≡ s.client.local_address
      → encode_network_pdu cipher s.client.keys s.client.iv_index proxy_config m ≡ ok pdu
      → Ensures (λ _. IsFresh) IsFresh (write m.seq pdu s)
  write-IsFresh cipher proxy_config m pdu s h same src e =
      let keys = h.2.0 in
      let iv_index = h.2.1 in
      let address = h.2.2 in
      let encoded = rw (same, keys, iv_index) at e in
      let fresh = log_sent-IsFresh m.seq pdu s h (proxy_config, m, encoded, refl, src ∙ address) in
      Ensures-last (pause_of s.pauses).0.result _ _ (log_sent m.seq pdu s) fresh (λ _ _. fresh)

  pub transmit-IsFresh :
      (a : Sending)
      → a.cipher ≡ origin.cipher
      → (seq : ℕ) (transport_pdu : Bytes) (s : Link) → HasNumber seq s
      → Ensures (λ _. IsFresh) IsFresh (transmit a seq transport_pdu s)
  unfolding transmit
  transmit-IsFresh a same seq transport_pdu s h =
      let fresh = HasNumber-IsFresh seq s h in
      Ensures-lift (network_pdu a s.client seq transport_pdu) _ _ _ s fresh (λ pdu e.
        Ensures-lift (Gatt.send type_network pdu) _ _ _ s fresh
          (λ frames _. write-IsFresh a.cipher false _ pdu s h same refl e))

  pub repeat_unsegmented-IsFresh :
      (a : Sending)
      → a.cipher ≡ origin.cipher
      → (access_pdu : Bytes) (n : ℕ) (s : Link) → IsFresh s
      → Ensures (λ _. IsFresh) IsFresh (repeat_unsegmented a access_pdu n s)
  unfolding repeat_unsegmented upper_pdu
  repeat_unsegmented-IsFresh a same access_pdu zero s h = h
  repeat_unsegmented-IsFresh a same access_pdu (suc n) s h =
      Ensures-then_do (next_seq a.before_sequence s) _ _ _ _ _
        (next_seq-HasNumber a.before_sequence s h) (λ s' h'. h')
        (λ seq s' h'.
          let fresh = HasNumber-IsFresh seq s' h' in
          Ensures-lift (encrypted a s'.client seq access_pdu) _ _ _ s' fresh (λ upper _.
            Ensures-lift (build_unsegmented_access a.akf a.aid upper) _ _ _ s' fresh
              (λ transport_pdu _.
                Ensures-then_do (transmit a seq transport_pdu s') _ _ _ _ _
                  (transmit-IsFresh a same seq transport_pdu s' h') (λ s'' h''. h'')
                  (λ _ s'' h''. repeat_unsegmented-IsFresh a same access_pdu n s'' h''))))

  pub arrive-IsFresh :
      (cipher : Cipher) (s : Link) → IsFresh s → Ensures (λ _. IsFresh) IsFresh (arrive cipher s)
  unfolding arrive
  arrive-IsFresh cipher s h =
      let waited = (meantime_of s.waits).0 in
      let kept = receive-Keeps cipher s.client waited.arrivals in
      (
        Rises-weaken origin.sequence s.sent s.sequence (s.sequence + waited.taken) (omega arith)
            h.0,
        (kept.keys ∙ h.1.0, kept.iv_index ∙ h.1.1, kept.local_address ∙ h.1.2),
        h.2,
      )
