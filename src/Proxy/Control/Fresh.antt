-- ===== src/Proxy/Control/Fresh.antt =====
-- Control messages too go out under numbers of their own
-- (custom_components/amaran_ble/amaranble/proxy.py).
use ha_amaran_ble.Base.{◌≡◌, refl, ℕ, true, false, List, [], ◌∷◌, Result, some}
use ha_amaran_ble.Base.Bytes.{Bytes}
use ha_amaran_ble.Base.Exec.{Ensures, Ensures-then_do, Ensures-lift}
use ha_amaran_ble.Crypto.{Cipher}
use ha_amaran_ble.Network.{unassigned_address}
use ha_amaran_ble.Gatt
use ha_amaran_ble.Gatt.{type_network, type_proxy_configuration}
use ha_amaran_ble.Proxy.Control.{
  control_pdu, config_parameters, send_proxy_config, send_segment_ack, setup_filter, wanted,
  set_filter_status, control_opcode_segment_ack, proxy_config_set_filter_type,
  proxy_config_add_addresses,
}
use ha_amaran_ble.Proxy.Control.Parameters.{ack_parameters, address_bytes}
use ha_amaran_ble.Proxy.Filter.{proxy_filter_accept_list}
use ha_amaran_ble.Proxy.Sending.{Link, next_seq, arrive}
use ha_amaran_ble.Proxy.Sending.Fresh.{
  Origin, IsFresh, next_seq-HasNumber, HasNumber-IsFresh, write-IsFresh, arrive-IsFresh,
}

module _ (origin : Origin) (cipher : Cipher) (same : cipher ≡ origin.cipher)
    (before_sequence : ℕ → Result (Unit {0})) where
  send_proxy_config-IsFresh :
      (opcode : ℕ) (params : Bytes) (s : Link)
      → IsFresh origin s
      → Ensures
          (λ _. IsFresh origin)
          (IsFresh origin)
          (send_proxy_config cipher before_sequence opcode params s)
  unfolding send_proxy_config
  send_proxy_config-IsFresh opcode params s h =
      Ensures-then_do (next_seq before_sequence s) _ _ _ _ _
        (next_seq-HasNumber origin before_sequence s h) (λ s' h'. h')
        (λ seq s' h'.
          let fresh = HasNumber-IsFresh origin seq s' h' in
          Ensures-lift
            (control_pdu cipher true s'.client unassigned_address seq
              (config_parameters opcode params))
            _ _ _ s' fresh
            (λ pdu e.
              Ensures-lift (Gatt.send type_proxy_configuration pdu) _ _ _ s' fresh
                (λ frames _. write-IsFresh origin cipher true _ pdu s' h' same refl e)))

  pub send_segment_ack-IsFresh :
      (dst seq_zero block_ack : ℕ) (s : Link)
      → IsFresh origin s
      → Ensures
          (λ _. IsFresh origin)
          (IsFresh origin)
          (send_segment_ack cipher before_sequence dst seq_zero block_ack s)
  unfolding send_segment_ack
  send_segment_ack-IsFresh dst seq_zero block_ack s h =
      Ensures-then_do (next_seq before_sequence s) _ _ _ _ _
        (next_seq-HasNumber origin before_sequence s h) (λ s' h'. h')
        (λ seq s' h'.
          let fresh = HasNumber-IsFresh origin seq s' h' in
          Ensures-lift (ack_parameters seq_zero block_ack) _ _ _ s' fresh (λ params _.
            Ensures-lift
              (control_pdu cipher false s'.client dst seq (control_opcode_segment_ack ∷ params)) _ _
              _ s' fresh
              (λ pdu e.
                Ensures-lift (Gatt.send type_network pdu) _ _ _ s' fresh
                  (λ frames _. write-IsFresh origin cipher false _ pdu s' h' same refl e))))

  pub setup_filter-IsFresh :
      (addresses : List ℕ) (s : Link)
      → IsFresh origin s
      → Ensures
          (λ _. IsFresh origin)
          (IsFresh origin)
          (setup_filter cipher before_sequence addresses s)
  unfolding setup_filter
  setup_filter-IsFresh addresses s h =
      Ensures-then_do
        (send_proxy_config cipher before_sequence proxy_config_set_filter_type
          (proxy_filter_accept_list ∷ []) (set_filter_status (some false) s))
        _ _ _ _ _
        (send_proxy_config-IsFresh proxy_config_set_filter_type (proxy_filter_accept_list ∷ [])
          (set_filter_status (some false) s) h)
        (λ s' h'. h')
        (λ _ s' h'.
          Ensures-then_do (arrive cipher s') _ _ _ _ _ (arrive-IsFresh origin cipher s' h')
            (λ s'' h''. h'')
            (λ status s'' h''.
              Ensures-lift (address_bytes (wanted s'' addresses)) _ _ _ s'' h'' (λ payload _.
                Ensures-then_do
                  (send_proxy_config cipher before_sequence proxy_config_add_addresses payload
                    (set_filter_status (some false) s''))
                  _ _ _ _ _
                  (send_proxy_config-IsFresh proxy_config_add_addresses payload
                    (set_filter_status (some false) s'') h'')
                  (λ s3 h3. h3)
                  (λ _ s3 h3.
                    Ensures-then_do (arrive cipher s3) _ _ _ _ _
                      (arrive-IsFresh origin cipher s3 h3) (λ s4 h4. h4) (λ added s4 h4. h4)))))
