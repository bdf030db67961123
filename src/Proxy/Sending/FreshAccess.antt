-- ===== src/Proxy/Sending/FreshAccess.antt =====
-- Access messages go out under numbers of their own
-- (custom_components/amaran_ble/amaranble/proxy.py).
use ha_amaran_ble.Base.{
  ◌≡◌, refl, ◌∙◌, ℕ, Bool, true, false, leb, Option, none, some, ◌++◌, Result, length, max,
}
use ha_amaran_ble.Base.Bytes.{Bytes}
use ha_amaran_ble.Base.Exec.{Ensures, Ensures-then_do, Ensures-lift}
use ha_amaran_ble.Network.Opcodes.{encode_opcode}
use ha_amaran_ble.Base.Dict.{get, nat_Eq}
use ha_amaran_ble.Crypto.{Cipher}
use ha_amaran_ble.Proxy.Sending.{Link, Sending, send_unsegmented}
use ha_amaran_ble.Proxy.Sending.Access.{
  unsegmented_access_max, Options, or_no_key, choose_key, send_either, send_access,
}
use ha_amaran_ble.Proxy.Sending.Fresh.{Origin, IsFresh, repeat_unsegmented-IsFresh}
use ha_amaran_ble.Proxy.Sending.FreshSegmented.{send_segmented-IsFresh}

module _ (origin : Origin) where
  send_either-IsFresh :
      (short : Bool) (a : Sending)
      → a.cipher ≡ origin.cipher
      → (access_pdu : Bytes) (retries : ℕ) (s : Link) → IsFresh origin s
      → Ensures (λ _. IsFresh origin) (IsFresh origin) (send_either short a access_pdu retries s)
  unfolding send_either send_unsegmented
  send_either-IsFresh true a same access_pdu retries s h =
      repeat_unsegmented-IsFresh origin a same access_pdu (max 1 retries) s h
  send_either-IsFresh false a same access_pdu retries s h =
      send_segmented-IsFresh origin a same access_pdu s h

  choose_key-IsFresh :
      (cipher : Cipher) (before_sequence : ℕ → Result (Unit {0})) (dst : ℕ) (o : Options)
      (node : Option ℕ) (s : Link)
      → IsFresh origin s
      → Ensures
          (λ (a : Sending) s'. (a.cipher ≡ cipher) × IsFresh origin s')
          (IsFresh origin)
          (choose_key cipher before_sequence dst o node s)
  choose_key-IsFresh cipher before_sequence dst o none s h = (refl, h)
  choose_key-IsFresh cipher before_sequence dst o (some node) s h =
      Ensures-lift (or_no_key (get node s.client.device_keys)) _ _ _ s h (λ key _. (refl, h))

  pub send_access-IsFresh :
      (cipher : Cipher)
      → cipher ≡ origin.cipher
      → (before_sequence : ℕ → Result (Unit {0})) (dst opcode : ℕ) (parameters : Bytes)
        (o : Options) (s : Link)
      → IsFresh origin s
      → Ensures
          (λ _. IsFresh origin)
          (IsFresh origin)
          (send_access cipher before_sequence dst opcode parameters o s)
  unfolding send_access
  send_access-IsFresh cipher same before_sequence dst opcode parameters o s h =
      Ensures-lift (encode_opcode opcode) _ _ _ s h (λ opcode_bytes _.
        Ensures-then_do (choose_key cipher before_sequence dst o o.device_key_for s) _ _ _ _ _
          (choose_key-IsFresh cipher before_sequence dst o o.device_key_for s h) (λ s' h'. h')
          (λ a s' h'.
            send_either-IsFresh (leb (length (opcode_bytes ++ parameters)) unsegmented_access_max) a
              (h'.0 ∙ same) (opcode_bytes ++ parameters) o.retries s' h'.1))
