-- ===== src/Proxy/Marks.antt =====
-- The replay marks, and what raises them.
use ha_amaran_ble.Base.{
  ℕ, ◌+◌, ◌≤◌, ◌<◌, ◌≡◌, refl, sym, ◌∙◌, Bool, false, Bool-cases, inl, inr, Option, none, some,
  ◌==◌, arith, ==_refl,
}
use ha_amaran_ble.Base.Dict.{get, nat_Eq, get-put, Dict}
use ha_amaran_ble.Network.Reassembler.{Reassembler}
use ha_amaran_ble.Proxy.{PendingSegmentAck, Client, not_above, raised, is_replay, remember_sequence}

-- The first sequence number of a source that is not a replay.
abbrev pub mark_of : Option ℕ → ℕ
mark_of none = 0
mark_of (some previous) = previous + 1

unfoldable pub mark : Client → ℕ → ℕ
mark c src = mark_of (get src c.replay_list)

pub not_above-mark_of : (o : Option ℕ) (seq : ℕ) → not_above o seq ≡ false → mark_of o ≤ seq
not_above-mark_of none seq h = omega arith
not_above-mark_of (some previous) seq h = ground arith

pub is_replay-mark : (c : Client) (src seq : ℕ) → is_replay c src seq ≡ false → mark c src ≤ seq
unfolding is_replay mark
is_replay-mark c src seq h = not_above-mark_of (get src c.replay_list) seq h

pub mark_of-raised :
    (o : Option ℕ) (seq : ℕ) → (mark_of o ≤ raised o seq + 1) × (seq ≤ raised o seq)
mark_of-raised none seq = (omega arith, omega arith)
mark_of-raised (some previous) seq = (omega arith, omega arith)

pub mark-remember_sequence :
    (c : Client) (src seq s : ℕ) → mark c s ≤ mark (remember_sequence c src seq) s
unfolding mark remember_sequence
mark-remember_sequence c src seq s =
    let (above, least) = mark_of-raised (get src c.replay_list) seq in
    rw (get-put src s (raised (get src c.replay_list) seq) c.replay_list)
      (elim (Bool-cases (src == s)) [
        | inl e ↦ let same : src ≡ s = ground arith in rw (e, sym same) (omega arith)
        | inr e ↦ rw e (omega arith)
      ])

pub mark-remembered : (c : Client) (src seq : ℕ) → seq < mark (remember_sequence c src seq) src
unfolding mark remember_sequence
mark-remembered c src seq =
    rw (get-put src src (raised (get src c.replay_list) seq) c.replay_list, ==_refl src)
      (omega (arith, mark_of-raised (get src c.replay_list) seq))

-- What the receive path never changes, and the marks, which do not fall.
pub record Keeps (c c' : Client) : Type 0 where
  pub keys : c'.keys ≡ c.keys
  pub iv_index : c'.iv_index ≡ c.iv_index
  pub local_address : c'.local_address ≡ c.local_address
  pub marks : (src : ℕ) → mark c src ≤ mark c' src

pub Keeps-refl : (c : Client) → Keeps c c
Keeps-refl c = record {
  keys = refl;
  iv_index = refl;
  local_address = refl;
  marks = λ src. omega arith;
}

pub Keeps-trans : (c c' c'' : Client) → Keeps c c' → Keeps c' c'' → Keeps c c''
Keeps-trans c c' c'' h k = record {
  keys = k.keys ∙ h.keys;
  iv_index = k.iv_index ∙ h.iv_index;
  local_address = k.local_address ∙ h.local_address;
  marks = λ src. omega (arith, h.marks src, k.marks src);
}

pub remember_sequence-Keeps : (c : Client) (src seq : ℕ) → Keeps c (remember_sequence c src seq)
unfolding remember_sequence
remember_sequence-Keeps c src seq = record {
  keys = refl;
  iv_index = refl;
  local_address = refl;
  marks = λ s. mark-remember_sequence c src seq s;
}

-- Neither the acknowledgements awaited, nor the reassembler, nor the filter status are among them.
pub pending_ack-Keeps :
    (c : Client) (d : Dict ℕ PendingSegmentAck) → Keeps c (record c { pending_ack = d })
unfolding mark
pending_ack-Keeps c d = record {
  keys = refl;
  iv_index = refl;
  local_address = refl;
  marks = λ s. omega arith;
}

pub reassembler-Keeps : (c : Client) (r : Reassembler) → Keeps c (record c { reassembler = r })
unfolding mark
reassembler-Keeps c r = record {
  keys = refl;
  iv_index = refl;
  local_address = refl;
  marks = λ s. omega arith;
}

pub filter_status-Keeps :
    (c : Client) (status : Option Bool) → Keeps c (record c { filter_status = status })
unfolding mark
filter_status-Keeps c status = record {
  keys = refl;
  iv_index = refl;
  local_address = refl;
  marks = λ s. omega arith;
}
