-- ===== src/Gatt/Invariant.antt =====
-- What holds of the receiver of custom_components/amaran_ble/amaranble/gatt.py at every moment.
use ha_amaran_ble.Base.{
  ℕ, ◌≤◌, ◌≡◌, refl, true, false, Bool, Bool-cases, inl, inr, ◌||◌, ◌++◌, Option, none, some, List,
  [], ◌∷◌, All, length, length-append, arith, All-append,
}
use ha_amaran_ble.Base.Bytes.{Bytes}
use ha_amaran_ble.Gatt.{
  Receiver, Event, dispatch, disconnect, max_proxy_message_length, notification_handler,
  sar_timed_out, start, stop, receive_all, is_receiving,
}

-- The longest message of a type, 0 where the type is not supported.
abbrev pub limit_of : ℕ → ℕ
limit_of msg_type = elim (max_proxy_message_length msg_type) [ none ↦ 0 | some limit ↦ limit ]

abbrev pub BufferFits : Option ℕ → Bytes → Type 0
BufferFits none buf = length buf ≡ 0
BufferFits (some msg_type) buf = length buf ≤ limit_of msg_type

abbrev pub EventFits : Event → Type 0
EventFits (dispatch msg_type payload) = length payload ≤ limit_of msg_type
EventFits disconnect = Unit {0}

-- The buffer never outgrows its message type, the timer runs exactly during a transfer, and after
-- a failure nothing is being received.
pub record IsValid (r : Receiver) : Type 0 where
  pub buffer : BufferFits r.rx_type r.rx_buf
  pub timer : r.rx_timeout ≡ is_receiving r
  pub quiet : r.protocol_failed ≡ true → is_receiving r ≡ false

-- Any notification keeps the receiver valid, and a message that it passes on fits its type.
pub notification_handler-IsValid :
    (r : Receiver) (frame : Bytes)
    → IsValid r
    → IsValid (notification_handler r frame).0 × All EventFits (notification_handler r frame).1
unfolding notification_handler
notification_handler-IsValid r [] v = (v, tt)
notification_handler-IsValid r (first ∷ body) v = ground (arith, length-append r.rx_buf body)

pub start-IsValid : (r : Receiver) → IsValid (start r)
unfolding start
start-IsValid r = ground arith

pub stop-IsValid : (r : Receiver) → IsValid r → IsValid (stop r)
unfolding stop
stop-IsValid r v = ground arith

pub sar_timed_out-IsValid : (r : Receiver) → IsValid r → IsValid (sar_timed_out r).0
unfolding sar_timed_out
sar_timed_out-IsValid r v = ground arith

-- Whatever arrives, valid frames or not, each message passed on fits its type.
pub receive_all-IsValid :
    (r : Receiver) (frames : List Bytes)
    → IsValid r
    → IsValid (receive_all r frames).0 × All EventFits (receive_all r frames).1
unfolding receive_all
receive_all-IsValid r [] v = (v, tt)
receive_all-IsValid r (frame ∷ rest) v =
    let (v', fit) = notification_handler-IsValid r frame v in
    let (v'', more) = receive_all-IsValid (notification_handler r frame).0 rest v' in
    (
      v'',
      All-append EventFits (notification_handler r frame).1
          (receive_all (notification_handler r frame).0 rest).1 fit more,
    )

handler_failed :
    (r : Receiver) (frame : Bytes)
    → r.protocol_failed ≡ true
    → notification_handler r frame ≡ (r, [])
unfolding notification_handler
handler_failed r [] h = refl
handler_failed r (first ∷ body) h = rw h

receive_all_failed :
    (r : Receiver) (frames : List Bytes) → r.protocol_failed ≡ true → receive_all r frames ≡ (r, [])
unfolding receive_all
receive_all_failed r [] h = refl
receive_all_failed r (frame ∷ rest) h = rw (handler_failed r frame h, receive_all_failed r rest h)

-- A disconnection is among the events.
abbrev pub is_disconnecting : List Event → Bool
is_disconnecting [] = false
is_disconnecting (disconnect ∷ rest) = true
is_disconnecting (dispatch t payload ∷ rest) = is_disconnecting rest

is_disconnecting-append :
    (xs ys : List Event)
    → is_disconnecting (xs ++ ys) ≡ (is_disconnecting xs || is_disconnecting ys)
is_disconnecting-append [] ys = refl
is_disconnecting-append (disconnect ∷ xs) ys = refl
is_disconnecting-append (dispatch t payload ∷ xs) ys = is_disconnecting-append xs ys

handler_disconnects :
    (r : Receiver) (frame : Bytes)
    → is_disconnecting (notification_handler r frame).1 ≡ true
    → (notification_handler r frame).0.protocol_failed ≡ true
unfolding notification_handler
handler_disconnects r [] h = ground arith
handler_disconnects r (first ∷ body) h = ground arith

receive_all_latches :
    (r : Receiver) (frames : List Bytes)
    → is_disconnecting (receive_all r frames).1 ≡ true
    → (receive_all r frames).0.protocol_failed ≡ true
unfolding receive_all
receive_all_latches r [] h = ground arith
receive_all_latches r (frame ∷ rest) h =
    let step = notification_handler r frame in
    elim (Bool-cases (is_disconnecting step.1)) [
      | inl e ↦
          let failed = handler_disconnects r frame e in
          rw (receive_all_failed step.0 rest failed) failed
      | inr e ↦
          receive_all_latches step.0 rest
            (ground (arith, is_disconnecting-append step.1 (receive_all step.0 rest).1))
    ]

-- Once what arrived has made the receiver disconnect, whatever still arrives changes nothing and
-- is not passed on, nor is there a second disconnection.
pub receive_all_disconnected :
    (r : Receiver) (frames more : List Bytes)
    → is_disconnecting (receive_all r frames).1 ≡ true
    → receive_all (receive_all r frames).0 more ≡ ((receive_all r frames).0, [])
receive_all_disconnected r frames more h =
    receive_all_failed (receive_all r frames).0 more (receive_all_latches r frames h)
