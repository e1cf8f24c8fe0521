-- ===== src/Ouch/Session.antt =====
-- include/ouch/ouch_session.hpp: the session over a stream of bytes. What the system calls answer is
-- an argument: `whole n` says whether the n-th call of `send` takes all of its buffer. `sent` is
-- what was written whole, and `delivered` what the callbacks were given, oldest first.
pub mod Frames
pub mod Channel
pub mod Token
mod Tests
use hft_trading_system.Prelude.{
  ℕ, zero, suc, ◌+◌, ◌-◌, ◌%◌, Bool, true, false, ◌&&◌, not, Option, none, some, List, [], ◌∷◌,
  ◌++◌, ◌==◌, ltb, leb, if◌then◌else◌, length, take, drop, replicate,
}
use hft_trading_system.Ouch.Bytes.{space, byte_at, write_be16, read_be16, padded}

pub data SessionState : Type 0 where
  disconnected connecting logging_in logged_in disconnecting : SessionState

-- The callback that is called, with the bytes of its message.
pub data Delivery : Type 0 where
  accepted executed canceled rejected replaced : List ℕ → Delivery

-- Which callbacks are set.
pub record Callbacks : Type 0 where
  pub on_accepted : Bool
  pub on_executed : Bool
  pub on_canceled : Bool
  pub on_rejected : Bool
  pub on_replaced : Bool

pub record Session : Type 0 where
  pub socket_open : Bool
  pub state : SessionState
  pub recv_buffer : List ℕ
  pub next_token_id : ℕ
  pub callbacks : Callbacks
  pub delivered : List Delivery
  pub sends : ℕ
  pub sent : List ℕ
  pub bytes_sent : ℕ
  pub bytes_received : ℕ
  pub messages_sent : ℕ
  pub messages_received : ℕ

abbrev pub no_callbacks : Callbacks
no_callbacks = record {
  on_accepted = false;
  on_executed = false;
  on_canceled = false;
  on_rejected = false;
  on_replaced = false;
}

abbrev pub session : Session
session = record {
  socket_open = false;
  state = disconnected;
  recv_buffer = [];
  next_token_id = 1;
  callbacks = no_callbacks;
  delivered = [];
  sends = 0;
  sent = [];
  bytes_sent = 0;
  bytes_received = 0;
  messages_sent = 0;
  messages_received = 0;
}

abbrev pub is_logged_in : SessionState → Bool
is_logged_in logged_in = true
is_logged_in _ = false

abbrev pub is_disconnected : SessionState → Bool
is_disconnected disconnected = true
is_disconnected _ = false

-- One call of `send`, with whether it took the whole buffer.
unfoldable pub send : (ℕ → Bool) → Session → List ℕ → Session × Bool
send whole s bytes =
    if whole s.sends
    then (record s { sends = s.sends + 1; sent = s.sent ++ bytes }, true)
    else (record s { sends = s.sends + 1 }, false)

-- The statistics of a packet that was sent.
abbrev pub count_sent : Session → ℕ → Session
count_sent s len = record s {
  bytes_sent = s.bytes_sent + 3 + len;
  messages_sent = s.messages_sent + 1;
}

-- `send_packet`; a null pointer is the empty list.
unfoldable pub send_packet : (ℕ → Bool) → Session → ℕ → List ℕ → Session × Bool
unfolding send write_be16
send_packet whole s packet_type payload =
    let (s1, header_sent) =
      send whole s (write_be16 ((1 + length payload) % 65536) ++ packet_type ∷ []) in
    if not header_sent
    then (s1, false)
    else if length payload == 0
    then (count_sent s1 0, true)
    else let (s2, data_sent) = send whole s1 payload in
      if data_sent then (count_sent s2 (length payload), true) else (s2, false)

-- The farewell to the server, if there is one to take it.
unfoldable pub log_out : (ℕ → Bool) → Session → Session
unfolding send_packet
log_out whole s =
    if is_logged_in s.state
    then (send_packet whole (record s { state = disconnecting }) 79 []).0
    else s

unfoldable pub disconnect : (ℕ → Bool) → Session → Session
unfolding log_out
disconnect whole s =
    if s.socket_open
    then record (log_out whole s) { socket_open = false; state = disconnected }
    else record s { state = disconnected }

-- `connect`: whether the socket was made and connected is given.
unfoldable pub connect : (ℕ → Bool) → Session → Bool → Bool → List ℕ → List ℕ → Session × Bool
unfolding send_packet disconnect padded
connect whole s made connected username password =
    if not (is_disconnected s.state)
    then (s, false)
    else if not made
    then (record s { socket_open = false; state = disconnected }, false)
    else if not connected
    then (record s { socket_open = false; state = disconnected }, false)
    else let login =
        padded 6 username ++ padded 10 password ++ replicate 10 space ++ replicate 20 space in
      let (s1, ok) =
        send_packet whole (record s { socket_open = true; state = logging_in }) 76 login in
      if ok then (s1, true) else (disconnect whole s1, false)

-- `send_enter_order`, `send_cancel_order` and `send_replace_order`, given the bytes of the message.
unfoldable pub send_order : (ℕ → Bool) → Session → List ℕ → Session × Bool
unfolding send_packet
send_order whole s message =
    if is_logged_in s.state then send_packet whole s 85 message else (s, false)

unfoldable pub send_heartbeat : (ℕ → Bool) → Session → Session × Bool
unfolding send_packet
send_heartbeat whole s = send_packet whole s 82 []

-- A callback gets the struct at `data` if the message is long enough for it.
abbrev pub deliver : Session → Bool → ℕ → (List ℕ → Delivery) → List ℕ → ℕ → Session
deliver s is_set size kind payload len =
    if leb size len && is_set
    then record s { delivered = s.delivered ++ kind (take size payload) ∷ [] }
    else s

-- `process_ouch_message`: `data` is what the buffer holds from the message on, and `len` the length.
unfoldable pub process_ouch_message : Session → List ℕ → ℕ → Session
process_ouch_message s payload len =
    if len == 0
    then s
    else if byte_at payload 0 == 65
    then deliver s s.callbacks.on_accepted 66 accepted payload len
    else if byte_at payload 0 == 69
    then deliver s s.callbacks.on_executed 40 executed payload len
    else if byte_at payload 0 == 67
    then deliver s s.callbacks.on_canceled 28 canceled payload len
    else if byte_at payload 0 == 74
    then deliver s s.callbacks.on_rejected 24 rejected payload len
    else if byte_at payload 0 == 85
    then deliver s s.callbacks.on_replaced 80 replaced payload len
    else s

unfoldable pub process_soup_packet : (ℕ → Bool) → Session → ℕ → List ℕ → ℕ → Session
unfolding process_ouch_message disconnect
process_soup_packet whole s packet_type payload len =
    if packet_type == 65
    then record s { state = logged_in }
    else if packet_type == 74
    then record s { state = disconnected }
    else if packet_type == 72
    then s
    else if packet_type == 90
    then disconnect whole s
    else if packet_type == 83
    then (if len == 0 then s else process_ouch_message s payload len)
    else s

-- One complete message, from its packet type on. A length of 0 wraps around.
unfoldable pub receive : (ℕ → Bool) → Session → List ℕ → ℕ → Session
unfolding process_soup_packet
receive whole s message msg_len =
    let s1 =
      process_soup_packet whole s (byte_at message 0) (drop 1 message)
        ((msg_len + 18446744073709551615) % 18446744073709551616) in
    record s1 { messages_received = s1.messages_received + 1 }

-- The loop of `process_incoming`: the session, what is left in the buffer, and the messages counted.
unfoldable pub process_messages : (ℕ → Bool) → ℕ → Session → List ℕ → Session × (List ℕ × ℕ)
unfolding receive read_be16
process_messages whole zero s buf = (s, (buf, 0))
process_messages whole (suc fuel) s buf =
    let msg_len = read_be16 buf in
    let deeper =
      process_messages whole fuel (receive whole s (drop 2 buf) msg_len) (drop (2 + msg_len) buf) in
    if ltb (length buf) 3
    then (s, (buf, 0))
    else if ltb (length buf) (2 + msg_len)
    then (s, (buf, 0))
    else (deeper.0, (deeper.1.0, deeper.1.1 + 1))

-- What `recv` finds: no data yet, an error, the end of the connection, or bytes.
pub data Received : Type 0 where
  would_block failed closed : Received
  bytes : List ℕ → Received

-- The size of `recv_buffer_`.
abbrev pub recv_buffer_size : ℕ
recv_buffer_size = 65536

-- One call of `recv` with room for so many bytes, where `bytes xs` says what has arrived: it gives at
-- most as many bytes as there is room for, and 0, as at the end of the connection, if there is none.
unfoldable pub recv : ℕ → Received → Received
recv room would_block = would_block
recv room failed = failed
recv room closed = closed
recv room (bytes xs) = if length (take room xs) == 0 then closed else bytes (take room xs)

-- `none` is the result -1. Each message takes two bytes at least, so the fuel is enough.
unfoldable pub process_incoming : (ℕ → Bool) → Session → Received → Session × Option ℕ
unfolding process_messages disconnect recv
process_incoming whole s input =
    if not s.socket_open
    then (s, none)
    else elim (recv (recv_buffer_size - length s.recv_buffer) input) [
      | would_block ↦ (s, some 0)
      | failed ↦ (s, none)
      | closed ↦ (disconnect whole s, none)
      | bytes xs ↦
          let buf = s.recv_buffer ++ xs in
          let (s1, (rest, count)) =
            process_messages whole (length buf)
              (record s { bytes_received = s.bytes_received + length xs }) buf in
          (record s1 { recv_buffer = rest }, some count)
    ]
