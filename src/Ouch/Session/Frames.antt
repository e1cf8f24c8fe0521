-- ===== src/Ouch/Session/Frames.antt =====
-- The loop of include/ouch/ouch_session.hpp decodes the frames that `send_packet` writes.
use mathlib.Core.List.{append_assoc}
use hft_trading_system.Prelude.{
  ℕ, zero, suc, ◌+◌, ◌-◌, ◌%◌, ◌<◌, ◌≤◌, ◌≡◌, refl, Bool, true, false, some, List, [], ◌∷◌, ◌++◌,
  ltb, leb, arith, drop, length, length-append, take-append, take-all, drop-front, All, ◌⊎◌, inl,
  inr, Bool-cases, ◌∙◌, ap, ◌==◌,
}
use hft_trading_system.Ouch.Bytes.{write_be16, read_be16}
use hft_trading_system.Ouch.Session.{
  Session, Delivery, deliver, process_ouch_message, process_soup_packet, receive, process_messages,
  process_incoming, bytes, recv, recv_buffer_size,
}

-- A packet: its type and its data.
abbrev pub Packet : Type 0
Packet = ℕ × List ℕ

-- The frame of a packet on the wire.
abbrev pub frame : Packet → List ℕ
frame (t, payload) = write_be16 (1 + length payload) ++ t ∷ payload

abbrev pub frames : List Packet → List ℕ
frames [] = []
frames (p ∷ ps) = frame p ++ frames ps

-- The length of the packet fits its prefix.
abbrev pub Fits16 : Packet → Type 0
Fits16 (t, payload) = length payload < 65535

-- Not yet a whole message.
abbrev pub IsPartial : List ℕ → Type 0
IsPartial buf = (length buf < 3) ⊎ (length buf < 2 + read_be16 buf)

module _ (whole : ℕ → Bool) where
  -- What the session does with packets.
  abbrev pub handle : Session → Packet → Session
  handle s (t, payload) =
      let s1 = process_soup_packet whole s t payload (length payload) in
      record s1 { messages_received = s1.messages_received + 1 }

  abbrev pub handle_all : Session → List Packet → Session
  handle_all s [] = s
  handle_all s (p ∷ ps) = handle_all (handle s p) ps

  deliver_within :
      (s : Session) (is_set : Bool) (size : ℕ) (kind : List ℕ → Delivery) (payload more : List ℕ)
      → deliver s is_set size kind (payload ++ more) (length payload)
        ≡ deliver s is_set size kind payload (length payload)
  deliver_within s is_set size kind payload more = elim (Bool-cases (leb size (length payload))) [
    | inl fits ↦ rw (take-append size payload more (ground arith)) refl
    | inr short ↦ rw short refl
  ]

  message_within :
      (s : Session) (payload more : List ℕ)
      → process_ouch_message s (payload ++ more) (length payload)
        ≡ process_ouch_message s payload (length payload)
  unfolding process_ouch_message
  message_within s [] more = refl
  message_within s (x ∷ payload) more =
      rw
        (
          deliver_within s s.callbacks.on_accepted 66 Delivery.accepted (x ∷ payload) more,
          deliver_within s s.callbacks.on_executed 40 Delivery.executed (x ∷ payload) more,
          deliver_within s s.callbacks.on_canceled 28 Delivery.canceled (x ∷ payload) more,
          deliver_within s s.callbacks.on_rejected 24 Delivery.rejected (x ∷ payload) more,
          deliver_within s s.callbacks.on_replaced 80 Delivery.replaced (x ∷ payload) more,
        )
        refl

  packet_within :
      (s : Session) (t : ℕ) (payload more : List ℕ)
      → process_soup_packet whole s t (payload ++ more) (length payload)
        ≡ process_soup_packet whole s t payload (length payload)
  unfolding process_soup_packet
  packet_within s t payload more = rw (message_within s payload more) refl

  receive-handle :
      (s : Session) (t : ℕ) (payload more : List ℕ)
      → length payload < 65535
      → receive whole s (t ∷ payload ++ more) (1 + length payload) ≡ handle s (t, payload)
  unfolding receive
  receive-handle s t payload more h =
      let len : (1 + length payload + 18446744073709551615) % 18446744073709551616
          ≡ length payload =
        omega (arith, h) in
      rw (len, packet_within s t payload more) refl

  -- The bytes of a frame before others.
  frame-length :
      (t : ℕ) (payload more : List ℕ)
      → length (frame (t, payload) ++ more) ≡ 3 + length payload + length more
  unfolding write_be16
  frame-length t payload more = omega (arith, length-append payload more)

  read-frame :
      (t : ℕ) (payload more : List ℕ)
      → length payload < 65535
      → read_be16 (frame (t, payload) ++ more) ≡ 1 + length payload
  unfolding write_be16 read_be16
  read-frame t payload more h = omega (arith, h)

  drop-message :
      (t : ℕ) (payload more : List ℕ) → drop 2 (frame (t, payload) ++ more) ≡ t ∷ payload ++ more
  unfolding write_be16
  drop-message t payload more = refl

  drop-frame :
      (t : ℕ) (payload more : List ℕ)
      → drop (2 + (1 + length payload)) (frame (t, payload) ++ more) ≡ more
  unfolding write_be16
  drop-frame t payload more =
      let three : 2 + (1 + length payload) ≡ suc (suc (suc (length payload))) = omega arith in
      rw three (drop-front (length payload) (length payload) payload more refl (omega arith) ∙ rest)
    where
      rest : drop (length payload - length payload) more ≡ more
      rest = let none_left : length payload - length payload ≡ 0 = omega arith in rw none_left refl

  stops :
      (fuel : ℕ) (s : Session) (buf : List ℕ)
      → IsPartial buf
      → process_messages whole fuel s buf ≡ (s, (buf, 0))
  unfolding process_messages
  stops zero s buf h = refl
  stops (suc fuel) s buf h = elim (Bool-cases (ltb (length buf) 3)) [
    | inl short ↦ rw short refl
    | inr long ↦
        let partial : ltb (length buf) (2 + read_be16 buf) ≡ true = ground arith in
        rw (long, partial) refl
  ]

  -- One round on a whole message.
  round :
      (fuel : ℕ) (s : Session) (buf message rest : List ℕ) (len : ℕ)
      → ltb (length buf) 3 ≡ false
      → read_be16 buf ≡ len
      → ltb (length buf) (2 + len) ≡ false
      → drop 2 buf ≡ message
      → drop (2 + len) buf ≡ rest
      → process_messages whole (suc fuel) s buf ≡ (
          let deeper = process_messages whole fuel (receive whole s message len) rest in
          (deeper.0, (deeper.1.0, deeper.1.1 + 1)))
  unfolding process_messages
  round fuel s buf message rest len long read complete is_message is_rest =
      rw (read, complete, long, is_message, is_rest) refl

  process_messages-frames :
      (fuel : ℕ) (s : Session) (ps : List Packet) (tail : List ℕ)
      → All Fits16 ps
      → IsPartial tail
      → length ps ≤ fuel
      → process_messages whole fuel s (frames ps ++ tail) ≡ (handle_all s ps, (tail, length ps))
  process_messages-frames fuel s [] tail a h le = stops fuel s tail h
  process_messages-frames zero s (p ∷ ps) tail a h le = absurd (omega (arith, le))
  process_messages-frames (suc fuel) s ((t, payload) ∷ ps) tail a h le =
      let more = frames ps ++ tail in
      let buf : frames ((t, payload) ∷ ps) ++ tail ≡ frame (t, payload) ++ more =
        append_assoc (frame (t, payload)) (frames ps) tail in
      let len = frame-length t payload more in
      let long : ltb (length (frame (t, payload) ++ more)) 3 ≡ false = ground (arith, len) in
      let whole_message : ltb (length (frame (t, payload) ++ more)) (2 + (1 + length payload))
          ≡ false =
        ground (arith, len) in
      rw
        (
          buf,
          round fuel s (frame (t, payload) ++ more) (t ∷ payload ++ more) more (1 + length payload)
              long (read-frame t payload more a.0) whole_message (drop-message t payload more)
              (drop-frame t payload more),
          receive-handle s t payload more a.0,
          process_messages-frames fuel (handle s (t, payload)) ps tail a.1 h (omega (arith, le)),
        )
        (λ i. (handle_all (handle s (t, payload)) ps, (tail, counted i)))
    where
      counted : length ps + 1 ≡ suc (length ps)
      counted = omega arith

  pub frames-length : (ps : List Packet) (tail : List ℕ) → length ps ≤ length (frames ps ++ tail)
  frames-length [] tail = omega arith
  frames-length ((t, payload) ∷ ps) tail =
      rw (append_assoc (frame (t, payload)) (frames ps) tail)
        (omega (arith, frame-length t payload (frames ps ++ tail), frames-length ps tail))

  -- What arrives is received whole if there is room for it.
  recv-bytes :
      (s : Session) (xs : List ℕ)
      → 0 < length xs
      → length (s.recv_buffer ++ xs) ≤ recv_buffer_size
      → recv (recv_buffer_size - length s.recv_buffer) (bytes xs) ≡ bytes xs
  unfolding recv
  recv-bytes s xs some_bytes room =
      let all =
        take-all (recv_buffer_size - length s.recv_buffer) xs
          (omega (arith, room, length-append s.recv_buffer xs)) in
      let not_closed : (length xs == 0) ≡ false = ground arith in rw (all, not_closed) refl

  incoming-bytes :
      (s : Session) (xs : List ℕ)
      → s.socket_open ≡ true
      → 0 < length xs
      → length (s.recv_buffer ++ xs) ≤ recv_buffer_size
      → process_incoming whole s (bytes xs) ≡ (
          let result =
            process_messages whole
              (length (s.recv_buffer ++ xs))
              (record s { bytes_received = s.bytes_received + length xs })
              (s.recv_buffer ++ xs) in
          (record (result.0) { recv_buffer = result.1.0 }, some (result.1.1)))
  unfolding process_incoming
  incoming-bytes s xs up some_bytes room =
      simp (up, process_incoming, recv-bytes s xs some_bytes room) refl

  pub frames-Fits16 : (ps : List Packet) → length (frames ps) ≤ recv_buffer_size → All Fits16 ps
  frames-Fits16 [] room = tt
  frames-Fits16 ((t, payload) ∷ ps) room =
      let len = frame-length t payload (frames ps) in
      (omega (arith, len, room), frames-Fits16 ps (omega (arith, len, room)))

  -- However the frames of a list of packets arrive, in as many bytes as the buffer of 65536 has room
  -- for: once the bytes that were left in the buffer and at least one that arrives make up whole
  -- frames and the beginning of another, a session with an open socket has handled exactly those
  -- packets in order, counts them, and keeps the beginning for the next call.
  pub process_incoming-frames :
      (s : Session) (xs : List ℕ) (ps : List Packet) (tail : List ℕ)
      → s.socket_open ≡ true
      → 0 < length xs
      → length (s.recv_buffer ++ xs) ≤ recv_buffer_size
      → s.recv_buffer ++ xs ≡ frames ps ++ tail
      → IsPartial tail
      → process_incoming whole s (bytes xs) ≡ (
        record (handle_all (record s { bytes_received = s.bytes_received + length xs }) ps) {
          recv_buffer = tail;
        },
        some (length ps),
      )
  unfolding process_incoming
  process_incoming-frames s xs ps tail up some_bytes room stream h =
      let fits : length (frames ps) ≤ recv_buffer_size =
        omega (arith, room, ap length stream, length-append (frames ps) tail) in
      rw
        (
          incoming-bytes s xs up some_bytes room,
          stream,
          process_messages-frames (length (frames ps ++ tail))
              (record s { bytes_received = s.bytes_received + length xs }) ps tail
              (frames-Fits16 ps fits) h (frames-length ps tail),
        )
        refl
