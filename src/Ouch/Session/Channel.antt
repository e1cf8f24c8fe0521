-- ===== src/Ouch/Session/Channel.antt =====
-- Two sessions of include/ouch/ouch_session.hpp, one of which receives what the other sends.
use mathlib.Core.List.{append_assoc, append-nil}
use hft_trading_system.Prelude.{
  suc, ◌%◌, ◌==◌, false, ℕ, ◌+◌, ◌-◌, ◌<◌, ◌≤◌, ◌≡◌, refl, sym, ap, ◌∙◌, Bool, true, some, List, [],
  ◌∷◌, ◌++◌, arith, drop, length, drop-front, All, inl,
}
use hft_trading_system.Ouch.Bytes.{write_be16}
use hft_trading_system.Ouch.Session.{
  Session, send, send_packet, process_incoming, bytes, recv_buffer_size,
}
use hft_trading_system.Ouch.Session.Frames.{
  Packet, frame, frames, Fits16, handle_all, frames-length, frames-Fits16, process_incoming-frames,
}

-- One call of `send_packet` for each packet.
abbrev pub send_packets : (ℕ → Bool) → Session → List Packet → Session
send_packets whole s [] = s
send_packets whole s ((t, payload) ∷ ps) = send_packets whole (send_packet whole s t payload).0 ps

module _ (whole : ℕ → Bool) where
  -- A packet is one frame on the wire; a packet without data is sent in one call.
  send_packet-frame :
      (s : Session) (t : ℕ) (payload : List ℕ)
      → length payload < 65535
      → whole s.sends ≡ true
      → whole (s.sends + 1) ≡ true
      → let (s', ok) = send_packet whole s t payload in
        (ok ≡ true)
        × (s'.sent ≡ s.sent ++ frame (t, payload))
        × (s'.bytes_sent ≡ s.bytes_sent + 3 + length payload)
        × (s'.messages_sent ≡ s.messages_sent + 1)
        × (s'.state ≡ s.state)
  unfolding send_packet send
  send_packet-frame s t [] h w1 w2 = rw w1 (refl, refl, refl, refl, refl)
  send_packet-frame s t (x ∷ payload) h w1 w2 =
      let len : (1 + suc (length payload)) % 65536 ≡ 1 + suc (length payload) = omega (arith, h) in
      let nonempty : (suc (length payload) == 0) ≡ false = ground arith in
      rw (w1, w2, len, nonempty)
        (
          refl,
          append_assoc s.sent (write_be16 (1 + suc (length payload)) ++ t ∷ []) (x ∷ payload),
          refl,
          refl,
          refl,
        )

module _ (whole : ℕ → Bool) (goes_through : (k : ℕ) → whole k ≡ true) where
  send_packets-frames :
      (s : Session) (ps : List Packet)
      → All Fits16 ps
      → let s' = send_packets whole s ps in
        (s'.sent ≡ s.sent ++ frames ps)
        × (s'.messages_sent ≡ s.messages_sent + length ps)
        × (s'.state ≡ s.state)
  send_packets-frames s [] a = (sym (append-nil s.sent), omega arith, refl)
  send_packets-frames s ((t, payload) ∷ ps) a =
      let one =
        send_packet-frame whole s t payload a.0 (goes_through s.sends)
          (goes_through (s.sends + 1)) in
      let rest = send_packets-frames (send_packet whole s t payload).0 ps a.1 in
      (
        rest.0
            ∙ ap (λ (l : List ℕ). l ++ frames ps) one.1
            ∙ append_assoc s.sent (frame (t, payload)) (frames ps),
        omega (arith, rest.1, one.3),
        rest.2 ∙ one.4,
      )

  -- What one session sends, another handles: if every send goes through whole, and the frames of a
  -- list of one packet or more fit the receive buffer of 65536 bytes together, the bytes that
  -- `send_packet` puts on the wire for these packets, arriving in one piece, make `process_incoming` of
  -- a session with an open socket and an empty buffer handle exactly these packets in order, and leave
  -- its buffer empty. The sender counts each packet as a message and keeps its state.
  pub process_incoming-send_packets :
      (a b : Session) (ps : List Packet)
      → 0 < length ps
      → length (frames ps) ≤ recv_buffer_size
      → b.socket_open ≡ true
      → b.recv_buffer ≡ []
      → let a' = send_packets whole a ps in
        let wire = drop (length a.sent) a'.sent in
        (process_incoming whole b (bytes wire) ≡ (
          record (handle_all whole
              (record b { bytes_received = b.bytes_received + length wire })
              ps) { recv_buffer = [] },
          some (length ps),
        ))
        × (a'.messages_sent ≡ a.messages_sent + length ps)
        × (a'.state ≡ a.state)
  process_incoming-send_packets a b ps some_packet fits up empty =
      let (sent, counted, state) = send_packets-frames a ps (frames-Fits16 whole ps fits) in
      let wire : drop (length a.sent) (send_packets whole a ps).sent ≡ frames ps ++ [] =
        let n = length a.sent in
        let here : n - n ≡ 0 = omega arith in
        ap (drop n) sent
        ∙ drop-front n n a.sent (frames ps) refl (omega arith)
        ∙ ap (λ (k : ℕ). drop k (frames ps)) here
        ∙ sym (append-nil (frames ps)) in
      let stream =
        ap (λ (l : List ℕ). l ++ drop (length a.sent) (send_packets whole a ps).sent) empty
        ∙ wire in
      let size = ap length stream ∙ ap length (append-nil (frames ps)) in
      let some_bytes : 0 < length (drop (length a.sent) (send_packets whole a ps).sent) =
        omega (arith, some_packet, frames-length whole ps [], ap length wire) in
      (
        process_incoming-frames whole b _ ps [] up some_bytes (omega (arith, size, fits)) stream
            (inl (omega arith)),
        counted,
        state,
      )
