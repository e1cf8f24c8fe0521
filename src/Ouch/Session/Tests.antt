-- ===== src/Ouch/Session/Tests.antt =====
-- Runs of include/ouch/ouch_session.hpp, and the theorems at small inputs.
use hft_trading_system.Prelude.{
  drop, ℕ, ◌+◌, ◌≡◌, refl, Bool, true, false, some, List, [], ◌∷◌, ◌++◌, arith, inl, length,
}
use hft_trading_system.Ouch.Bytes.{read_be16, write_be16}
use hft_trading_system.Ouch.Session.{
  Session, logged_in, logging_in, session, process_incoming, bytes, receive, process_soup_packet,
  process_messages, disconnect, log_out, recv,
}
use hft_trading_system.Ouch.Session.Token.{
  digits, value, tokens, generate_token, printed, tokens_unique,
}
use hft_trading_system.Ouch.Session.Channel.{send_packets, process_incoming-send_packets}
use hft_trading_system.Ouch.Session.Frames.{Packet, frames, handle_all, process_incoming-frames}

abbrev always : ℕ → Bool
always _ = true

abbrev waiting : Session
waiting = record session { socket_open = true; state = logging_in }

-- A login that is accepted, a message of two bytes, and the first byte of a third frame.
abbrev packets : List Packet
packets = (65, []) ∷ (83, 83 ∷ 1 ∷ []) ∷ []

process_incoming-frames_example :
    process_incoming always waiting (bytes (frames packets ++ 0 ∷ [])) ≡ (
      record (handle_all always
          (record waiting { bytes_received = 0 + length (frames packets ++ 0 ∷ []) })
          packets) { recv_buffer = 0 ∷ [] },
      some 2,
    )
unfolding write_be16
process_incoming-frames_example =
    process_incoming-frames always waiting (frames packets ++ 0 ∷ []) packets (0 ∷ []) refl
      (omega arith) (omega arith) refl (inl (omega arith))

process_incoming-send_packets_example :
    let a' = send_packets always waiting packets in
    let wire = drop 0 a'.sent in
    (process_incoming always waiting (bytes wire) ≡ (
      record (handle_all always (record waiting { bytes_received = 0 + length wire }) packets) {
        recv_buffer = [];
      },
      some 2,
    ))
    × (a'.messages_sent ≡ 0 + 2)
    × (a'.state ≡ logging_in)
unfolding write_be16
process_incoming-send_packets_example =
    process_incoming-send_packets always (λ k. refl) waiting waiting packets (omega arith)
      (omega arith) refl refl

-- A login acceptance behind the end of the session logs a closed session in.
late_login :
    let s = (process_incoming always waiting (bytes (0 ∷ 1 ∷ 90 ∷ 0 ∷ 1 ∷ 65 ∷ []))).0 in
    (s.socket_open ≡ false) × (s.state ≡ logged_in)
unfolding process_incoming recv process_messages receive process_soup_packet read_be16 disconnect
    log_out
late_login = (refl, refl)

-- The first of two tokens.
abbrev first_token : List ℕ
first_token = digits 14 1

tokens_unique_example :
    (◌≡◌ {A = ℕ} 0 0) × (length first_token ≡ 14) × (value 0 first_token ≡ 1 + 0)
unfolding tokens generate_token printed
tokens_unique_example = tokens_unique 2 session (omega arith) 0 0 first_token refl refl
