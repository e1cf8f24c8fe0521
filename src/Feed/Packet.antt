-- ===== src/Feed/Packet.antt =====
-- The packets that `process_packet` of include/feed/itch_feed_handler.hpp takes apart: a header, the
-- number of messages, and each message behind its length.
use mathlib.Core.List.{append_assoc}
use hft_trading_system.Prelude.{
  ℕ, zero, suc, ◌+◌, ◌-◌, ◌<◌, ◌≤◌, ◌≡◌, refl, ◌∙◌, ◌⊎◌, inl, inr, true, false, ◌==◌, ltb,
  le→not_ltb, pos→not_zero, List, [], ◌∷◌, ◌++◌, arith, drop, length, length-append, drop-front,
  All, Bool-cases,
}
use hft_trading_system.Ouch.Bytes.{write_be16, read_be16}
use hft_trading_system.Ouch.Layout.{read_be-write_be}
use hft_trading_system.Feed.{Event, process_message, process_rest, process_packet}
use hft_trading_system.Feed.Wire.{Message, encode, meaning, FitsWire}
use hft_trading_system.Feed.Decode.{process_message-encode, length-encode}

abbrev pub frame : Message → List ℕ
frame m = write_be16 (length (encode m)) ++ encode m

abbrev pub frames : List Message → List ℕ
frames [] = []
frames (m ∷ ms) = frame m ++ frames ms

abbrev pub meanings : List Message → List Event
meanings [] = []
meanings (m ∷ ms) = meaning m ++ meanings ms

-- The message fits its layout, and its length the prefix.
abbrev pub FitsFrame : Message → Type 0
FitsFrame m = FitsWire m × (length (encode m) < 65536)

-- Not a whole message.
abbrev pub IsCut : List ℕ → Type 0
IsCut rest = (length rest < 2) ⊎ (length rest < 2 + read_be16 rest)

-- The loop ends: all messages that were announced are done, or the next is not whole.
abbrev pub Ends : ℕ → List ℕ → Type 0
Ends left rest = (left ≡ 0) ⊎ IsCut rest

drop-two : (xs : List ℕ) → length (drop 2 xs) ≡ length xs - 2
drop-two [] = refl
drop-two (x ∷ []) = refl
drop-two (x ∷ y ∷ xs) = omega arith

stops : (left : ℕ) (rest : List ℕ) → Ends left rest → process_rest left rest ≡ (0, [])
unfolding process_rest
stops zero rest h = refl
stops (suc left) rest (inl h) = absurd (omega (arith, h))
stops (suc left) rest (inr (inl short)) = elim (Bool-cases (length rest == 0)) [
  | inl e ↦ rw e refl
  | inr e ↦ let cut : ltb (length rest) 2 ≡ true = ground arith in rw (e, cut) refl
]
stops (suc left) rest (inr (inr short)) = elim (Bool-cases (length rest == 0)) [
  | inl e ↦ rw e refl
  | inr e ↦ elim (Bool-cases (ltb (length rest) 2)) [
    | inl cut ↦ rw (e, cut) refl
    | inr two ↦
        let cut : ltb (length (drop 2 rest)) (read_be16 rest) ≡ true =
          ground (arith, drop-two rest) in
        rw (e, two, cut) refl
  ]
]

-- One round on a whole message, over what its parts are.
round_of :
    (left len : ℕ) (rest body more : List ℕ) (events : List Event)
    → read_be16 rest ≡ len
    → drop 2 rest ≡ body
    → drop len body ≡ more
    → 2 ≤ length rest
    → len ≤ length body
    → process_message body len ≡ (true, events)
    → process_rest (suc left) rest
      ≡ (let deeper = process_rest left more in (1 + deeper.0, events ++ deeper.1))
unfolding process_rest
round_of left len rest body more events is_len is_body is_more two whole parsed =
    let nonempty : (length rest == 0) ≡ false = pos→not_zero (length rest) (omega (arith, two)) in
    let prefixed : ltb (length rest) 2 ≡ false = le→not_ltb (length rest) 2 two in
    let complete : ltb (length body) len ≡ false = le→not_ltb (length body) len whole in
    rw (is_len, is_body, is_more, parsed, nonempty, prefixed, complete) refl

round :
    (left : ℕ) (m : Message) (more : List ℕ)
    → FitsFrame m
    → process_rest (suc left) (frame m ++ more)
      ≡ (let deeper = process_rest left more in (1 + deeper.0, meaning m ++ deeper.1))
unfolding write_be16 read_be16
round left m more f =
    let len = length (encode m) in
    round_of left len (frame m ++ more) (encode m ++ more) more (meaning m)
      (read-prefix (encode m ++ more)) refl
      (drop-front len len (encode m) more refl (omega arith) ∙ none_left) (omega arith)
      (omega (arith, length-append (encode m) more))
      (process_message-encode m more len f.0 (length-encode m f.0))
  where
    read-prefix :
        (rest : List ℕ) → read_be16 (write_be16 (length (encode m)) ++ rest) ≡ length (encode m)
    read-prefix rest = (read_be-write_be (length (encode m))).0 f.1

    none_left : drop (length (encode m) - length (encode m)) more ≡ more
    none_left =
        let zero_left : length (encode m) - length (encode m) ≡ 0 = omega arith in rw zero_left refl

process_rest-frames :
    (ms : List Message) (left : ℕ) (rest : List ℕ)
    → All FitsFrame ms
    → length ms ≤ left
    → Ends (left - length ms) rest
    → process_rest left (frames ms ++ rest) ≡ (length ms, meanings ms)
process_rest-frames [] left rest a le e =
    let all : left - 0 ≡ left = omega arith in stops left rest (rw all at e)
process_rest-frames (m ∷ ms) zero rest a le e = absurd (omega (arith, le))
process_rest-frames (m ∷ ms) (suc left) rest a le e =
    let counted : 1 + length ms ≡ suc (length ms) = omega arith in
    let less : suc left - suc (length ms) ≡ left - length ms = omega arith in
    let ends : Ends (left - length ms) rest = rw less at e in
    rw
      (
        append_assoc (frame m) (frames ms) rest,
        round left m (frames ms ++ rest) a.0,
        process_rest-frames ms left rest a.1 (omega (arith, le)) ends,
        counted,
      )
      refl

-- A packet with a header of 18 bytes, the number of messages, and messages other than replacements
-- (type 'U') that are laid out as the protocol says: every message whose bytes are whole is decoded,
-- in order, each to what it means, and counted. If more messages are announced than the packet holds whole, the rest of the
-- packet is left alone.
pub process_packet-frames :
    (header : List ℕ) (count : ℕ) (ms : List Message) (rest : List ℕ)
    → length header ≡ 18
    → count < 65536
    → All FitsFrame ms
    → length ms ≤ count
    → Ends (count - length ms) rest
    → process_packet (header ++ (write_be16 count ++ (frames ms ++ rest)))
      ≡ (length ms, meanings ms)
unfolding process_packet write_be16
process_packet-frames header count ms rest eighteen hc a le e =
    let body = frames ms ++ rest in
    let counted = write_be16 count ++ body in
    let long : ltb (length (header ++ counted)) 20 ≡ false =
      ground (arith, length-append header counted) in
    let at_count : drop 18 (header ++ counted) ≡ counted =
      drop-front 18 18 header counted eighteen (omega arith) in
    let at_body : drop 20 (header ++ counted) ≡ body =
      drop-front 20 18 header counted eighteen (omega arith) in
    let read : read_be16 counted ≡ count = (read_be-write_be count).0 hc in
    rw (long, at_count, at_body, read, process_rest-frames ms count rest a le e) refl
