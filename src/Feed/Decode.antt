-- ===== src/Feed/Decode.antt =====
-- The parsers of include/feed/itch_feed_handler.hpp on messages that are laid out as the protocol
-- says.
use mathlib.Core.List.{append_assoc}
use hft_trading_system.Prelude.{
  list_laws, ℕ, ◌<◌, ◌≤◌, ◌≡◌, refl, true, false, ◌||◌, ◌==◌, ltb, leb, Option, none, some, List,
  [], ◌∷◌, ◌++◌, arith, length, length-append,
}
use hft_trading_system.Types.{Side}
use hft_trading_system.Ouch.Bytes.{write_be16, write_be32, write_be64}
use hft_trading_system.Feed.{
  process_message, parse_add_order, parse_order_executed, parse_order_cancel, parse_order_delete,
}
use hft_trading_system.Feed.Wire.{
  write_be48, Header, Message, add, executed, executed_price, cancelled, deleted, other, side_byte,
  attribution_type, attribution_bytes, layout, encode, meaning, FitsHeader, is_known, FitsWire,
  least_length,
}
use hft_trading_system.Feed.Fields.{
  side_of-side_byte, read_header, read_shares, read_add, read_price,
}

module _ (h : Header) (body : List ℕ) (len : ℕ) (f : FitsHeader h) where
  decode_cancelled :
      (shares : ℕ) (more : List ℕ)
      → body ≡ write_be32 shares ++ more
      → shares < 4294967296
      → ltb len 23 ≡ false
      → process_message (layout 88 h body) len ≡ (true, meaning (cancelled h shares))
  unfolding process_message parse_order_cancel
  decode_cancelled shares more e hs long =
      let some_bytes : ltb len 1 ≡ false = ground arith in
      let parts = read_header 88 h body f in
      rw (some_bytes, long, parts.1, parts.2, read_shares 88 shares h body more e hs) refl

  decode_deleted :
      ltb len 19 ≡ false → process_message (layout 68 h body) len ≡ (true, meaning (deleted h))
  unfolding process_message parse_order_delete
  decode_deleted long =
      let some_bytes : ltb len 1 ≡ false = ground arith in
      let parts = read_header 68 h body f in rw (some_bytes, long, parts.1, parts.2) refl

  decode_executed :
      (shares match_number : ℕ) (more : List ℕ)
      → body ≡ write_be32 shares ++ more
      → shares < 4294967296
      → ltb len 31 ≡ false
      → process_message (layout 69 h body) len ≡ (true, meaning (executed h shares match_number))
  unfolding process_message parse_order_executed
  decode_executed shares match_number more e hs long =
      let some_bytes : ltb len 1 ≡ false = ground arith in
      let parts = read_header 69 h body f in
      rw (some_bytes, long, parts.1, parts.2, read_shares 69 shares h body more e hs) refl

decode_executed_price :
    (h : Header) (len shares match_number printable price : ℕ) (more : List ℕ)
    → FitsHeader h
    → shares < 4294967296
    → price < 4294967296
    → ltb len 36 ≡ false
    → process_message
        (layout 67 h (
          write_be32 shares ++ (write_be64 match_number ++ printable ∷ (write_be32 price ++ more))))
        len
      ≡ (true, meaning (executed_price h shares match_number printable price))
unfolding process_message parse_order_executed
decode_executed_price h len shares match_number printable price more f hs hp long =
    let rest = write_be64 match_number ++ printable ∷ (write_be32 price ++ more) in
    let body = write_be32 shares ++ rest in
    let some_bytes : ltb len 1 ≡ false = ground arith in
    let whole : ltb len 31 ≡ false = ground arith in
    let priced : leb 36 len ≡ true = ground arith in
    let parts = read_header 67 h body f in
    rw
      (
        some_bytes,
        whole,
        priced,
        parts.1,
        parts.2,
        read_shares 67 shares h body rest refl hs,
        read_price 67 shares match_number printable price h more hp,
      )
      refl

decode_add :
    (t : ℕ) (h : Header) (side : Side) (len shares price : ℕ) (stock more : List ℕ)
    (mpid : Option (List ℕ))
    → (t == 65 || t == 70) ≡ true
    → FitsHeader h
    → shares < 4294967296
    → price < 4294967296
    → length stock ≡ 8
    → ltb len 36 ≡ false
    → process_message
        (layout t h (side_byte side ∷ (write_be32 shares ++ (stock ++ (write_be32 price ++ more)))))
        len
      ≡ (true, meaning (add h side shares stock price mpid))
unfolding process_message parse_add_order
decode_add t h side len shares price stock more mpid is_add f hs hp eight long =
    let body = side_byte side ∷ (write_be32 shares ++ (stock ++ (write_be32 price ++ more))) in
    let some_bytes : ltb len 1 ≡ false = ground arith in
    let parts = read_header t h body f in
    let fields = read_add t (side_byte side) shares price h stock more hs hp eight in
    rw
      (
        some_bytes,
        is_add,
        long,
        parts.0,
        parts.1,
        parts.2,
        fields.0,
        fields.1,
        fields.2,
        side_of-side_byte side,
      )
      refl

decode_other :
    (t len : ℕ) (rest : List ℕ)
    → is_known t ≡ false
    → ltb len 1 ≡ false
    → process_message (t ∷ rest) len ≡ (true, [])
unfolding process_message
decode_other t len rest unknown some_bytes = ground arith

layout-append :
    (t : ℕ) (h : Header) (body more : List ℕ) → layout t h body ++ more ≡ layout t h (body ++ more)
unfolding write_be16 write_be48 write_be64
layout-append t h body more = refl

pub length-encode : (m : Message) → FitsWire m → least_length m ≤ length (encode m)
unfolding encode least_length write_be16 write_be32 write_be48 write_be64
length-encode (add h side shares stock price mpid) f =
    omega (arith, length-append stock (write_be32 price ++ attribution_bytes mpid), f.2)
length-encode (executed h shares match_number) f = omega arith
length-encode (executed_price h shares match_number printable price) f = omega arith
length-encode (cancelled h shares) f = omega arith
length-encode (deleted h) f = omega arith
length-encode (other msg_type rest) f = omega arith

-- A message other than a replacement that is laid out as the protocol says, with other bytes behind it and a
-- length that is long enough for its type.
pub process_message-encode :
    (m : Message) (more : List ℕ) (len : ℕ)
    → FitsWire m
    → least_length m ≤ len
    → process_message (encode m ++ more) len ≡ (true, meaning m)
unfolding encode least_length
process_message-encode (add h side shares stock price mpid) more len f long =
    let tail = attribution_bytes mpid in
    let body = side_byte side ∷ (write_be32 shares ++ (stock ++ (write_be32 price ++ tail))) in
    let joined : body ++ more
        ≡ side_byte side ∷ (write_be32 shares ++ (stock ++ (write_be32 price ++ (tail ++ more)))) =
      simp list_laws in
    rw (layout-append (attribution_type mpid) h body more, joined)
      (decode_add (attribution_type mpid) h side len shares price stock (tail ++ more) mpid
        (is_add mpid) f.0 f.1 f.3 f.2 (ground arith))
  where
    is_add : (a : Option (List ℕ)) → (attribution_type a == 65 || attribution_type a == 70) ≡ true
    is_add none = refl
    is_add (some bytes) = refl
process_message-encode (executed h shares number) more len f long =
    let body = write_be32 shares ++ write_be64 number in
    rw (layout-append 69 h body more) (
      decode_executed h (body ++ more) len f.0 shares number (write_be64 number ++ more)
        (append_assoc (write_be32 shares) (write_be64 number) more) f.1 (ground arith))
process_message-encode (executed_price h shares match_number printable price) more len f long =
    let body = write_be32 shares ++ (write_be64 match_number ++ printable ∷ write_be32 price) in
    let joined : body ++ more
        ≡ write_be32 shares ++ (write_be64 match_number ++ printable ∷ (write_be32 price ++ more)) =
      simp list_laws in
    rw (layout-append 67 h body more, joined)
      (decode_executed_price h len shares match_number printable price more f.0 f.1 f.2
        (ground arith))
process_message-encode (cancelled h shares) more len f long =
    rw (layout-append 88 h (write_be32 shares) more)
      (decode_cancelled h (write_be32 shares ++ more) len f.0 shares more refl f.1 (ground arith))
process_message-encode (deleted h) more len f long =
    rw (layout-append 68 h [] more) (decode_deleted h more len f (ground arith))
process_message-encode (other msg_type rest) more len f long =
    decode_other msg_type len (rest ++ more) f (ground arith)
