-- ===== src/Feed/Wire.antt =====
-- The layout of ITCH messages on the wire, which include/feed/itch_feed_handler.hpp and
-- include/feed_handler.hpp read, and what the messages mean: those that add, execute, cancel or delete
-- an order, and those of types that the code ignores. Replacements (type 'U') are left out, since the
-- code does only half of one: it deletes the old order and never adds the new one.
use hft_trading_system.Prelude.{
  ℕ, ◌/◌, ◌%◌, ◌<◌, ◌≡◌, Bool, false, ◌||◌, ◌==◌, Option, none, some, List, [], ◌∷◌, ◌++◌, length,
}
use hft_trading_system.Types.{Side, buy, sell}
use hft_trading_system.Ouch.Bytes.{write_be16, write_be32, write_be64}
use hft_trading_system.Feed.{Event, order_add, order_execute, order_reduce, order_delete}

unfoldable pub write_be48 : ℕ → List ℕ
write_be48 v =
    v / 1099511627776 % 256
    ∷ v / 4294967296 % 256
    ∷ v / 16777216 % 256
    ∷ v / 65536 % 256
    ∷ v / 256 % 256
    ∷ v % 256
    ∷ []

-- What every message begins with, behind its type.
pub record Header : Type 0 where
  pub stock_locate : ℕ
  pub tracking_number : ℕ
  pub timestamp : ℕ
  pub order_ref : ℕ

pub data Message : Type 0 where
  add : Header → Side → (shares : ℕ) (stock : List ℕ) (price : ℕ) (mpid : Option (List ℕ)) → Message
  executed : Header → (shares match_number : ℕ) → Message
  executed_price : Header → (shares match_number printable price : ℕ) → Message
  cancelled : Header → (shares : ℕ) → Message
  deleted : Header → Message
  -- of a type that the code does not know
  other : (msg_type : ℕ) (rest : List ℕ) → Message

abbrev pub side_byte : Side → ℕ
side_byte buy = 66
side_byte sell = 83

abbrev pub attribution_type : Option (List ℕ) → ℕ
attribution_type none = 65
attribution_type (some _) = 70

abbrev pub attribution_bytes : Option (List ℕ) → List ℕ
attribution_bytes none = []
attribution_bytes (some mpid) = mpid

-- A message with its type, its header, and what follows.
abbrev pub layout : ℕ → Header → List ℕ → List ℕ
layout t h body =
    t
    ∷ (write_be16 h.stock_locate
        ++ (write_be16 h.tracking_number
            ++ (write_be48 h.timestamp ++ (write_be64 h.order_ref ++ body))))

-- The bytes of a message, as the protocol lays them out.
unfoldable pub encode : Message → List ℕ
encode (add h side shares stock price mpid) = layout (attribution_type mpid) h (
    side_byte side ∷ (write_be32 shares ++ (stock ++ (write_be32 price ++ attribution_bytes mpid))))
encode (executed h shares match_number) = layout 69 h (write_be32 shares ++ write_be64 match_number)
encode (executed_price h shares match_number printable price) =
    layout 67 h (write_be32 shares ++ (write_be64 match_number ++ printable ∷ write_be32 price))
encode (cancelled h shares) = layout 88 h (write_be32 shares)
encode (deleted h) = layout 68 h []
encode (other msg_type rest) = msg_type ∷ rest

-- What a message says of the book.
abbrev pub meaning : Message → List Event
meaning (add h side shares stock price mpid) =
    order_add (record {
      order_id = h.order_ref;
      symbol_id = h.stock_locate;
      side = side;
      price = price;
      quantity = shares;
      timestamp = h.timestamp;
    })
    ∷ []
meaning (executed h shares match_number) =
    order_execute (record {
      order_id = h.order_ref;
      quantity = shares;
      exec_price = 0;
      timestamp = h.timestamp;
    })
    ∷ []
meaning (executed_price h shares match_number printable price) =
    order_execute (record {
      order_id = h.order_ref;
      quantity = shares;
      exec_price = price;
      timestamp = h.timestamp;
    })
    ∷ []
meaning (cancelled h shares) =
    order_reduce (record { order_id = h.order_ref; reduce_by = shares; timestamp = h.timestamp })
    ∷ []
meaning (deleted h) = order_delete (record { order_id = h.order_ref; timestamp = h.timestamp }) ∷ []
meaning (other msg_type rest) = []

pub record FitsHeader (h : Header) : Type 0 where
  pub locate_fits : h.stock_locate < 65536
  pub timestamp_fits : h.timestamp < 281474976710656
  pub ref_fits : h.order_ref < 18446744073709551616

-- The types that `process_message` knows.
abbrev pub is_known : ℕ → Bool
is_known t = t == 65 || t == 70 || (t == 69 || t == 67) || (t == 88 || (t == 68 || t == 85))

-- The fields fit their places.
abbrev pub FitsWire : Message → Type 0
FitsWire (add h side shares stock price mpid) =
    FitsHeader h × (shares < 4294967296) × (length stock ≡ 8) × (price < 4294967296)
FitsWire (executed h shares match_number) = FitsHeader h × (shares < 4294967296)
FitsWire (executed_price h shares match_number printable price) =
    FitsHeader h × (shares < 4294967296) × (price < 4294967296)
FitsWire (cancelled h shares) = FitsHeader h × (shares < 4294967296)
FitsWire (deleted h) = FitsHeader h
FitsWire (other msg_type rest) = is_known msg_type ≡ false

-- No message is shorter than the parser of its type asks for.
unfoldable pub least_length : Message → ℕ
least_length (add h side shares stock price mpid) = 36
least_length (executed h shares match_number) = 31
least_length (executed_price h shares match_number printable price) = 36
least_length (cancelled h shares) = 23
least_length (deleted h) = 19
least_length (other msg_type rest) = 1
