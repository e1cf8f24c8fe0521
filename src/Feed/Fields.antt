-- ===== src/Feed/Fields.antt =====
-- The fields of the messages that include/feed/itch_feed_handler.hpp reads, one by one.
use hft_trading_system.Prelude.{ℕ, ◌<◌, ◌≡◌, refl, List, ◌∷◌, ◌++◌, arith, drop, length, drop-front}
use hft_trading_system.Types.{Side, buy, sell}
use hft_trading_system.Ouch.Bytes.{
  byte_at, write_be16, write_be32, write_be64, read_be16, read_be32, read_be64,
}
use hft_trading_system.Ouch.Layout.{read_be-write_be}
use hft_trading_system.Feed.{side_of, read_be48}
use hft_trading_system.Feed.Wire.{write_be48, Header, side_byte, layout, FitsHeader}

read_be48-write_be48 : (v : ℕ) → v < 281474976710656 → read_be48 (write_be48 v) ≡ v
unfolding read_be48 write_be48
read_be48-write_be48 v h = omega (arith, h)

pub side_of-side_byte : (side : Side) → side_of (side_byte side) ≡ side
side_of-side_byte buy = refl
side_of-side_byte sell = refl

-- The header is read from wherever the rest of the message leads.
pub read_header :
    (t : ℕ) (h : Header) (body : List ℕ)
    → FitsHeader h
    → (read_be16 (drop 1 (layout t h body)) ≡ h.stock_locate)
      × (read_be48 (drop 5 (layout t h body)) ≡ h.timestamp)
      × (read_be64 (drop 11 (layout t h body)) ≡ h.order_ref)
unfolding read_be16 read_be48 read_be64 write_be16 write_be48 write_be64
read_header t h body f = (
  (read_be-write_be h.stock_locate).0 f.locate_fits,
  read_be48-write_be48 h.timestamp f.timestamp_fits,
  (read_be-write_be h.order_ref).2 f.ref_fits,
)

read_field : (v : ℕ) (more : List ℕ) → v < 4294967296 → read_be32 (write_be32 v ++ more) ≡ v
unfolding read_be32 write_be32
read_field v more h = (read_be-write_be v).1 h

pub read_shares :
    (t shares : ℕ) (h : Header) (body more : List ℕ)
    → body ≡ write_be32 shares ++ more
    → shares < 4294967296
    → read_be32 (drop 19 (layout t h body)) ≡ shares
unfolding write_be16 write_be48 write_be64
read_shares t shares h body more e hs = rw e (read_field shares more hs)

-- The fields of an order that is added.
pub read_add :
    (t b shares price : ℕ) (h : Header) (stock more : List ℕ)
    → shares < 4294967296
    → price < 4294967296
    → length stock ≡ 8
    → let bytes = layout t h (b ∷ (write_be32 shares ++ (stock ++ (write_be32 price ++ more)))) in
      (byte_at bytes 19 ≡ b)
      × (read_be32 (drop 20 bytes) ≡ shares)
      × (read_be32 (drop 32 bytes) ≡ price)
unfolding write_be16 write_be48 write_be64 write_be32
read_add t b shares price h stock more hs hp len = (
  refl,
  read_field shares (stock ++ (write_be32 price ++ more)) hs,
  rw (drop-front 8 8 stock (write_be32 price ++ more) len (omega arith)) (read_field price more hp),
)

pub read_price :
    (t shares match_number printable price : ℕ) (h : Header) (more : List ℕ)
    → price < 4294967296
    → read_be32 (
        drop 32 (
          layout t h (
            write_be32 shares
            ++ (write_be64 match_number ++ printable ∷ (write_be32 price ++ more)))))
      ≡ price
unfolding write_be16 write_be48 write_be64 write_be32
read_price t shares match_number printable price h more hp = read_field price more hp
