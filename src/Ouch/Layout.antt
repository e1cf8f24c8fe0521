-- ===== src/Ouch/Layout.antt =====
-- Round trips of the fields of include/ouch/ouch_messages.hpp.
use hft_trading_system.Prelude.{
  ap, ◌∙◌, refl, ℕ, zero, suc, ◌+◌, ◌-◌, ◌<◌, ◌≡◌, List, [], ◌∷◌, ◌++◌, arith, take, drop,
  replicate, length, length-append, length-replicate, take-front, drop-front, get_elem?,
  get_elem?-front, Option, none, some,
}
use hft_trading_system.Ouch.{
  EnterOrder, enter_order_bytes, set_quantity, set_price, set_stock, set_token, enter_order,
  msg_enter_order,
}
use hft_trading_system.Ouch.Incoming.{
  executed_of, get_executed_quantity, get_execution_price, get_match_number, get_timestamp,
}
use hft_trading_system.Ouch.Bytes.{
  slice, space, padded, write_be16, write_be32, write_be64, read_be16, read_be32, read_be64,
  byte_at, padded,
}

-- A 16, 32 or 64 bit number that is written in big-endian order is read back.
pub read_be-write_be :
    (v : ℕ)
    → (v < 65536 → read_be16 (write_be16 v) ≡ v)
      × (v < 4294967296 → read_be32 (write_be32 v) ≡ v)
      × (v < 18446744073709551616 → read_be64 (write_be64 v) ≡ v)
unfolding read_be16 write_be16 read_be32 write_be32 read_be64 write_be64
read_be-write_be v = (λ h. omega (arith, h), λ h. omega (arith, h), λ h. omega (arith, h))

length-take-min : (n : ℕ) (xs : List ℕ) → length (take n xs) + (n - length xs) ≡ n
length-take-min zero xs = omega arith
length-take-min (suc n) [] = omega arith
length-take-min (suc n) (x ∷ xs) = omega (arith, length-take-min n xs)

-- A padded field has its size, whatever is written into it.
length-padded : (n : ℕ) (s : List ℕ) → length (padded n s) ≡ n
unfolding padded
length-padded n s = omega (
  arith,
  length-append (take n s) (replicate (n - length s) space),
  length-take-min n s,
  length-replicate (n - length s) space,
)

-- A message of the exchange on the wire.
abbrev pub executed_bytes : ℕ → List ℕ → ℕ → ℕ → ℕ → ℕ → List ℕ
executed_bytes time token qty price flag number =
    69
    ∷ (write_be64 time
        ++ (token ++ (write_be32 qty ++ (write_be32 price ++ flag ∷ write_be64 number))))

-- An execution that is laid out as the protocol says, in numbers that its fields hold, is read back
-- field by field.
pub executed_of-executed_bytes :
    (time : ℕ) (token : List ℕ) (qty price flag number : ℕ)
    → time < 18446744073709551616
    → length token ≡ 14
    → qty < 4294967296
    → price < 4294967296
    → number < 18446744073709551616
    → let e = executed_of (executed_bytes time token qty price flag number) in
      (get_timestamp e ≡ time)
      × (e.token ≡ token)
      × (get_executed_quantity e ≡ qty)
      × (get_execution_price e ≡ price)
      × (e.liquidity_flag ≡ flag)
      × (get_match_number e ≡ number)
unfolding executed_of get_timestamp get_executed_quantity get_execution_price get_match_number
    write_be64 write_be32 read_be64 read_be32
executed_of-executed_bytes time token qty price flag number ht len hq hp hn =
    let after : List ℕ = write_be32 qty ++ (write_be32 price ++ flag ∷ write_be64 number) in
    let taken : take 14 (token ++ after) ≡ token = take-front 14 token after len in
    let from_qty : drop 14 (token ++ after) ≡ after =
      drop-front 14 14 token after len (omega arith) in
    let from_price : drop 18 (token ++ after) ≡ drop 4 after =
      drop-front 18 14 token after len (omega arith) in
    let from_number : drop 23 (token ++ after) ≡ drop 9 after =
      drop-front 23 14 token after len (omega arith) in
    let at_flag : get_elem? (token ++ after) 22 ≡ get_elem? after 8 =
      get_elem?-front 22 14 token after len (omega arith) in
    (
      (read_be-write_be time).2 ht,
      taken,
      rw (from_qty, get_executed_quantity, executed_of) ((read_be-write_be qty).1 hq),
      rw (from_price, get_execution_price, executed_of) ((read_be-write_be price).1 hp),
      ap (λ (x : Option ℕ). elim x [ none ↦ 0 | some b ↦ b ]) at_flag,
      rw (from_number, get_match_number, executed_of) ((read_be-write_be number).2 hn),
    )

-- The fields of an order have the sizes of the struct.
record IsSized (o : EnterOrder) : Type 0 where
  token_size : length o.token ≡ 14
  stock_size : length o.stock ≡ 8
  tif_size : length o.time_in_force ≡ 4
  firm_size : length o.firm ≡ 4
  min_quantity_size : length o.min_quantity ≡ 4

sized_bytes :
    (o : EnterOrder) (qty price : ℕ)
    → IsSized o
    → qty < 4294967296
    → price < 4294967296
    → let b = enter_order_bytes (set_price (set_quantity o qty) price) in
      (length b ≡ 48)
      × (slice 1 14 b ≡ o.token)
      × (read_be32 (slice 16 4 b) ≡ qty)
      × (slice 20 8 b ≡ o.stock)
      × (read_be32 (slice 28 4 b) ≡ price)
unfolding enter_order_bytes write_be32
sized_bytes o qty price v hq hp =
    let tail : List ℕ =
      o.display ∷ o.capacity ∷ o.intermarket_sweep ∷ (o.min_quantity ++ o.cross_type ∷ []) in
    let after_price : List ℕ = o.time_in_force ++ (o.firm ++ tail) in
    let after_stock : List ℕ = write_be32 price ++ after_price in
    let after_token : List ℕ = o.side ∷ (write_be32 qty ++ (o.stock ++ after_stock)) in
    let token = o.token in
    let at_qty : drop 15 (token ++ after_token) ≡ drop 1 after_token =
      drop-front 15 14 token after_token v.token_size (omega arith) in
    let at_stock : drop 19 (token ++ after_token) ≡ o.stock ++ after_stock =
      drop-front 19 14 token after_token v.token_size (omega arith) in
    let at_price : drop 27 (token ++ after_token) ≡ after_stock =
      drop-front 27 14 token after_token v.token_size (omega arith)
      ∙ drop-front 8 8 o.stock after_stock v.stock_size (omega arith) in
    (
      omega (
        arith,
        length-append token after_token,
        length-append o.stock after_stock,
        length-append o.time_in_force (o.firm ++ tail),
        length-append o.firm tail,
        length-append o.min_quantity (o.cross_type ∷ []),
        v.token_size,
        v.stock_size,
        v.tif_size,
        v.firm_size,
        v.min_quantity_size,
      ),
      take-front 14 token after_token v.token_size,
      rw at_qty ((read_be-write_be qty).1 hq),
      rw at_stock (take-front 8 o.stock after_stock v.stock_size),
      rw at_price ((read_be-write_be price).1 hp),
    )

-- An order that the setters fill takes 48 bytes on the wire, whatever they are given: its type, the
-- token and the stock, cut or padded to their sizes, and the quantity and the price, which 32 bits
-- hold, in big-endian order, each at the place that the protocol gives it.
pub enter_order_bytes_lem :
    (token stock : List ℕ) (qty price : ℕ)
    → qty < 4294967296
    → price < 4294967296
    → let o = set_price (set_quantity (set_stock (set_token enter_order token) stock) qty) price in
      let b = enter_order_bytes o in
      (length b ≡ 48)
      × (byte_at b 0 ≡ msg_enter_order)
      × (slice 1 14 b ≡ padded 14 token)
      × (read_be32 (slice 16 4 b) ≡ qty)
      × (slice 20 8 b ≡ padded 8 stock)
      × (read_be32 (slice 28 4 b) ≡ price)
unfolding enter_order enter_order_bytes
enter_order_bytes_lem token stock qty price hq hp =
    let v : IsSized (set_stock (set_token enter_order token) stock) = record {
      token_size = length-padded 14 token;
      stock_size = length-padded 8 stock;
      tif_size = refl;
      firm_size = refl;
      min_quantity_size = refl;
    } in
    let r = sized_bytes _ qty price v hq hp in (r.0, refl, r.1, r.2, r.3, r.4)
