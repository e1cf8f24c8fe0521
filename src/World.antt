-- ===== src/World.antt =====
-- include/symbol_world.hpp: what is kept for one symbol, and the orders sent for it. The optional
-- market maker computes on doubles and is left out. A ticker is the list of its bytes.
mod Risk
pub mod Limits
pub mod Orders
mod Tests
use hft_trading_system.Prelude.{
  ℕ, ◌+◌, ◌/◌, Bool, true, false, ◌||◌, ◌==◌, if◌then◌else◌, leb, List, [], ◌∷◌, Option, none, some,
  ℤ, pos, u32, sub32, get, put, erase, alter,
}
use hft_trading_system.Types.{Side, buy, sell, invalid_price}
use hft_trading_system.OrderBook
use hft_trading_system.OrderBook.{OrderBook, best_bid, best_ask}
use hft_trading_system.Matching
use hft_trading_system.Matching.{MatchingEngine}
use hft_trading_system.TopOfBook
use hft_trading_system.TopOfBook.{TopOfBook}
use hft_trading_system.Position
use hft_trading_system.Position.{PositionTracker, flat_tracker, total_pnl}
use hft_trading_system.World.Risk
use hft_trading_system.World.Risk.{RiskManager, RiskConfig, default_risk_config, risk_manager}

pub record SymbolConfig : Type 0 where
  pub symbol : List ℕ
  pub base_price : ℕ
  pub price_range : ℕ
  pub enable_market_making : Bool
  pub spread_bps : ℤ
  pub quote_size : ℕ
  pub max_position : ℤ
  pub max_loss : ℤ

abbrev pub symbol_config : List ℕ → ℕ → ℕ → SymbolConfig
symbol_config symbol base range = record {
  symbol = symbol;
  base_price = base;
  price_range = range;
  enable_market_making = false;
  spread_bps = pos 10;
  quote_size = 100;
  max_position = pos 1000;
  max_loss = pos 9223372036854775807;
}

abbrev pub with_market_making : SymbolConfig → ℤ → ℕ → ℤ → SymbolConfig
with_market_making c spread size max_pos = record c {
  enable_market_making = true;
  spread_bps = spread;
  quote_size = size;
  max_position = max_pos;
}

abbrev pub with_risk_limit : SymbolConfig → ℤ → SymbolConfig
with_risk_limit c loss_limit = record c { max_loss = loss_limit }

pub record OurOrder : Type 0 where
  pub id : ℕ
  pub side : Side
  pub price : ℕ
  pub qty : ℕ
  pub filled_qty : ℕ

abbrev pub remaining : OurOrder → ℕ
remaining o = sub32 o.qty o.filled_qty

abbrev pub is_filled : OurOrder → Bool
is_filled o = leb o.qty o.filled_qty

pub record SymbolWorld : Type 0 where
  pub id : ℕ
  pub ticker : List ℕ
  pub config : SymbolConfig
  pub book : OrderBook
  pub matching : MatchingEngine
  pub position : PositionTracker
  pub risk : RiskManager
  pub our_orders : List (ℕ × OurOrder)
  pub top : TopOfBook

abbrev risk_config : SymbolConfig → RiskConfig
risk_config c = record default_risk_config { max_position = c.max_position; max_loss = c.max_loss }

unfoldable pub symbol_world : ℕ → List ℕ → SymbolConfig → SymbolWorld
symbol_world id ticker c = record {
  id = id;
  ticker = ticker;
  config = c;
  book = OrderBook.new c.base_price c.price_range;
  matching = Matching.new c.base_price c.price_range;
  position = flat_tracker;
  risk = risk_manager (risk_config c);
  our_orders = [];
  top = TopOfBook.new;
}

unfoldable pub mid_price : SymbolWorld → ℕ
mid_price w =
    let bid = best_bid w.book in
    let ask = best_ask w.book in
    if bid == invalid_price || ask == invalid_price then invalid_price else u32 (bid + ask) / 2

unfoldable pub spread : SymbolWorld → ℕ
spread w =
    let bid = best_bid w.book in
    let ask = best_ask w.book in
    if bid == invalid_price || ask == invalid_price then invalid_price else sub32 ask bid

unfoldable pub can_trade : SymbolWorld → Side → ℕ → Bool
can_trade w side size = Risk.can_trade w.risk side size w.position.position

abbrev pub is_halted : SymbolWorld → Bool
is_halted w = Risk.is_halted w.risk

unfoldable pub submit_order : SymbolWorld → ℕ → Side → ℕ → ℕ → ℕ → SymbolWorld
submit_order w id side price qty trader = record w {
  matching = (Matching.add_order w.matching id side price qty trader).0;
}

unfoldable pub cancel_order : SymbolWorld → ℕ → SymbolWorld × Bool
cancel_order w id =
    let (m, found) = Matching.cancel w.matching id in (record w { matching = m }, found)

unfoldable pub on_fill : SymbolWorld → Side → ℕ → ℕ → SymbolWorld
unfolding mid_price
on_fill w side qty price =
    let w1 = record w { position = Position.on_fill w.position side qty price } in
    let mid = mid_price w1 in
    if mid == invalid_price
    then w1
    else record w1 { risk = Risk.update_pnl w1.risk (total_pnl w1.position mid) }

unfoldable pub track_order : SymbolWorld → ℕ → Side → ℕ → ℕ → SymbolWorld
track_order w id side price qty =
    let o : OurOrder = record { id = id; side = side; price = price; qty = qty; filled_qty = 0 } in
    record w { our_orders = put id o w.our_orders }

abbrev pub filled : ℕ → OurOrder → OurOrder
filled fill_qty o = record o { filled_qty = u32 (o.filled_qty + fill_qty) }

unfoldable pub on_our_fill : SymbolWorld → ℕ → ℕ → SymbolWorld
on_our_fill w id fill_qty = elim (get id w.our_orders) [
  | none ↦ w
  | some o ↦
      if is_filled (filled fill_qty o)
      then record w { our_orders = erase id w.our_orders }
      else record w { our_orders = alter id (filled fill_qty) w.our_orders }
]

unfoldable pub untrack_order : SymbolWorld → ℕ → SymbolWorld
untrack_order w id = record w { our_orders = erase id w.our_orders }
