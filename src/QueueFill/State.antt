-- ===== src/QueueFill/State.antt =====
-- The state of include/paper/queue_fill_detector.hpp: its orders, its levels by their keys, and the
-- fills reported.
use hft_trading_system.Prelude.{
  ℕ, Bool, true, false, ◌&&◌, ◌==◌, if◌then◌else◌, List, [], Option, none, some,
}
use hft_trading_system.Types.{Side, buy, sell}
use hft_trading_system.QueueFill.Level.{QueueEntry, PriceLevelQueue}

pub record PaperOrderState : Type 0 where
  pub quantity : ℕ
  pub filled : ℕ
  pub submit_time_ns : ℕ
  pub sequence : ℕ
  pub is_active : Bool

-- What the fill callback is told: the order, the quantity, the price, the time and the wait.
pub record Fill : Type 0 where
  pub order_id : ℕ
  pub quantity : ℕ
  pub price : ℕ
  pub time_ns : ℕ
  pub wait_ns : ℕ

pub record LevelKey : Type 0 where
  pub symbol : ℕ
  pub price : ℕ
  pub side : Side

pub record QueueFillDetector : Type 0 where
  pub next_sequence : ℕ
  pub orders : List (ℕ × PaperOrderState)
  pub levels : LevelKey → Option PriceLevelQueue
  pub order_to_level : List (ℕ × LevelKey)
  pub fills : List Fill

unfoldable pub queue_fill_detector : QueueFillDetector
queue_fill_detector = record {
  next_sequence = 1;
  orders = [];
  levels = λ _. none;
  order_to_level = [];
  fills = [];
}

abbrev pub same_book_side : Side → Side → Bool
same_book_side buy buy = true
same_book_side buy sell = false
same_book_side sell buy = false
same_book_side sell sell = true

abbrev pub same_key : LevelKey → LevelKey → Bool
same_key a b = a.symbol == b.symbol && a.price == b.price && same_book_side a.side b.side

abbrev pub with_level : QueueFillDetector → LevelKey → PriceLevelQueue → QueueFillDetector
with_level d key l = record d { levels = λ k. if same_key k key then some l else d.levels k }

-- What `levels_[key]` makes of a key that is not there.
abbrev pub new_level : PriceLevelQueue
new_level = record {
  price = 0;
  queue = [];
  has_our_order = false;
  our_position = 0;
  our_sequence = 0;
  our_order_id = 0;
  total_ahead_at_entry = 0;
  volume_traded = 0;
}

abbrev pub level_or_new : Option PriceLevelQueue → PriceLevelQueue
level_or_new none = new_level
level_or_new (some l) = l

abbrev pub other_entry : ℕ → ℕ → QueueEntry
other_entry sequence qty = record {
  sequence = sequence;
  quantity = qty;
  remaining = qty;
  is_ours = false;
  our_order_id = 0;
}
