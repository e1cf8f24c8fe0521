-- ===== src/QueueFill.antt =====
-- include/paper/queue_fill_detector.hpp: when a paper order in a queue counts as filled. The estimates
-- of the probability of a fill compute on doubles and lead to no fill: they are left out. The fill
-- callback is the list of the fills given to it. The map of levels is a function of its key. Fields
-- that only the estimates read are left out, and the counter of sequence numbers does not wrap around.
pub mod Level
pub mod State
pub mod Volume
pub mod Fifo
pub mod Accounts
pub mod Conserve
mod Tests
use hft_trading_system.Prelude.{
  ℕ, zero, suc, ◌+◌, ◌-◌, ◌%◌, Bool, true, false, ◌&&◌, not, ◌==◌, ltb, leb, if◌then◌else◌, min,
  List, [], ◌∷◌, ◌++◌, Option, none, some, length, u32, sub32, get, put, alter,
}
use hft_trading_system.Types.{Side, buy, sell}
use hft_trading_system.QueueFill.Level.{
  QueueEntry, PriceLevelQueue, remaining_before, queue_ahead, calculate_total_remaining, any_ours,
  update_has_our_order, step_position, remove_loop, consume, cleanup,
}
use hft_trading_system.QueueFill.State.{
  PaperOrderState, Fill, LevelKey, QueueFillDetector, queue_fill_detector, same_book_side, same_key,
  with_level, new_level, level_or_new, other_entry,
}

unfoldable pub set_initial_queue_depth : QueueFillDetector → LevelKey → ℕ → QueueFillDetector
set_initial_queue_depth d key depth_ahead = elim (d.levels key) [
  | none ↦ d
  | some l ↦
      if not l.has_our_order
      then d
      else with_level d key (record l {
        queue = other_entry 0 depth_ahead ∷ l.queue;
        our_position = 1;
        total_ahead_at_entry = depth_ahead;
      })
]

unfoldable pub register_order : QueueFillDetector → ℕ → LevelKey → ℕ → ℕ → QueueFillDetector
unfolding calculate_total_remaining
register_order d id key qty timestamp_ns =
    let o : PaperOrderState = record {
      quantity = qty;
      filled = 0;
      submit_time_ns = timestamp_ns;
      sequence = d.next_sequence;
      is_active = true;
    } in
    let l = level_or_new (d.levels key) in
    let e : QueueEntry = record {
      sequence = d.next_sequence;
      quantity = qty;
      remaining = qty;
      is_ours = true;
      our_order_id = id;
    } in
    let l' = record l {
      price = key.price;
      our_position = length l.queue;
      our_sequence = d.next_sequence;
      our_order_id = id;
      has_our_order = true;
      total_ahead_at_entry = calculate_total_remaining l.queue;
      queue = l.queue ++ e ∷ [];
    } in
    record (with_level d key l') {
      next_sequence = d.next_sequence + 1;
      orders = put id o d.orders;
      order_to_level = put id key d.order_to_level;
    }

-- The end of both confirmations: `filled` and `is_active` are written and the callback is called.
unfoldable pub report_fill : QueueFillDetector → ℕ → PaperOrderState → ℕ → ℕ → QueueFillDetector
report_fill d id o price timestamp_ns = record d {
  orders =
      alter id (λ (x : PaperOrderState). record x { filled = x.quantity; is_active = false })
        d.orders;
  fills =
      d.fills
      ++ record {
        order_id = id;
        quantity = sub32 o.quantity o.filled;
        price = price;
        time_ns = timestamp_ns;
        wait_ns = (timestamp_ns + 18446744073709551616 - o.submit_time_ns) % 18446744073709551616;
      }
        ∷ [];
}

unfoldable pub confirm_fill_order : QueueFillDetector → ℕ → ℕ → ℕ → QueueFillDetector
confirm_fill_order d id price timestamp_ns = elim (get id d.orders) [
  | none ↦ d
  | some o ↦
      if not o.is_active
      then d
      else if sub32 o.quantity o.filled == 0
      then d
      else report_fill d id o price timestamp_ns
]

unfoldable pub confirm_orders : QueueFillDetector → List ℕ → ℕ → ℕ → QueueFillDetector
confirm_orders d [] price timestamp_ns = d
confirm_orders d (id ∷ ids) price timestamp_ns =
    confirm_orders (confirm_fill_order d id price timestamp_ns) ids price timestamp_ns

-- For the order registered last at the level, of whatever state.
unfoldable pub confirm_fill : QueueFillDetector → LevelKey → PriceLevelQueue → ℕ → QueueFillDetector
unfolding report_fill
confirm_fill d key l timestamp_ns =
    if not l.has_our_order then d else elim (get l.our_order_id d.orders) [
      | none ↦ d
      | some o ↦
          if sub32 o.quantity o.filled == 0
          then d
          else with_level (report_fill d l.our_order_id o l.price timestamp_ns) key
              (record l { has_our_order = false })
    ]

unfoldable pub remove_from_front :
    QueueFillDetector → LevelKey → PriceLevelQueue → ℕ → ℕ → QueueFillDetector
unfolding remove_loop confirm_orders update_has_our_order
remove_from_front d key l qty timestamp_ns =
    let (l', filled_orders) = remove_loop l.queue l qty in
    with_level (confirm_orders d filled_orders l'.price timestamp_ns) key (update_has_our_order l')

unfoldable pub on_l2_update : QueueFillDetector → LevelKey → ℕ → ℕ → ℕ → QueueFillDetector
unfolding remove_from_front
on_l2_update d key old_size new_size timestamp_ns = elim (d.levels key) [
  | none ↦ d
  | some l ↦
      if ltb old_size new_size
      then record (with_level d key (record l {
        queue = l.queue ++ other_entry d.next_sequence (new_size - old_size) ∷ [];
      })) { next_sequence = d.next_sequence + 1 }
      else if ltb new_size old_size
      then remove_from_front d key l (old_size - new_size) timestamp_ns
      else d
]

-- The FIFO part of `on_trade`.
unfoldable pub trade_through :
    QueueFillDetector → LevelKey → PriceLevelQueue → ℕ → ℕ → QueueFillDetector
unfolding consume cleanup confirm_orders update_has_our_order
trade_through d key l qty timestamp_ns =
    let (queue', filled_orders) = consume qty l.queue in
    let l' = cleanup queue' l in
    with_level (confirm_orders d filled_orders l'.price timestamp_ns) key (update_has_our_order l')

abbrev pub passive_side : Side → Side
passive_side buy = sell
passive_side sell = buy

unfoldable pub on_trade : QueueFillDetector → ℕ → ℕ → ℕ → Side → ℕ → ℕ → QueueFillDetector
unfolding confirm_fill trade_through
on_trade d symbol price qty aggressor_side timestamp_ns passive_sequence =
    let key : LevelKey = record {
      symbol = symbol;
      price = price;
      side = passive_side aggressor_side;
    } in
    elim (d.levels key) [
      | none ↦ d
      | some l ↦
          let l1 = record l { volume_traded = u32 (l.volume_traded + qty) } in
          let d1 = with_level d key l1 in
          if not l1.has_our_order
          then d1
          else if ltb 0 passive_sequence && ltb l1.our_sequence passive_sequence
          then confirm_fill d1 key l1 timestamp_ns
          else trade_through d1 key l1 qty timestamp_ns
    ]

unfoldable pub remove_ours : ℕ → List QueueEntry → List QueueEntry
remove_ours id [] = []
remove_ours id (e ∷ es) =
    let rest = remove_ours id es in if e.is_ours && e.our_order_id == id then es else e ∷ rest

unfoldable pub cancel_order : QueueFillDetector → ℕ → QueueFillDetector
unfolding remove_ours
cancel_order d id = elim (get id d.orders) [
  | none ↦ d
  | some o ↦
      let d1 = record d {
        orders = alter id (λ (x : PaperOrderState). record x { is_active = false }) d.orders;
      } in
      elim (get id d.order_to_level) [
        | none ↦ d1
        | some key ↦
            let l = level_or_new (d.levels key) in
            with_level d1 key (record l { has_our_order = false; queue = remove_ours id l.queue })
      ]
]

unfoldable pub active_orders : List (ℕ × PaperOrderState) → ℕ
active_orders [] = 0
active_orders ((id, o) ∷ os) = let rest = active_orders os in if o.is_active then rest + 1 else rest
