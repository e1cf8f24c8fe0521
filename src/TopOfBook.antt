-- ===== src/TopOfBook.antt =====
-- include/top_of_book.hpp: the five best levels of each side, in arrays kept sorted in place. An
-- array is the list of its cells; the bid and the ask copies of a function differ in the comparison
-- alone, which is a parameter here. `imbalance` computes on doubles and is left out.
pub mod Sorted
pub mod Shifts
pub mod Update
pub mod Snapshot
mod Tests
use hft_trading_system.Prelude.{
  ℕ, zero, suc, ◌+◌, ◌/◌, ◌%◌, Bool, true, false, ◌||◌, List, [], ◌∷◌, ◌++◌, ◌==◌, ltb,
  if◌then◌else◌, min, u32, sub32, map,
}
use hft_trading_system.Types.{Side, buy, sell, invalid_price}
use hft_trading_system.Book.{bid_compare, ask_compare}

abbrev pub depth : ℕ
depth = 5

pub data BookState : Type 0 where
  empty building ready : BookState

-- `TopOfBook::Level`, and `L2Snapshot::Level`
pub record TopLevel : Type 0 where
  pub price : ℕ
  pub size : ℕ

abbrev pub is_empty : TopLevel → Bool
is_empty l = l.size == 0

abbrev pub cleared : TopLevel
cleared = record { price = 0; size = 0 }

pub record TopOfBook : Type 0 where
  pub bids : List TopLevel
  pub asks : List TopLevel
  pub last_update : ℕ
  pub sequence : ℕ
  pub state : BookState

abbrev pub no_levels : List TopLevel
no_levels = cleared ∷ cleared ∷ cleared ∷ cleared ∷ cleared ∷ []

abbrev pub new : TopOfBook
new = record { bids = no_levels; asks = no_levels; last_update = 0; sequence = 0; state = empty }

abbrev pub first : List TopLevel → TopLevel
first [] = cleared
first (l ∷ ls) = l

unfoldable pub best_bid : TopOfBook → ℕ
best_bid t = (first t.bids).price

unfoldable pub best_ask : TopOfBook → ℕ
best_ask t = (first t.asks).price

unfoldable pub mid_price : TopOfBook → ℕ
unfolding best_bid best_ask
mid_price t = if best_bid t == 0 || best_ask t == 0 then 0 else u32 (best_bid t + best_ask t) / 2

unfoldable pub spread : TopOfBook → ℕ
unfolding best_bid best_ask
spread t =
    if best_bid t == 0 || best_ask t == 0 then invalid_price else sub32 (best_ask t) (best_bid t)

-- `bid_levels` and `ask_levels`: up to the first empty cell.
unfoldable pub count_levels : List TopLevel → ℕ
count_levels [] = 0
count_levels (l ∷ ls) = let rest = count_levels ls in if is_empty l then 0 else rest + 1

unfoldable pub total_depth : List TopLevel → ℕ
total_depth [] = 0
total_depth (l ∷ ls) = u32 (l.size + total_depth ls)

-- The shift of the cells from a place on by one to the right: the last cell is lost.
unfoldable pub shift_down : TopLevel → List TopLevel → List TopLevel
shift_down x [] = []
shift_down x (l ∷ ls) = x ∷ shift_down l ls

-- `remove_bid_level` and `remove_ask_level`
unfoldable pub remove_level : ℕ → List TopLevel → List TopLevel
remove_level price [] = []
remove_level price (l ∷ ls) =
    let rest = remove_level price ls in if l.price == price then ls ++ cleared ∷ [] else l ∷ rest

-- The loop of `set_bid_level` and `set_ask_level`.
unfoldable pub place_level : (ℕ → ℕ → Bool) → ℕ → ℕ → List TopLevel → List TopLevel
unfolding shift_down
place_level c price size [] = []
place_level c price size (l ∷ ls) =
    let rest = place_level c price size ls in
    if l.price == price
    then record l { size = size } ∷ ls
    else if c price l.price || is_empty l
    then shift_down (record { price = price; size = size }) (l ∷ ls)
    else l ∷ rest

unfoldable pub set_side : (ℕ → ℕ → Bool) → ℕ → ℕ → List TopLevel → List TopLevel
unfolding remove_level place_level
set_side c price size ls = if size == 0 then remove_level price ls else place_level c price size ls

unfoldable pub set_level : TopOfBook → Side → ℕ → ℕ → TopOfBook
unfolding set_side
set_level t buy price size = record t {
  bids = set_side bid_compare price size t.bids;
  last_update = (t.last_update + 1) % 18446744073709551616;
}
set_level t sell price size = record t {
  asks = set_side ask_compare price size t.asks;
  last_update = (t.last_update + 1) % 18446744073709551616;
}

unfoldable pub clear : TopOfBook → TopOfBook
clear t = record {
  bids = map (λ _. cleared) t.bids;
  asks = map (λ _. cleared) t.asks;
  last_update = 0;
  sequence = 0;
  state = empty;
}

pub record L1Snapshot : Type 0 where
  pub bid_price : ℕ
  pub bid_size : ℕ
  pub ask_price : ℕ
  pub ask_size : ℕ
  pub sequence : ℕ

pub record L2Snapshot : Type 0 where
  pub bids : List TopLevel
  pub asks : List TopLevel
  pub sequence : ℕ
  pub bid_count : ℕ
  pub ask_count : ℕ

abbrev pub set_first : List TopLevel → TopLevel → List TopLevel
set_first [] l = []
set_first (_ ∷ ls) l = l ∷ ls

-- `apply_snapshot(const L1Snapshot&)`
unfoldable pub apply_l1_snapshot : TopOfBook → L1Snapshot → TopOfBook
unfolding clear
apply_l1_snapshot t snap =
    let e = clear t in
    record {
      bids =
          if ltb 0 snap.bid_price
          then set_first e.bids (record { price = snap.bid_price; size = snap.bid_size })
          else e.bids;
      asks =
          if ltb 0 snap.ask_price
          then set_first e.asks (record { price = snap.ask_price; size = snap.ask_size })
          else e.asks;
      last_update = 1;
      sequence = snap.sequence;
      state = ready;
    }

-- The copy of the first cells of a snapshot.
unfoldable pub copy_levels : ℕ → List TopLevel → List TopLevel → List TopLevel
copy_levels zero from into = into
copy_levels (suc n) [] into = into
copy_levels (suc n) (l ∷ from) [] = []
copy_levels (suc n) (l ∷ from) (_ ∷ into) = l ∷ copy_levels n from into

-- `apply_snapshot(const L2Snapshot<N>&)`
unfoldable pub apply_l2_snapshot : TopOfBook → L2Snapshot → TopOfBook
unfolding clear copy_levels
apply_l2_snapshot t snap =
    let e = clear t in
    record {
      bids = copy_levels (min snap.bid_count depth) snap.bids e.bids;
      asks = copy_levels (min snap.ask_count depth) snap.asks e.asks;
      last_update = 1;
      sequence = snap.sequence;
      state = ready;
    }

unfoldable pub to_l1_snapshot : TopOfBook → L1Snapshot
to_l1_snapshot t = record {
  bid_price = (first t.bids).price;
  bid_size = (first t.bids).size;
  ask_price = (first t.asks).price;
  ask_size = (first t.asks).size;
  sequence = t.sequence;
}

-- The number of cells that are not empty.
unfoldable pub count_filled : List TopLevel → ℕ
count_filled [] = 0
count_filled (l ∷ ls) = if is_empty l then count_filled ls else count_filled ls + 1

unfoldable pub to_l2_snapshot : TopOfBook → L2Snapshot
unfolding count_filled
to_l2_snapshot t = record {
  bids = map (λ l. if is_empty l then cleared else l) t.bids;
  asks = map (λ l. if is_empty l then cleared else l) t.asks;
  sequence = t.sequence;
  bid_count = count_filled t.bids;
  ask_count = count_filled t.asks;
}
