-- ===== src/Engine/Named.antt =====
-- The engines that the operations of include/trading_engine.hpp lead to, and what a change of one
-- of their symbols keeps.
use hft_trading_system.Prelude.{
  ℕ, ◌+◌, ◌<◌, ◌≡◌, refl, sym, ◌∙◌, arith, Bool, false, ◌==◌, ==_refl, List, some, Bool-cases, inl,
  inr, if_so, if_not, subst, get, put, alter, get-put, get-alter, u32,
}
use native.Mathlib.Nat.{mod-eq_of_lt}
use mathlib.Core.Option.{some-injective}
use hft_trading_system.Types.{Side}
use hft_trading_system.OrderBook.Invariant.{IsValid}
use hft_trading_system.OrderBook.Add.{Fits}
use hft_trading_system.OrderBook.Reach.{new-IsValid}
use hft_trading_system.Halt
use hft_trading_system.Halt.{
  HaltManager, HaltReason, PositionInfo, is_running, set_alert_callback, run_halt,
}
use hft_trading_system.World.{SymbolWorld, SymbolConfig, symbol_world}
use hft_trading_system.Engine.{
  TradingEngine, trading_engine, add_symbol, same_ticker, find_ticker, on_add_order,
  on_cancel_order, on_execute_order, send_order_to, cancel_order, halt,
}
use hft_trading_system.Engine.Symbols.{Ids, Ids-put, Ids-alter, Ids-get}
use hft_trading_system.Engine.Tickers.{same_ticker→eq, find_ticker-put_ticker}
use hft_trading_system.Engine.Halting.{IsWired}

-- The engines that calls of the operations lead to, in any order and with any arguments. The orders
-- given to a book have to fit it, an id has to be left for a new symbol, and what is done to a symbol
-- otherwise keeps its id, its ticker and its book.
pub data TradingReaches : TradingEngine → Type 0 where
  started : TradingReaches trading_engine
  symbol_added :
      {e : TradingEngine}
      → TradingReaches e
      → (c : SymbolConfig) → e.next_symbol_id + 1 < 4294967296
      → TradingReaches (add_symbol e c).0
  order_added :
      {e : TradingEngine}
      → TradingReaches e
      → (symbol id : ℕ) (side : Side) (price quantity : ℕ)
      → ((w : SymbolWorld) → get symbol e.worlds ≡ some w → Fits w.book side price quantity)
      → TradingReaches (on_add_order e symbol id side price quantity)
  order_cancelled :
      {e : TradingEngine}
      → TradingReaches e
      → (symbol id : ℕ) → TradingReaches (on_cancel_order e symbol id)
  order_executed :
      {e : TradingEngine}
      → TradingReaches e
      → (symbol id quantity : ℕ) → TradingReaches (on_execute_order e symbol id quantity)
  symbol_changed :
      {e : TradingEngine}
      → TradingReaches e
      → (symbol : ℕ) (f : SymbolWorld → SymbolWorld)
      → ((w : SymbolWorld) → ((f w).id ≡ w.id) × ((f w).ticker ≡ w.ticker) × ((f w).book ≡ w.book))
      → TradingReaches (record e { worlds = alter symbol f e.worlds })
  order_sent :
      {e : TradingEngine}
      → TradingReaches e
      → (answer : Bool) (symbol : ℕ) (side : Side) (qty : ℕ) (is_market : Bool)
      → TradingReaches (send_order_to answer e symbol side qty is_market).0
  cancel_sent :
      {e : TradingEngine}
      → TradingReaches e
      → (answer : Bool) (symbol id : ℕ) → TradingReaches (cancel_order answer e symbol id).0
  alert_set :
      {e : TradingEngine}
      → TradingReaches e
      → TradingReaches (record e { halt_manager = set_alert_callback e.halt_manager })
  halted :
      {e : TradingEngine}
      → TradingReaches e
      → (accepts : ℕ → Bool) (why : HaltReason) → TradingReaches (halt accepts e why).0
  halt_reset :
      {e : TradingEngine}
      → TradingReaches e
      → TradingReaches (record e { halt_manager = Halt.reset e.halt_manager })

-- The id names a symbol of this ticker.
abbrev pub Named : List ℕ → ℕ → List (ℕ × SymbolWorld) → Type 0
Named ticker id ws = (w : SymbolWorld) × (get id ws ≡ some w) × (w.ticker ≡ ticker)

pub record IsEngine (e : TradingEngine) : Type 0 where
  pub ids : Ids 1 e.worlds e.next_symbol_id
  pub named :
      (ticker : List ℕ) (id : ℕ)
      → find_ticker ticker e.ticker_to_id ≡ some id
      → Named ticker id e.worlds
  pub wired : IsWired e.halt_manager

changed-Named :
    (ws : List (ℕ × SymbolWorld)) (symbol : ℕ) (f : SymbolWorld → SymbolWorld) (ticker : List ℕ)
    (id : ℕ)
    → ((w : SymbolWorld) → (f w).ticker ≡ w.ticker)
    → Named ticker id ws
    → Named ticker id (alter symbol f ws)
changed-Named ws symbol f ticker id keeps (w, found, same) = elim (Bool-cases (id == symbol)) [
  | inl here ↦ (f w, get-alter id symbol f ws ∙ rw (here, found) refl, keeps w ∙ same)
  | inr other ↦ (w, get-alter id symbol f ws ∙ rw other found, same)
]

-- A change of one symbol that keeps its id, its ticker and the validity of its book.
pub changed :
    (e : TradingEngine) (symbol : ℕ) (f : SymbolWorld → SymbolWorld)
    → IsEngine e
    → ((w : SymbolWorld) → ((f w).id ≡ w.id) × ((f w).ticker ≡ w.ticker))
    → ((w : SymbolWorld) → get symbol e.worlds ≡ some w → IsValid w.book → IsValid (f w).book)
    → IsEngine (record e { worlds = alter symbol f e.worlds })
changed e symbol f ok keeps valid = record {
  ids =
      Ids-alter 1 e.worlds e.next_symbol_id symbol f ok.ids
        (λ w found good. ((keeps w).0 ∙ good.0, valid w found good.1));
  named = λ ticker id found.
      changed-Named e.worlds symbol f ticker id (λ w. (keeps w).1) (ok.named ticker id found);
  wired = ok.wired;
}

added-Named :
    (e : TradingEngine) (c : SymbolConfig)
    → IsEngine e
    → (ticker : List ℕ) (id : ℕ) → find_ticker ticker (add_symbol e c).0.ticker_to_id ≡ some id
    → Named ticker id (add_symbol e c).0.worlds
unfolding add_symbol symbol_world
added-Named e c ok ticker id found =
    let new = e.next_symbol_id in
    let w = symbol_world new c.symbol c in
    let found' = sym (find_ticker-put_ticker ticker c.symbol new e.ticker_to_id) ∙ found in
    elim (Bool-cases (same_ticker ticker c.symbol)) [
      | inl same ↦
          let it : new ≡ id =
            some-injective new id (sym (if_so (same_ticker ticker c.symbol) _ _ same) ∙ found') in
          subst (λ (k : ℕ). Named ticker k (put new w e.worlds)) it
            (
              w,
              get-put new new w e.worlds ∙ rw (==_refl new) refl,
              sym (same_ticker→eq ticker c.symbol same),
            )
      | inr other ↦
          let (v, known, named) =
            ok.named ticker id (sym (if_not (same_ticker ticker c.symbol) _ _ other) ∙ found') in
          let (below, good) = Ids-get 1 e.worlds new id v ok.ids known in
          let apart : (id == new) ≡ false = ground (arith, below) in
          (v, get-put id new w e.worlds ∙ rw apart known, named)
    ]

pub added :
    (e : TradingEngine) (c : SymbolConfig)
    → IsEngine e
    → e.next_symbol_id + 1 < 4294967296
    → IsEngine (add_symbol e c).0
unfolding add_symbol symbol_world
added e c ok room =
    let exact : u32 (e.next_symbol_id + 1) ≡ e.next_symbol_id + 1 = mod-eq_of_lt room in
    record {
      ids =
          subst
            (λ (n : ℕ).
              Ids 1 (put e.next_symbol_id (symbol_world e.next_symbol_id c.symbol c) e.worlds) n)
            (sym exact)
            (Ids-put 1 e.worlds e.next_symbol_id (symbol_world e.next_symbol_id c.symbol c) ok.ids
              (refl, new-IsValid c.base_price c.price_range));
      named = added-Named e c ok;
      wired = ok.wired;
    }
