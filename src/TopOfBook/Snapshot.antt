-- ===== src/TopOfBook/Snapshot.antt =====
-- The snapshots of include/top_of_book.hpp, its mid price and its spread.
use hft_trading_system.TopOfBook.{TopOfBook}
