-- ===== src/RateLimiter/Tests.antt =====
-- The theorems of include/security/rate_limiter.hpp at the default configuration.
use hft_trading_system.Prelude.{ℕ, ◌+◌, ◌≤◌, ◌<◌, refl, List, [], ◌∷◌, arith}
use hft_trading_system.RateLimiter.{RateLimiter, default_config, new}
use hft_trading_system.RateLimiter.Limits.{
  accepted_of, accepted_all, room_of, room_all, accepted_bounded,
}

abbrev limiter : RateLimiter
limiter = new default_config

-- Two calls of trader 7 and one of trader 8 within the second 3.
abbrev calls : List (ℕ × ℕ)
calls = (7, 3000000001) ∷ (8, 3000000005) ∷ (7, 3999999999) ∷ []

small : (limiter.traders 7).orders_this_second + 3 < 4294967296
unfolding new
small = omega arith

small_all : limiter.global_orders_this_second + 3 < 4294967296
unfolding new
small_all = omega arith

accepted_bounded_example :
    (accepted_of 7 limiter calls ≤ room_of limiter 7 3)
    × (accepted_all limiter calls ≤ room_all limiter 3)
unfolding new
accepted_bounded_example =
    accepted_bounded 7 3 limiter calls refl refl (refl, (refl, (refl, tt))) small small_all
