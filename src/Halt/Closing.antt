-- ===== src/Halt/Closing.antt =====
-- The orders that close the positions of include/strategy/halt_manager.hpp.
use hft_trading_system.Prelude.{
  ℕ, zero, suc, ◌+◌, ◌<◌, ◌≡◌, refl, ap, ==→eq, Bool, true, ◌&&◌, if◌then◌else◌, ◌==◌, List, [],
  ◌∷◌, arith, All, Bool-cases, inl, inr, ℤ, pos, negsuc, abs, ltb_ℤ, ◌+ℤ◌, ◌-ℤ◌, u32,
}
use hft_trading_system.Types.{Side, buy, sell}
use hft_trading_system.Halt.{PositionInfo, MarketOrder, closing_order}

-- What an order adds to a position.
abbrev pub signed : MarketOrder → ℤ
signed o = signed_quantity o.side o.quantity
  where
    signed_quantity : Side → ℕ → ℤ
    signed_quantity buy q = pos q
    signed_quantity sell q = pos 0 -ℤ pos q

-- The order is for the symbol of the position, and would leave nothing of it.
abbrev pub Closes : PositionInfo → MarketOrder → Type 0
Closes p o = (o.symbol ≡ p.symbol) × (p.position +ℤ signed o ≡ pos 0)

-- One order for each position that is not flat, in the same order.
pub data Flattens : List PositionInfo → List MarketOrder → Type 0 where
  done : Flattens [] []
  flat :
      {p : PositionInfo} {ps : List PositionInfo} {os : List MarketOrder}
      → p.position ≡ pos 0
      → Flattens ps os
      → Flattens (p ∷ ps) os
  close :
      {p : PositionInfo} {ps : List PositionInfo} {o : MarketOrder} {os : List MarketOrder}
      → Closes p o
      → Flattens ps os
      → Flattens (p ∷ ps) (o ∷ os)

-- The callback accepts `n` orders from its call `from` on.
unfoldable pub all_accepted : (ℕ → Bool) → ℕ → ℕ → Bool
all_accepted accepts from zero = true
all_accepted accepts from (suc n) = accepts from && all_accepted accepts (from + 1) n

-- The size of the position fits the quantity of an order.
abbrev pub Fits32 : PositionInfo → Type 0
Fits32 p = abs p.position < 4294967296

unfoldable pub closing_orders : List PositionInfo → List MarketOrder
closing_orders [] = []
closing_orders (p ∷ ps) =
    let rest = closing_orders ps in if abs p.position == 0 then rest else closing_order p ∷ rest

closing_order-Closes : (p : PositionInfo) → Fits32 p → Closes p (closing_order p)
unfolding closing_order
closing_order-Closes p f = (refl, cancels p.position f)
  where
    cancels :
        (n : ℤ)
        → abs n < 4294967296
        → n
            +ℤ signed (record {
              symbol = p.symbol;
              side = if ltb_ℤ (pos 0) n then sell else buy;
              quantity = u32 (abs n);
            })
          ≡ pos 0
    cancels (pos n) h = ground arith
    cancels (negsuc n) h = ground arith

is_flat : (n : ℤ) → abs n ≡ 0 → n ≡ pos 0
is_flat (pos n) h = ap pos h
is_flat (negsuc n) h = absurd (omega (arith, h))

pub closing_orders-Flattens :
    (ps : List PositionInfo) → All Fits32 ps → Flattens ps (closing_orders ps)
unfolding closing_orders
closing_orders-Flattens [] a = done
closing_orders-Flattens (p ∷ ps) a = elim (Bool-cases (abs p.position == 0)) [
  | inl e ↦
      rw e (flat (is_flat p.position (==→eq (abs p.position) 0 e)) (closing_orders-Flattens ps a.1))
  | inr e ↦ rw e (close (closing_order-Closes p a.0) (closing_orders-Flattens ps a.1))
]
