-- ===== src/Matching/Priority.antt =====
-- Price-time priority without the book: matching against the queue of the resting orders, best
-- price first and oldest first. This is the specification of include/matching_engine.hpp.
use hft_trading_system.Prelude.{
  ℕ, ◌+◌, ◌-◌, ◌≤◌, ◌<◌, ◌≡◌, refl, true, false, ◌||◌, not, ◌⊎◌, inl, inr, List, [], ◌∷◌, ◌==◌, ltb,
  if◌then◌else◌, arith, All, Bool-cases,
}
use hft_trading_system.Types.{Order, reduce_quantity}
use hft_trading_system.Matching.{is_matchable, would_self_trade}

-- What a match leaves in the queue, what it leaves of the incoming order, and its fills in order.
pub record Matched : Type 0 where
  pub rest : List Order
  pub remaining : ℕ
  pub fills : List (Order × ℕ)

unfoldable pub match_queue : Order → ℕ → List Order → Matched
match_queue order r [] = record { rest = []; remaining = r; fills = [] }
match_queue order r (p ∷ ps) =
    let deeper = match_queue order (r - p.quantity) ps in
    if r == 0 || not (is_matchable order.side p.price order.price)
    then record { rest = p ∷ ps; remaining = r; fills = [] }
    else if would_self_trade order p
    then record { rest = p ∷ ps; remaining = 0; fills = [] }
    else if ltb r p.quantity
    then record { rest = reduce_quantity p r ∷ ps; remaining = 0; fills = (p, r) ∷ [] }
    else record deeper { fills = (p, p.quantity) ∷ deeper.fills }

abbrev pub total_filled : List (Order × ℕ) → ℕ
total_filled [] = 0
total_filled ((p, n) ∷ fs) = n + total_filled fs

-- The queue is used up from the front: each fill takes the first order whole, but the last, which
-- may leave a part of it at the front.
abbrev pub Consumes : List (Order × ℕ) → List Order → List Order → Type 0
Consumes [] queue rest = queue ≡ rest
Consumes ((p, n) ∷ fs) queue rest =
    (ps : List Order) × (queue ≡ p ∷ ps)
    × (((n ≡ p.quantity) × Consumes fs ps rest)
        ⊎ ((n < p.quantity) × (fs ≡ []) × (rest ≡ reduce_quantity p n ∷ ps)))

pub match_queue-Consumes :
    (order : Order) (r : ℕ) (queue : List Order)
    → Consumes (match_queue order r queue).fills queue (match_queue order r queue).rest
unfolding match_queue
match_queue-Consumes order r [] = refl
match_queue-Consumes order r (p ∷ ps) =
    elim (Bool-cases (r == 0 || not (is_matchable order.side p.price order.price))) [
      | inl e ↦ rw e refl
      | inr go ↦ rw go (elim (Bool-cases (would_self_trade order p)) [
        | inl e ↦ rw e refl
        | inr other ↦ rw other (elim (Bool-cases (ltb r p.quantity)) [
          | inl part ↦ rw part (ps, refl, inr (ground arith, refl, refl))
          | inr whole ↦
              rw whole (ps, refl, inl (refl, match_queue-Consumes order (r - p.quantity) ps))
        ])
      ])
    ]

-- Where the match stops.
abbrev pub Stops : Order → ℕ → List Order → Type 0
Stops order r [] = Unit
Stops order r (p ∷ ps) = (r ≡ 0) ⊎ (is_matchable order.side p.price order.price ≡ false)

-- The incoming order meets an order of its own trader at the front of the queue.
abbrev pub MeetsOwn : Order → List Order → Type 0
MeetsOwn order [] = ⊥
MeetsOwn order (p ∷ ps) =
    (would_self_trade order p ≡ true) × (is_matchable order.side p.price order.price ≡ true)

-- Nothing is lost: the fills and what remains make up the quantity, unless the rest was cancelled
-- at an order of the same trader.
pub match_queue-total :
    (order : Order) (r : ℕ) (queue : List Order)
    → let m = match_queue order r queue in
      (total_filled m.fills + m.remaining ≡ r)
      ⊎ ((total_filled m.fills < r) × (m.remaining ≡ 0) × MeetsOwn order m.rest)
unfolding match_queue
match_queue-total order r [] = inl (omega arith)
match_queue-total order r (p ∷ ps) = ground (arith, match_queue-total order (r - p.quantity) ps)

pub match_queue-Stops :
    (order : Order) (r : ℕ) (queue : List Order)
    → Stops order (match_queue order r queue).remaining (match_queue order r queue).rest
unfolding match_queue
match_queue-Stops order r [] = tt
match_queue-Stops order r (p ∷ ps) = ground (arith, match_queue-Stops order (r - p.quantity) ps)

-- A fill at a price that the incoming order accepts, against another trader.
abbrev pub IsFair : Order → Order × ℕ → Type 0
IsFair order (p, n) =
    (is_matchable order.side p.price order.price ≡ true)
    × (would_self_trade order p ≡ false)
    × (0 < n)
    × (n ≤ p.quantity)

pub match_queue-IsFair :
    (order : Order) (r : ℕ) (queue : List Order)
    → All (λ p. 0 < p.quantity) queue
    → All (IsFair order) (match_queue order r queue).fills
unfolding match_queue
match_queue-IsFair order r [] a = tt
match_queue-IsFair order r (p ∷ ps) a =
    ground (arith, match_queue-IsFair order (r - p.quantity) ps a.1)
