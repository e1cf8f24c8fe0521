-- ===== src/QueueFill/Level.antt =====
-- The queue of one level of include/paper/queue_fill_detector.hpp, and what takes volume from its
-- front.
use hft_trading_system.Prelude.{
  ℕ, zero, suc, ◌+◌, ◌-◌, Bool, true, false, ◌&&◌, not, ◌==◌, ltb, leb, if◌then◌else◌, min, List,
  [], ◌∷◌, u32,
}

pub record QueueEntry : Type 0 where
  pub sequence : ℕ
  pub quantity : ℕ
  pub remaining : ℕ
  pub is_ours : Bool
  pub our_order_id : ℕ

pub record PriceLevelQueue : Type 0 where
  pub price : ℕ
  pub queue : List QueueEntry
  pub has_our_order : Bool
  pub our_position : ℕ
  pub our_sequence : ℕ
  pub our_order_id : ℕ
  pub total_ahead_at_entry : ℕ
  pub volume_traded : ℕ

-- The entries before our position, in `Quantity`.
unfoldable pub remaining_before : ℕ → List QueueEntry → ℕ
remaining_before zero es = 0
remaining_before (suc n) [] = 0
remaining_before (suc n) (e ∷ es) = u32 (e.remaining + remaining_before n es)

unfoldable pub queue_ahead : PriceLevelQueue → ℕ
unfolding remaining_before
queue_ahead l =
    if not l.has_our_order
    then 0
    else if l.our_position == 0
    then 0
    else remaining_before l.our_position l.queue

unfoldable pub calculate_total_remaining : List QueueEntry → ℕ
calculate_total_remaining [] = 0
calculate_total_remaining (e ∷ es) =
    let rest = calculate_total_remaining es in if e.is_ours then rest else u32 (e.remaining + rest)

unfoldable pub any_ours : List QueueEntry → Bool
any_ours [] = false
any_ours (e ∷ es) = let rest = any_ours es in if e.is_ours && ltb 0 e.remaining then true else rest

unfoldable pub update_has_our_order : PriceLevelQueue → PriceLevelQueue
unfolding any_ours
update_has_our_order l = record l { has_our_order = any_ours l.queue }

-- `our_position--` where it applies
abbrev pub step_position : PriceLevelQueue → ℕ
step_position l =
    if l.has_our_order && ltb 0 l.our_position then l.our_position - 1 else l.our_position

-- The loop of `remove_from_front`: what is left of the level, and the orders filled.
unfoldable pub remove_loop : List QueueEntry → PriceLevelQueue → ℕ → PriceLevelQueue × List ℕ
remove_loop [] l remaining = (record l { queue = [] }, [])
remove_loop (e ∷ es) l remaining =
    let (l', ids) =
      remove_loop es (record l { our_position = step_position l }) (remaining - e.remaining) in
    if remaining == 0
    then (record l { queue = e ∷ es }, [])
    else if leb e.remaining remaining
    then (l', if e.is_ours then e.our_order_id ∷ ids else ids)
    else (record l { queue = record e { remaining = e.remaining - remaining } ∷ es }, [])

-- The loop of `on_trade` over the queue: what is left of the entries, and the orders consumed.
unfoldable pub consume : ℕ → List QueueEntry → List QueueEntry × List ℕ
consume trade [] = ([], [])
consume trade (e ∷ es) =
    let fill_this = min trade e.remaining in
    let (es', ids) = consume (trade - fill_this) es in
    let e' = record e { remaining = e.remaining - fill_this } in
    if trade == 0
    then (e ∷ es, [])
    else (e' ∷ es', if e.is_ours && e'.remaining == 0 then e.our_order_id ∷ ids else ids)

unfoldable pub cleanup : List QueueEntry → PriceLevelQueue → PriceLevelQueue
cleanup [] l = record l { queue = [] }
cleanup (e ∷ es) l =
    let rest = cleanup es (record l { our_position = step_position l }) in
    if e.remaining == 0 then rest else record l { queue = e ∷ es }
