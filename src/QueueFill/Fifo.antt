-- ===== src/QueueFill/Fifo.antt =====
-- How include/paper/queue_fill_detector.hpp takes a volume off the front of a queue.
use hft_trading_system.Prelude.{
  ℕ, ◌+◌, ◌-◌, ◌<◌, ◌≡◌, refl, sym, ap, ◌∙◌, arith, true, false, not, ◌==◌, ltb, leb, if◌then◌else◌,
  List, [], ◌∷◌, inl, inr, All, if_so, if_not, pos→not_zero, ==_refl, some, u32,
}
use hft_trading_system.Types.{Side, buy, sell}
use hft_trading_system.QueueFill.{
  remove_from_front, trade_through, on_trade, on_l2_update, passive_side, confirm_orders,
}
use hft_trading_system.QueueFill.State.{
  LevelKey, QueueFillDetector, with_level, same_key, same_book_side,
}
use hft_trading_system.QueueFill.Level.{
  QueueEntry, PriceLevelQueue, consume, cleanup, remove_loop, step_position, update_has_our_order,
}
use hft_trading_system.QueueFill.Volume.{
  IsOpen, consume-zero, consume-whole, consume-part, consume-empty, shares,
}

popped : QueueEntry → PriceLevelQueue × List ℕ → PriceLevelQueue × List ℕ
popped e (l, ids) = (l, if e.is_ours then e.our_order_id ∷ ids else ids)

cleaned : PriceLevelQueue → List QueueEntry × List ℕ → PriceLevelQueue × List ℕ
cleaned l (es, ids) = (cleanup es l, ids)

cleanup-open :
    (e : QueueEntry) (es : List QueueEntry) (l : PriceLevelQueue)
    → IsOpen e
    → cleanup (e ∷ es) l ≡ record l { queue = e ∷ es }
unfolding cleanup
cleanup-open e es l o = if_not (e.remaining == 0) _ _ (pos→not_zero e.remaining o)

cleanup-consume :
    (qty : ℕ) (es : List QueueEntry) (l : PriceLevelQueue)
    → All IsOpen es
    → cleaned l (consume qty es) ≡ remove_loop es l qty
unfolding cleaned popped remove_loop cleanup
cleanup-consume qty [] l os = ap (cleaned l) (consume-empty qty)
cleanup-consume qty (e ∷ es) l (o, os) = elim (shares qty e.remaining) [
  | inl none_left ↦
      ap (λ (n : ℕ). cleaned l (consume n (e ∷ es))) none_left
      ∙ ap (cleaned l) (consume-zero (e ∷ es))
      ∙ ap (λ (x : PriceLevelQueue). (x, [])) (cleanup-open e es l o)
      ∙ sym (if_so (qty == 0) _ _ (ap (λ (n : ℕ). n == 0) none_left))
  | inr (some_left, inl whole) ↦
      let l1 = record l { our_position = step_position l } in
      ap (cleaned l) (consume-whole qty e es some_left whole)
      ∙ ap (popped e) (cleanup-consume (qty - e.remaining) es l1 os)
      ∙ sym (
          if_not (qty == 0) _ _ (pos→not_zero qty some_left)
          ∙ if_so (leb e.remaining qty) _ _ (ground (arith, whole)))
  | inr (some_left, inr part) ↦
      let e' = record e { remaining = e.remaining - qty } in
      ap (cleaned l) (consume-part qty e es some_left part)
      ∙ ap (λ (x : PriceLevelQueue). (x, [])) (cleanup-open e' es l (omega (arith, part)))
      ∙ sym (
          if_not (qty == 0) _ _ (pos→not_zero qty some_left)
          ∙ if_not (leb e.remaining qty) _ _ (ground (arith, part)))
]

trade_through-remove_from_front :
    (d : QueueFillDetector) (key : LevelKey) (l : PriceLevelQueue) (qty time : ℕ)
    → All IsOpen l.queue
    → trade_through d key l qty time ≡ remove_from_front d key l qty time
unfolding trade_through remove_from_front cleaned
trade_through-remove_from_front d key l qty time os =
    ap (finished d key time) (cleanup-consume qty l.queue l os)
  where
    finished : QueueFillDetector → LevelKey → ℕ → PriceLevelQueue × List ℕ → QueueFillDetector
    finished d key time (l', ids) =
        with_level (confirm_orders d ids l'.price time) key (update_has_our_order l')

on_l2_update-smaller :
    (d : QueueFillDetector) (key : LevelKey) (l : PriceLevelQueue) (qty rest time : ℕ)
    → d.levels key ≡ some l
    → 0 < qty
    → on_l2_update d key (qty + rest) rest time ≡ remove_from_front d key l qty time
unfolding on_l2_update
on_l2_update-smaller d key l qty rest time found some_left =
    let less : ltb (qty + rest) rest ≡ false = ground (arith, some_left) in
    let more : ltb rest (qty + rest) ≡ true = ground (arith, some_left) in
    let difference : qty + rest - rest ≡ qty = omega arith in
    rw (found, on_l2_update, less, more, difference) refl

same_key_refl : (k : LevelKey) → same_key k k ≡ true
same_key_refl k = rw (==_refl k.symbol, ==_refl k.price) (same_side k.side)
  where
    same_side : (s : Side) → same_book_side s s ≡ true
    same_side buy = refl
    same_side sell = refl

on_trade-through :
    (d : QueueFillDetector) (symbol price qty : ℕ) (aggressor : Side) (time : ℕ)
    (l : PriceLevelQueue)
    → let key : LevelKey = record {
      symbol = symbol;
      price = price;
      side = passive_side aggressor;
    } in
      let l1 = record l { volume_traded = u32 (l.volume_traded + qty) } in
      d.levels key ≡ some l
      → l.has_our_order ≡ true
      → on_trade d symbol price qty aggressor time 0
        ≡ trade_through (with_level d key l1) key l1 qty time
unfolding on_trade
on_trade-through d symbol price qty aggressor time l found ours =
    let key : LevelKey = record { symbol = symbol; price = price; side = passive_side aggressor } in
    let l1 = record l { volume_traded = u32 (l.volume_traded + qty) } in
    rw (found, on_trade) (if_not (not l.has_our_order) _ _ (ap not ours))

-- Where a level holds an order of ours and every entry has something left, a trade that names no
-- order, taken first in first out, leads to the same detector as a reduction of the level by the
-- same volume, once the trade is counted: the same queue and place in it, the same orders filled,
-- and the same fills.
pub on_trade-on_l2_update :
    (d : QueueFillDetector) (symbol price qty rest : ℕ) (aggressor : Side) (time : ℕ)
    → (l : PriceLevelQueue)
    → d.levels (record { symbol = symbol; price = price; side = passive_side aggressor }) ≡ some l
    → l.has_our_order ≡ true
    → All IsOpen l.queue
    → 0 < qty
    → let key : LevelKey = record {
      symbol = symbol;
      price = price;
      side = passive_side aggressor;
    } in
      let counted = record l { volume_traded = u32 (l.volume_traded + qty) } in
      on_trade d symbol price qty aggressor time 0
      ≡ on_l2_update (with_level d key counted) key (qty + rest) rest time
on_trade-on_l2_update d symbol price qty rest aggressor time l found ours os some_left =
    let key : LevelKey = record { symbol = symbol; price = price; side = passive_side aggressor } in
    let counted = record l { volume_traded = u32 (l.volume_traded + qty) } in
    let d1 = with_level d key counted in
    on_trade-through d symbol price qty aggressor time l found ours
    ∙ trade_through-remove_from_front d1 key counted qty time os
    ∙ sym (
        on_l2_update-smaller d1 key counted qty rest time
          (if_so (same_key key key) _ _ (same_key_refl key)) some_left)
