-- ===== src/Position/Moves.antt =====
-- Where a fill moves the position of include/strategy/position.hpp, and the width of its average.
use native.Mathlib.Nat.{mod-lt}
use hft_trading_system.Prelude.{
  ℕ, suc, ◌+◌, ◌-◌, ◌*◌, ◌/◌, ◌<◌, ◌≡◌, Bool, refl, ap, arith, ℤ, pos, negsuc, abs, ◌+ℤ◌, ◌-ℤ◌,
  eq_of_parts, ◌==◌, ltb, if◌then◌else◌, min, true, false,
}
use hft_trading_system.Position.{PositionTracker, weighted_price, add_long, cover, add_short, close}

abbrev pub Moved : PositionTracker → PositionTracker → ℤ → Type 0
Moved t t' position = (t'.position ≡ position) × (t'.avg_price < 4294967296)

either :
    (b : Bool) (x y : PositionTracker) (t : PositionTracker) (position : ℤ)
    → (b ≡ true → Moved t x position)
    → (b ≡ false → Moved t y position)
    → Moved t (if b then x else y) position
either true x y t position on_true on_false = on_true refl
either false x y t position on_true on_false = on_false refl

average_fits :
    (b : Bool) (x y : ℕ) → x < 4294967296 → y < 4294967296 → (if b then x else y) < 4294967296
average_fits true x y h h' = h
average_fits false x y h h' = h'

weighted_price_fits :
    (old avg qty price all : ℕ) → weighted_price old avg qty price all < 4294967296
unfolding weighted_price
weighted_price_fits old avg qty price all = mod-lt ((old * avg + qty * price) / all) (omega arith)

pub add_long-moves :
    (t : PositionTracker) (old qty price : ℕ)
    → t.position ≡ pos old
    → t.avg_price < 4294967296
    → Moved t (add_long t old qty price) (t.position +ℤ pos qty)
unfolding add_long
add_long-moves t old qty price e ha = (
  rw e (eq_of_parts (pos (old + qty)) (pos old +ℤ pos qty) (ground arith)),
  average_fits (ltb 0 (old + qty)) (weighted_price old t.avg_price qty price (old + qty))
      t.avg_price (weighted_price_fits old t.avg_price qty price (old + qty)) ha,
)

pub add_short-moves :
    (t : PositionTracker) (old qty price : ℕ)
    → t.avg_price < 4294967296
    → Moved t (add_short t old qty price) (t.position -ℤ pos qty)
unfolding add_short
add_short-moves t old qty price ha = (
  refl,
  average_fits (ltb 0 (old + qty)) (weighted_price old t.avg_price qty price (old + qty))
      t.avg_price (weighted_price_fits old t.avg_price qty price (old + qty)) ha,
)

flips_up :
    (position : ℤ) (k qty : ℕ)
    → position ≡ negsuc k
    → ltb 0 (qty - min qty (suc k)) ≡ true
    → pos (qty - min qty (suc k)) ≡ position +ℤ pos qty
flips_up position k qty e flips =
    let more : suc k < qty = ground (arith, flips) in
    let all : min qty (suc k) ≡ suc k = ground (arith, more) in
    rw (e, all) (eq_of_parts (pos (qty - suc k)) (negsuc k +ℤ pos qty) (ground (arith, more)))

flips_down :
    (position : ℤ) (long qty : ℕ)
    → position ≡ pos long
    → ltb 0 (qty - min qty long) ≡ true
    → pos 0 -ℤ pos (qty - min qty long) ≡ position -ℤ pos qty
flips_down position long qty e flips =
    let more : long < qty = ground (arith, flips) in
    let all : min qty long ≡ long = ground (arith, more) in
    rw (e, all)
      (eq_of_parts (pos 0 -ℤ pos (qty - long)) (pos long -ℤ pos qty) (ground (arith, more)))

pub cover-moves :
    (t : PositionTracker) (k qty price : ℕ)
    → t.position ≡ negsuc k
    → t.avg_price < 4294967296
    → price < 4294967296
    → Moved t (cover t (suc k) qty price) (t.position +ℤ pos qty)
unfolding cover
cover-moves t k qty price e ha hp =
    let covered = min qty (suc k) in
    let left : ℤ = t.position +ℤ pos covered in
    either (ltb 0 (qty - covered)) _ _ t (t.position +ℤ pos qty)
      (λ flips. (flips_up t.position k qty e flips, hp))
      (λ stays. (
        ap (λ (n : ℕ). t.position +ℤ pos n) (ground (arith, stays)),
        average_fits (abs left == 0) 0 t.avg_price (omega arith) ha,
      ))

pub close-moves :
    (t : PositionTracker) (long qty price : ℕ)
    → t.position ≡ pos long
    → t.avg_price < 4294967296
    → price < 4294967296
    → Moved t (close t long qty price) (t.position -ℤ pos qty)
unfolding close
close-moves t long qty price e ha hp =
    let closed = min qty long in
    let left : ℤ = t.position -ℤ pos closed in
    either (ltb 0 (qty - closed)) _ _ t (t.position -ℤ pos qty)
      (λ flips. (flips_down t.position long qty e flips, hp))
      (λ stays. (
        ap (λ (n : ℕ). t.position -ℤ pos n) (ground (arith, stays)),
        average_fits (abs left == 0) 0 t.avg_price (omega arith) ha,
      ))
