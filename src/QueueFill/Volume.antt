-- ===== src/QueueFill/Volume.antt =====
-- What a volume takes of a queue in include/paper/queue_fill_detector.hpp, by the volume ahead.
use hft_trading_system.Prelude.{
  ℕ, ◌+◌, ◌-◌, ◌≤◌, ◌<◌, ◌≡◌, refl, ap, arith, Bool, true, false, ◌&&◌, ◌==◌, leb, min,
  if◌then◌else◌, List, [], ◌∷◌, ◌⊎◌, pos→not_zero,
}
use hft_trading_system.QueueFill.Level.{QueueEntry, consume}

abbrev pub IsOpen : QueueEntry → Type 0
IsOpen e = 0 < e.remaining

-- The entries after `qty` have been taken, `ahead` of them before these.
unfoldable pub rest_after : ℕ → ℕ → List QueueEntry → List QueueEntry
rest_after ahead qty [] = []
rest_after ahead qty (e ∷ es) =
    record e { remaining = e.remaining - (qty - ahead) } ∷ rest_after (ahead + e.remaining) qty es

-- Our orders up to whose end the volume reaches.
unfoldable pub reached : ℕ → ℕ → List QueueEntry → List ℕ
reached ahead qty [] = []
reached ahead qty (e ∷ es) =
    let rest = reached (ahead + e.remaining) qty es in
    if e.is_ours && leb (ahead + e.remaining) qty then e.our_order_id ∷ rest else rest

if_and_true {ℓ} :
    {A : Type ℓ} (b : Bool) (x y : A) → (if b && true then x else y) ≡ (if b then x else y)
if_and_true true x y = refl
if_and_true false x y = refl

if_and_false {ℓ} : {A : Type ℓ} (b : Bool) (x y : A) → (if b && false then x else y) ≡ y
if_and_false true x y = refl
if_and_false false x y = refl

pub consume-zero : (es : List QueueEntry) → consume 0 es ≡ (es, [])
unfolding consume
consume-zero [] = refl
consume-zero (e ∷ es) = refl

-- An entry that is taken whole, and one that is taken in part.
pub consume-whole :
    (qty : ℕ) (e : QueueEntry) (es : List QueueEntry)
    → 0 < qty
    → e.remaining ≤ qty
    → let (es', ids) = consume (qty - e.remaining) es in
      consume qty (e ∷ es)
      ≡ (record e { remaining = 0 } ∷ es', if e.is_ours then e.our_order_id ∷ ids else ids)
unfolding consume
consume-whole qty e es some_left whole =
    let more : (qty == 0) ≡ false = pos→not_zero qty some_left in
    let all : min qty e.remaining ≡ e.remaining = ground (arith, whole) in
    let none_left : e.remaining - e.remaining ≡ 0 = omega arith in
    let (es', ids) = consume (qty - e.remaining) es in
    rw (more, all, none_left)
      (ap (λ (l : List ℕ). (record e { remaining = 0 } ∷ es', l))
        (if_and_true e.is_ours (e.our_order_id ∷ ids) ids))

pub consume-part :
    (qty : ℕ) (e : QueueEntry) (es : List QueueEntry)
    → 0 < qty
    → qty < e.remaining
    → consume qty (e ∷ es) ≡ (record e { remaining = e.remaining - qty } ∷ es, [])
unfolding consume
consume-part qty e es some_left part =
    let more : (qty == 0) ≡ false = pos→not_zero qty some_left in
    let all : min qty e.remaining ≡ qty = ground (arith, part) in
    let left : (e.remaining - qty == 0) ≡ false = ground (arith, part) in
    let none_left : qty - qty ≡ 0 = omega arith in
    rw (more, all, left, none_left, consume-zero es)
      (ap (λ (l : List ℕ). (record e { remaining = e.remaining - qty } ∷ es, l))
        (if_and_false e.is_ours (e.our_order_id ∷ []) []))

pub consume-empty : (n : ℕ) → consume n [] ≡ ([], [])
unfolding consume
consume-empty n = refl

-- What `n` takes of an entry: nothing, all of it, or a part.
pub shares : (n r : ℕ) → (n ≡ 0) ⊎ ((0 < n) × ((r ≤ n) ⊎ (n < r)))
shares n r = ground arith

taken_whole : QueueEntry → List QueueEntry × List ℕ → List QueueEntry × List ℕ
taken_whole e (es, ids) =
    (record e { remaining = 0 } ∷ es, if e.is_ours then e.our_order_id ∷ ids else ids)
