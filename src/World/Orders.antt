-- ===== src/World/Orders.antt =====
-- The orders that include/symbol_world.hpp tracks until they are filled.
use native.Mathlib.Nat.{mod-eq_of_lt}
use hft_trading_system.Prelude.{
  ℕ, ◌+◌, ◌<◌, ◌≡◌, refl, sym, ap, ◌∙◌, arith, Bool, true, false, ◌==◌, ==→eq, ==_refl,
  if◌then◌else◌, leb, List, [], ◌∷◌, Option, none, some, get, get-put, get-erase, get-alter,
  Bool-cases, if_so, if_not, subst, inl, inr, Option-cases, u32,
}
use hft_trading_system.Types.{Side}
use hft_trading_system.World.{OurOrder, SymbolWorld, is_filled, filled, track_order, on_our_fill}

-- The fills of one order, in order.
unfoldable pub on_our_fills : SymbolWorld → ℕ → List ℕ → SymbolWorld
on_our_fills w id [] = w
on_our_fills w id (q ∷ qs) = on_our_fills (on_our_fill w id q) id qs

abbrev pub total : List ℕ → ℕ
total [] = 0
total (q ∷ qs) = q + total qs

-- What the map of orders holds once a fill has come.
on_our_fill_lem :
    (w : SymbolWorld) (id q : ℕ) (o : OurOrder) (j : ℕ)
    → get id w.our_orders ≡ some o
    → get j (on_our_fill w id q).our_orders ≡ (
        if j == id
        then (if is_filled (filled q o) then none else some (filled q o))
        else get j w.our_orders)
unfolding on_our_fill
on_our_fill_lem w id q o j e = elim (Bool-cases (is_filled (filled q o))) [
  | inl full ↦ rw (e, full, on_our_fill) (get-erase j id w.our_orders)
  | inr part ↦
      rw (e, part, on_our_fill) (get-alter j id (filled q) w.our_orders ∙ either (j == id) altered)
]
  where
    either :
        (b : Bool)
        → (b ≡ true
            → elim (get j w.our_orders) [ none ↦ none | some a ↦ some (filled q a) ]
              ≡ some (filled q o))
        → (if b
            then elim (get j w.our_orders) [ none ↦ none | some a ↦ some (filled q a) ]
            else get j w.our_orders)
          ≡ (if b then some (filled q o) else get j w.our_orders)
    either true h = h refl
    either false h = refl

    altered :
        ((j == id) ≡ true)
        → elim (get j w.our_orders) [ none ↦ none | some a ↦ some (filled q a) ] ≡ some (filled q o)
    altered same =
        ap (λ (found : Option OurOrder). elim found [ none ↦ none | some a ↦ some (filled q a) ])
          (subst (λ (k : ℕ). get k w.our_orders ≡ some o) (sym (==→eq j id same)) e)

missing_fill : (w : SymbolWorld) (id q : ℕ) → get id w.our_orders ≡ none → on_our_fill w id q ≡ w
unfolding on_our_fill
missing_fill w id q e = rw (e, on_our_fill) refl

other_kept :
    (w : SymbolWorld) (id q j : ℕ)
    → (j == id) ≡ false
    → get j (on_our_fill w id q).our_orders ≡ get j w.our_orders
other_kept w id q j other = elim (Option-cases (get id w.our_orders)) [
  | inl missing ↦ ap (λ (x : SymbolWorld). get j x.our_orders) (missing_fill w id q missing)
  | inr (o, e) ↦ on_our_fill_lem w id q o j e ∙ rw other refl
]

gone :
    (w : SymbolWorld) (id : ℕ) (qs : List ℕ) → get id w.our_orders ≡ none → on_our_fills w id qs ≡ w
unfolding on_our_fills
gone w id [] e = refl
gone w id (q ∷ qs) e = rw (missing_fill w id q e) (gone w id qs e)

others_kept :
    (w : SymbolWorld) (id j : ℕ) (qs : List ℕ)
    → (j == id) ≡ false
    → get j (on_our_fills w id qs).our_orders ≡ get j w.our_orders
unfolding on_our_fills
others_kept w id j [] other = refl
others_kept w id j (q ∷ qs) other =
    others_kept (on_our_fill w id q) id j qs other ∙ other_kept w id q j other

-- What is left of an order of which `n` are filled.
abbrev pub unless_full : OurOrder → ℕ → Option OurOrder
unless_full o n = if leb o.qty n then none else some (record o { filled_qty = n })

fills_lem :
    (w : SymbolWorld) (id : ℕ) (o : OurOrder) (qs : List ℕ)
    → get id w.our_orders ≡ some o
    → o.filled_qty < o.qty
    → o.filled_qty + total qs < 4294967296
    → get id (on_our_fills w id qs).our_orders ≡ unless_full o (o.filled_qty + total qs)
unfolding on_our_fills
fills_lem w id o [] e unfilled fits =
    let part : leb o.qty (o.filled_qty + 0) ≡ false = ground (arith, unfilled) in
    let same : o.filled_qty + 0 ≡ o.filled_qty = omega arith in
    e
    ∙ sym (
        if_not (leb o.qty (o.filled_qty + 0)) none _ part
        ∙ ap (λ (n : ℕ). some (record o { filled_qty = n })) same)
fills_lem w id o (q ∷ qs) e unfilled fits =
    let exact : u32 (o.filled_qty + q) ≡ o.filled_qty + q = mod-eq_of_lt (omega (arith, fits)) in
    let next : get id (on_our_fill w id q).our_orders ≡ unless_full o (o.filled_qty + q) =
      on_our_fill_lem w id q o id e ∙ rw (==_refl id) (ap (unless_full o) exact) in
    let sum : o.filled_qty + q + total qs ≡ o.filled_qty + (q + total qs) = omega arith in
    elim (Bool-cases (leb o.qty (o.filled_qty + q))) [
      | inl full ↦
          let all : leb o.qty (o.filled_qty + (q + total qs)) ≡ true = ground (arith, full) in
          let closed = next ∙ if_so (leb o.qty (o.filled_qty + q)) _ _ full in
          rw (gone (on_our_fill w id q) id qs closed)
            (closed ∙ sym (if_so (leb o.qty (o.filled_qty + (q + total qs))) _ _ all))
      | inr part ↦
          let o' : OurOrder = record o { filled_qty = o.filled_qty + q } in
          let kept = next ∙ if_not (leb o.qty (o.filled_qty + q)) _ _ part in
          fills_lem (on_our_fill w id q) id o' qs kept (ground (arith, part)) (omega (arith, fits))
          ∙ ap (unless_full o) sum
    ]

tracked :
    (w : SymbolWorld) (id : ℕ) (side : Side) (price qty i : ℕ)
    → get i (track_order w id side price qty).our_orders ≡ (
        if i == id
        then some (record { id = id; side = side; price = price; qty = qty; filled_qty = 0 })
        else get i w.our_orders)
unfolding track_order
tracked w id side price qty i =
    get-put i id (record { id = id; side = side; price = price; qty = qty; filled_qty = 0 })
      w.our_orders

-- An order that is tracked and then gets any fills, of less than 2^32 in all, is in the map with the
-- sum of its fills until they reach its quantity, which is not 0, and no more from then on; what the
-- map holds for any other id stays.
pub tracked_until_filled :
    (w : SymbolWorld) (id : ℕ) (side : Side) (price qty j : ℕ) (qs : List ℕ)
    → 0 < qty
    → total qs < 4294967296
    → let w' = on_our_fills (track_order w id side price qty) id qs in
      let o : OurOrder = record {
        id = id;
        side = side;
        price = price;
        qty = qty;
        filled_qty = total qs;
      } in
      get j w'.our_orders
      ≡ (if j == id then (if leb qty (total qs) then none else some o) else get j w.our_orders)
tracked_until_filled w id side price qty j qs unfilled fits =
    let o : OurOrder = record { id = id; side = side; price = price; qty = qty; filled_qty = 0 } in
    let w1 = track_order w id side price qty in
    elim (Bool-cases (j == id)) [
      | inl same ↦
          let here : get id w1.our_orders ≡ some o =
            tracked w id side price qty id ∙ rw (==_refl id) refl in
          let start : 0 + total qs ≡ total qs = omega arith in
          let same_id : j ≡ id = ==→eq j id same in
          rw same (
            subst (λ (k : ℕ). get k (on_our_fills w1 id qs).our_orders ≡ unless_full o (total qs))
              (sym same_id)
              (fills_lem w1 id o qs here unfilled (omega (arith, fits)) ∙ ap (unless_full o) start))
      | inr other ↦
          rw other (others_kept w1 id j qs other ∙ (tracked w id side price qty j ∙ rw other refl))
    ]
