-- ===== src/OrderBook/Refine.antt =====
-- include/orderbook.hpp as an implementation of a map from ids to resting orders.
use hft_trading_system.Prelude.{
  ℕ, ◌<◌, ◌≡◌, refl, Bool, not, false, some, List, [], ◌∷◌, ◌==◌, if◌then◌else◌, arith, Bool-cases,
  Option-cases, inl, inr, fun_ext, ◌∙◌, sym, ap, subst,
}
use hft_trading_system.Types.{Side, OrderResult, success, no_trader, is_valid_order_id}
use hft_trading_system.OrderBook.{
  OrderBook, new_order, is_indexed, admit, add_order, cancel_order, execute_order,
}
use hft_trading_system.OrderBook.Invariant.{IsValid, is_some}
use hft_trading_system.OrderBook.Preserve.{same_side_refl}
use hft_trading_system.OrderBook.Remove.{cancel_order-Effect, execute_order-Effect}
use hft_trading_system.OrderBook.Add.{
  Fits, Passes, add_order-admit, add_order_effect, add_order-IsValid,
}
use hft_trading_system.OrderBook.Spec.{
  Orders, Call, add, cancel, execute, Reply, result, found, write, put, answer, replay,
}
use hft_trading_system.OrderBook.View.{order_of, view, view-is_some, view-Effect}

abbrev observe : OrderBook × OrderResult → Orders × OrderResult
observe (b, r) = (view b, r)

-- A check that the two sides share.
observe-if :
    (b : OrderBook) (r : OrderResult) (fails other : Bool) (x : OrderBook × OrderResult)
    {y : Orders × OrderResult}
    → fails ≡ other
    → (fails ≡ false → observe x ≡ y)
    → observe (if fails then (b, r) else x) ≡ (if other then (view b, r) else y)
observe-if b r fails other x same h =
    rw (← same) (elim (Bool-cases fails) [ inl e ↦ rw e refl | inr e ↦ rw e (h e) ])

module _ (b : OrderBook) (id : ℕ) (side : Side) (price quantity : ℕ) (v : IsValid b)
    (fits : Fits b side price quantity) (some_level : 0 < b.free_levels) where
  accepted :
      Passes b id price quantity
      → observe (add_order b id side price quantity)
        ≡ (write (view b) id (some (new_order id no_trader 0 side price quantity)), success)
  unfolding view write
  accepted p =
      let (done, rests, indexed) = add_order_effect b id side price quantity v fits p some_level in
      let b' = (add_order b id side price quantity).0 in
      let entry : (j : ℕ)
          → order_of b' j (b'.order_index j) ≡ (
              if j == id
              then some (new_order id no_trader 0 side price quantity)
              else order_of b j (b.order_index j)) =
        λ j. elim (Bool-cases (j == id)) [
          | inl e ↦ ground (arith, indexed j, rests side price j, same_side_refl side)
          | inr e ↦ elim (Option-cases (b.order_index j)) [
            | inl n ↦ ground (arith, indexed j)
            | inr (r, h) ↦ ground (arith, indexed j, rests r.side r.price j)
          ]
        ] in
      λ i. (fun_ext entry i, done i)

  -- A refused order leaves the map, an accepted one is put into it.
  view-add_order :
      observe (add_order b id side price quantity) ≡ put (view b) id side price quantity
  unfolding put add_order
  view-add_order =
      let o = new_order id no_trader 0 side price quantity in
      observe-if b _ _ _ _ refl λ (valid : not (is_valid_order_id id) ≡ false).
        observe-if b _ _ _ _ refl λ ok_price.
          observe-if b _ _ _ _ refl λ (some_quantity : (quantity == 0) ≡ false).
            observe-if b _ _ _ (admit b o) (is_indexed_lem ∙ sym (view-is_some v id)) λ free.
              let p : Passes b id price quantity = record {
                id_valid = ground arith;
                price_valid = ok_price;
                some_quantity = ground arith;
                id_free = elim (Option-cases (b.order_index id)) [
                  | inl e ↦ e
                  | inr (r, e) ↦ absurd (ground arith)
                ];
              } in
              sym (ap observe (add_order-admit b id side price quantity p)) ∙ accepted p
    where
      is_indexed_lem : is_indexed b id ≡ is_some (b.order_index id)
      is_indexed_lem = elim (Option-cases (b.order_index id)) [
        | inl e ↦ rw (e, is_indexed) refl
        | inr (r, e) ↦ rw (e, is_indexed) refl
      ]

unfoldable pub call : OrderBook → Call → OrderBook × Reply
call b (add id side price quantity) =
    let (b', r) = add_order b id side price quantity in (b', result r)
call b (cancel id) = let (b', r) = cancel_order b id in (b', found r)
call b (execute id quantity) = let (b', r) = execute_order b id quantity in (b', found r)

unfoldable pub run : List Call → OrderBook → OrderBook × List Reply
run [] b = (b, [])
run (c ∷ cs) b = let (b', r) = call b c in let (b'', rs) = run cs b' in (b'', r ∷ rs)

-- An order fits where it is added, and a level is left for it.
abbrev pub CallFits : OrderBook → Call → Type 0
CallFits b (add id side price quantity) = Fits b side price quantity × (0 < b.free_levels)
CallFits b (cancel id) = Unit
CallFits b (execute id quantity) = Unit

abbrev pub RunFits : List Call → OrderBook → Type 0
RunFits [] b = Unit
RunFits (c ∷ cs) b = CallFits b c × RunFits cs (call b c).0

call_refines :
    (b : OrderBook) (c : Call)
    → IsValid b
    → CallFits b c
    → let (b', r) = call b c in IsValid b' × ((view b', r) ≡ answer (view b) c)
unfolding call answer
call_refines b (add id side price quantity) v (fits, some_level) = (
  add_order-IsValid b id side price quantity v fits,
  ap (λ (p : Orders × OrderResult). (p.0, result p.1))
      (view-add_order b id side price quantity v fits some_level),
)
call_refines b (cancel id) v _ =
    let e = cancel_order-Effect b id v in
    (e.valid, ap (λ (p : Orders × Bool). (p.0, found p.1)) (view-Effect v e))
call_refines b (execute id quantity) v _ =
    let e = execute_order-Effect b id quantity v in
    (e.valid, ap (λ (p : Orders × Bool). (p.0, found p.1)) (view-Effect v e))

-- From a valid book, in any run of calls in which each order given to `add_order` fits and finds a
-- level left, every reply and the orders that rest at the end are those of a map from ids to
-- orders, and the book at the end is valid.
pub run_refines :
    (cs : List Call) (b : OrderBook)
    → IsValid b
    → RunFits cs b
    → let (b', rs) = run cs b in IsValid b' × ((view b', rs) ≡ replay cs (view b))
unfolding run replay
run_refines [] b v _ = (v, refl)
run_refines (c ∷ cs) b v (fits, rest) =
    let (v', e) = call_refines b c v fits in
    let (v'', es) = run_refines cs (call b c).0 v' rest in
    (
      v'',
      subst
          (λ (q : Orders × Reply).
            let now : Orders × List Reply = ((replay cs q.0).0, q.1 ∷ (replay cs q.0).1) in
            (view (run cs (call b c).0).0, (call b c).1 ∷ (run cs (call b c).0).1) ≡ now)
          e (ap (λ (q : Orders × List Reply). (q.0, (call b c).1 ∷ q.1)) es),
    )
