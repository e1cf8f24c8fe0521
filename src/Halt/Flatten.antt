-- ===== src/Halt/Flatten.antt =====
-- What `HaltManager::halt` of include/strategy/halt_manager.hpp does to the callbacks and leaves as
-- its state.
use mathlib.Core.Bool.{and-true, and_assoc}
use mathlib.Core.List.{append_assoc, append-nil}
use hft_trading_system.Prelude.{
  list_laws, if_so, ℕ, suc, ◌+◌, ◌≡◌, refl, sym, ◌∙◌, Bool, true, ◌&&◌, not, if◌then◌else◌, ◌==◌,
  List, [], ◌∷◌, ◌++◌, map, arith, length, Bool-cases, inl, inr, abs, u32,
}
use hft_trading_system.Halt.{
  HaltReason, ask_positions, PositionInfo, Call, alert, cancel_all, get_positions, send_order,
  HaltManager, called, closing_order, flatten_one, flatten_each, flatten_positions, final_state,
  begin_halt, run_halt, halting,
}
use hft_trading_system.Halt.Closing.{all_accepted, closing_orders}

-- The loop sends the closing orders, and asks whether all were accepted.
pub flatten_each_lem :
    (accepts : ℕ → Bool) (m : HaltManager) (ok : Bool) (ps : List PositionInfo)
    → let os = closing_orders ps in
      flatten_each accepts m ok ps ≡ (
        record m { calls = m.calls ++ map send_order os; sends = m.sends + length os },
        ok && all_accepted accepts m.sends (length os),
      )
unfolding flatten_each flatten_one closing_orders all_accepted
flatten_each_lem accepts m ok [] =
    let calls_kept : m.calls ≡ m.calls ++ [] = sym (append-nil m.calls) in
    let sends_kept : m.sends ≡ m.sends + 0 = omega arith in
    let ok_kept : ok ≡ ok && true = sym (and-true ok) in
    λ i. (record m { calls = calls_kept i; sends = sends_kept i }, ok_kept i)
flatten_each_lem accepts m ok (p ∷ ps) = elim (Bool-cases (abs p.position == 0)) [
  | inl e ↦ rw e (flatten_each_lem accepts m ok ps)
  | inr e ↦
      let os = closing_orders ps in
      let m' = record (called m (send_order (closing_order p))) { sends = m.sends + 1 } in
      let rest = all_accepted accepts (m.sends + 1) (length os) in
      let all_calls : (m.calls ++ send_order (closing_order p) ∷ []) ++ map send_order os
          ≡ m.calls ++ send_order (closing_order p) ∷ map send_order os =
        append_assoc m.calls (send_order (closing_order p) ∷ []) (map send_order os) in
      let all_sends : m.sends + 1 + length os ≡ m.sends + suc (length os) = omega arith in
      let all_ok : (ok && accepts m.sends) && rest ≡ ok && (accepts m.sends && rest) =
        and_assoc ok (accepts m.sends) rest in
      rw e (
        flatten_each_lem accepts m' (ok && accepts m.sends) ps ∙ λ i.
        (record m { calls = all_calls i; sends = all_sends i }, all_ok i))
]

if_not_so {ℓ} : {A : Type ℓ} (b : Bool) (x y : A) → b ≡ true → (if not b then x else y) ≡ y
if_not_so b x y h = rw h refl

flatten_positions_lem :
    (accepts : ℕ → Bool) (m : HaltManager) (ps : List PositionInfo)
    → m.has_send_order ≡ true
    → let os = closing_orders ps in
      flatten_positions accepts m ps ≡ (
        record m {
          flatten_attempts = u32 (m.flatten_attempts + 1);
          calls = m.calls ++ map send_order os;
          sends = m.sends + length os;
        },
        all_accepted accepts m.sends (length os),
      )
unfolding flatten_positions closing_orders all_accepted
flatten_positions_lem accepts m [] h =
    flatten_each_lem accepts (record m { flatten_attempts = u32 (m.flatten_attempts + 1) }) true []
flatten_positions_lem accepts m (p ∷ ps) h =
    if_not_so m.has_send_order _ _ h
    ∙ flatten_each_lem accepts (record m { flatten_attempts = u32 (m.flatten_attempts + 1) }) true
        (p ∷ ps)

-- The calls before any position is asked for.
abbrev pub first_calls : HaltManager → HaltReason → List Call
first_calls m why =
    (if m.has_alert then alert why ∷ [] else [])
    ++ (if m.has_cancel_all then cancel_all ∷ [] else [])

begin_halt_lem :
    (m : HaltManager) (why : HaltReason)
    → begin_halt m why
      ≡ record m { state = halting; reason = why; calls = m.calls ++ first_calls m why }
unfolding begin_halt
begin_halt_lem m why = elim (Bool-cases m.has_alert) [
  | inl a ↦ elim (Bool-cases m.has_cancel_all) [
    | inl c ↦ simp (a, c, list_laws) refl
    | inr c ↦ simp (a, c) refl
  ]
  | inr a ↦ elim (Bool-cases m.has_cancel_all) [
    | inl c ↦ simp (a, c) refl
    | inr c ↦ simp (a, c, list_laws) refl
  ]
]

pub run_halt_lem :
    (accepts : ℕ → Bool) (positions : List PositionInfo) (m : HaltManager) (why : HaltReason)
    → m.has_get_positions ≡ true
    → m.has_send_order ≡ true
    → let os = closing_orders positions in
      run_halt accepts positions m why ≡ record m {
        state = final_state (all_accepted accepts m.sends (length os));
        reason = why;
        flatten_attempts = u32 (m.flatten_attempts + 1);
        calls = m.calls ++ (first_calls m why ++ get_positions ∷ map send_order os);
        sends = m.sends + length os;
      }
unfolding run_halt
run_halt_lem accepts positions m why asks sends =
    let begun = record m { state = halting; reason = why; calls = m.calls ++ first_calls m why } in
    let os = closing_orders positions in
    let asked : ask_positions begun positions ≡ (called begun get_positions, positions) =
      if_so m.has_get_positions _ _ asks in
    let all_calls : ((m.calls ++ first_calls m why) ++ get_positions ∷ []) ++ map send_order os
        ≡ m.calls ++ (first_calls m why ++ get_positions ∷ map send_order os) =
      simp list_laws refl in
    rw
      (
        begin_halt_lem m why,
        asked,
        flatten_positions_lem accepts (called begun get_positions) positions sends,
      )
      (λ i. record m {
        state = final_state (all_accepted accepts m.sends (length os));
        reason = why;
        flatten_attempts = u32 (m.flatten_attempts + 1);
        calls = all_calls i;
        sends = m.sends + length os;
      })
