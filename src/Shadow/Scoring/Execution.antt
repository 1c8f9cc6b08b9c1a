-- ===== src/Shadow/Scoring/Execution.antt =====
-- About the formulas of src/shadow/scoring.py at the prices that src/solver/router.py registers.
use cow_solver_skeleton.Prelude.{
  ℕ, ◌+◌, ◌-◌, ◌*◌, ◌/◌, ◌^◌, ◌≤◌, ◌<◌, ◌≡◌, refl, sym, ◌∙◌, false-ne-true, ap, leb→le, ◌>>=◌, Bool,
  true, false, arith, leb, if◌then◌else◌, ok, ceil_div, ceil_div-exact, ceil_div-le, div-exact,
  Bool-cases, inl, inr, le→ltb_false,
}
use native.Mathlib.Nat.{mul-le-mul_right}
use cow_solver_skeleton.Model.{sell, buy, Order}
use cow_solver_skeleton.Solver.Router.Draft.Settled.{Clears, SellLimit}
use cow_solver_skeleton.Shadow.Scoring.{
  checked_ceil_div, floor_div, score_sell_trade, score_buy_trade, breaks_limit,
}

checked_ceil_div_exact : (a b q : ℕ) → 0 < b → a ≡ q * b → checked_ceil_div a b ≡ ok q
unfolding checked_ceil_div
checked_ceil_div_exact a b q pos h = ground (arith, ceil_div-exact a b q pos h)

floor_div_pos : (a b : ℕ) → 0 < b → floor_div a b ≡ ok (a / b)
unfolding floor_div
floor_div_pos a b pos = ground arith

zero_worth : (native : ℕ) → 0 * native / 10 ^ 18 ≡ 0
zero_worth native = omega arith

nothing_left : (x y : ℕ) → x ≤ y → x - y ≡ 0
nothing_left x y le = omega arith

-- A surplus of 0 is worth 0, so the clamp changes nothing.
clamped : (x y : ℕ) (f : ℕ → ℕ) → f 0 ≡ 0 → (if leb x y then 0 else f (x - y)) ≡ f (x - y)
clamped x y f zero_kept = elim (Bool-cases (leb x y)) [
  | inl under ↦ rw (under, nothing_left x y (leb→le x y under), zero_kept) refl
  | inr over ↦ rw over refl
]

-- The score of a whole sale of a positive amount at the router's prices is its surplus over the
-- limit in native wei, rounded down, where the sale pays at least the limit.
pub score_sell_trade_of_fill :
    (sell_amount buy_amount executed_buy native : ℕ)
    → 0 < sell_amount
    → buy_amount ≤ executed_buy
    → score_sell_trade sell_amount sell_amount buy_amount executed_buy sell_amount native
      ≡ ok ((executed_buy - buy_amount) * native / 10 ^ 18)
unfolding score_sell_trade
score_sell_trade_of_fill s b e native pos le =
    rw
      (
        checked_ceil_div_exact (s * b) s b pos (omega arith),
        checked_ceil_div_exact (s * e) s e pos (omega arith),
      )
      (ap ok (clamped e b (λ x. x * native / 10 ^ 18) (zero_worth native)))

-- The score of a whole purchase with positive amounts at the router's prices is the sell amount it
-- saves, converted at the limit rate and the native price, each rounded down, where it sells no
-- more than the limit.
pub score_buy_trade_of_fill :
    (sell_amount buy_amount executed_sell native : ℕ)
    → 0 < buy_amount
    → 0 < sell_amount
    → executed_sell ≤ sell_amount
    → score_buy_trade buy_amount sell_amount buy_amount buy_amount executed_sell native
      ≡ ok ((sell_amount - executed_sell) * buy_amount / sell_amount * native / 10 ^ 18)
unfolding score_buy_trade
score_buy_trade_of_fill s b e native pos pos_sell le =
    rw
      (
        floor_div_pos (b * s) b pos,
        floor_div_pos (b * e) b pos,
        div-exact (b * s) b s pos (omega arith),
        div-exact (b * e) b e pos (omega arith),
      )
      (purchase_surplus (leb s e) refl)
  where
    purchase_surplus :
        (c : Bool)
        → leb s e ≡ c
        → (if c then ok 0 else floor_div ((s - e) * b) s >>= λ x. ok (x * native / 10 ^ 18))
          ≡ ok ((s - e) * b / s * native / 10 ^ 18)
    purchase_surplus true t =
        rw
          (
            nothing_left s e (leb→le s e t),
            div-exact (0 * b) s 0 pos_sell (omega arith),
            zero_worth native,
          )
          refl
    purchase_surplus false t = rw (floor_div_pos ((s - e) * b) s pos_sell) refl

-- What a router's trade executes, at its prices, is not below its limit: the whole sale.
sale_keeps :
    (o : Order) (executed_buy : ℕ)
    → 0 < o.sell_amount
    → o.buy_amount ≤ executed_buy
    → breaks_limit sell o.sell_amount o.sell_amount o.buy_amount executed_buy o.sell_amount ≡ false
unfolding breaks_limit
sale_keeps o e pos le =
    rw
      (
        ceil_div-exact (o.sell_amount * o.buy_amount) o.sell_amount o.buy_amount pos (omega arith),
        ceil_div-exact (o.sell_amount * e) o.sell_amount e pos (omega arith),
      )
      (le→ltb_false e o.buy_amount le)

purchase_keeps :
    (o : Order) (executed_sell : ℕ)
    → 0 < o.buy_amount
    → executed_sell ≤ o.sell_amount
    → breaks_limit buy o.buy_amount o.sell_amount o.buy_amount o.buy_amount executed_sell ≡ false
unfolding breaks_limit
purchase_keeps o e pos le =
    rw
      (
        div-exact (o.buy_amount * o.sell_amount) o.buy_amount o.sell_amount pos (omega arith),
        div-exact (o.buy_amount * e) o.buy_amount e pos (omega arith),
      )
      (le→ltb_false o.sell_amount e le)

three_quarters : (n : ℕ) → 4 * (3 * n / 4) ≤ 3 * n
three_quarters n = omega arith

three_quarters_up : (n : ℕ) → 3 * n ≤ 4 * (3 * n / 4) + 3
three_quarters_up n = omega arith

halves : (n : ℕ) → 2 * (n / 2) ≤ n
halves n = omega arith

halves_up : (n : ℕ) → n ≤ 2 * (n / 2) + 1
halves_up n = omega arith

-- A fraction: within one unit
three_quarters_limit : (s b : ℕ) → 0 < s → ceil_div (3 * s / 4 * b) s ≤ 3 * b / 4 + 1
three_quarters_limit s b pos =
    ceil_div-le _ s _ pos (
      omega
        (arith, mul-le-mul_right b (three_quarters s), mul-le-mul_right s (three_quarters_up b)))

half_limit : (s b : ℕ) → 0 < s → ceil_div (s / 2 * b) s ≤ b / 2 + 1
half_limit s b pos =
    ceil_div-le _ s _ pos
      (omega (arith, mul-le-mul_right b (halves s), mul-le-mul_right s (halves_up b)))

sell-ne-buy : sell ≡ buy → ⊥
sell-ne-buy h = cc

module _ (o : Order) (executed executed_sell executed_buy : ℕ) (some_sell : 0 < o.sell_amount) where
  -- Amounts that clear an order which must be filled whole, with positive amounts, do not break the
  -- limit test at the prices that they give.
  pub whole_fill-keeps_limit :
      0 < o.buy_amount
      → o.partially_fillable ≡ false
      → Clears o executed executed_sell executed_buy
      → breaks_limit o.kind executed o.sell_amount o.buy_amount executed_buy executed_sell ≡ false
  whole_fill-keeps_limit some_buy whole (inl (k, e, inl (f, le))) =
      rw (k, e, f) (sale_keeps o executed_buy some_sell le)
  whole_fill-keeps_limit some_buy whole (inl (k, e, inr (partial, rest))) =
      absurd (false-ne-true (sym whole ∙ partial))
  whole_fill-keeps_limit some_buy whole (inr (k, e, f, le)) =
      rw (k, e, f) (purchase_keeps o executed_sell some_buy le)

  -- Amounts that clear a sell order, a positive one sold, pay at most one unit less than the limit,
  -- rounded up.
  pub sale-shortfall :
      0 < executed_sell
      → o.kind ≡ sell
      → Clears o executed executed_sell executed_buy
      → ceil_div (executed * o.buy_amount) o.sell_amount
        ≤ ceil_div (executed * executed_buy) executed_sell + 1
  sale-shortfall pos k (inl (_, e, limit)) =
      let paid =
        ceil_div-exact (executed_sell * executed_buy) executed_sell executed_buy pos
          (omega arith) in
      rw (e, paid) (limit_unit limit)
    where
      limit_unit :
          SellLimit o executed_sell executed_buy
          → ceil_div (executed_sell * o.buy_amount) o.sell_amount ≤ executed_buy + 1
      limit_unit (inl (f, le)) =
          rw
            (
              f,
              ceil_div-exact (o.sell_amount * o.buy_amount) o.sell_amount o.buy_amount some_sell
                  (omega arith),
            )
            (omega arith)
      limit_unit (inr (_, inl (f, le))) =
          rw f (omega (arith, three_quarters_limit o.sell_amount o.buy_amount some_sell))
      limit_unit (inr (_, inr (f, le))) =
          rw f (omega (arith, half_limit o.sell_amount o.buy_amount some_sell))
  sale-shortfall pos k (inr h) = absurd (sell-ne-buy (sym k ∙ h.0))
