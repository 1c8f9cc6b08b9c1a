-- ===== src/Solver/JointClearing/Limits.antt =====
-- The limit test of src/solver/joint_clearing.py at the combined clearing price.
use cow_solver_skeleton.Prelude.{
  ℕ, zero, suc, ◌+◌, ◌-◌, ◌*◌, ◌≤◌, ◌<◌, ◌≡◌, Bool, true, false, ◌||◌, ltb_false→le, cancel_le,
  cancel_lt, false-ne-true, ceil_div-lower, ceil_div-upper, List, [], ◌∷◌, All, length, ltb, ◌==◌,
  if◌then◌else◌, ceil_div, arith, inl, inr, Bool-cases,
}
use cow_solver_skeleton.Model.{Order}
use cow_solver_skeleton.Solver.JointClearing.Groups.{combined_sell}

-- What an order receives at the combined price; `_ceil_div` answers 0 on a zero divisor.
unfoldable pub received : ℕ → ℕ → Order → ℕ
received sold bought o = if sold == 0 then 0 else ceil_div (o.sell_amount * bought) sold

each_clears : List Order → ℕ → ℕ → Bool
unfolding received
each_clears [] sold bought = true
each_clears (o ∷ os) sold bought =
    if ltb (received sold bought o) o.buy_amount then false else each_clears os sold bought

-- `_all_limits_satisfied`
unfoldable pub all_limits_satisfied : List Order → ℕ → ℕ → Bool
unfolding each_clears
all_limits_satisfied orders sold bought =
    if sold == 0 || bought == 0 then false else each_clears orders sold bought

each_clears-All :
    (orders : List Order) (sold bought : ℕ)
    → each_clears orders sold bought ≡ true
    → All (λ o. o.buy_amount ≤ received sold bought o) orders
unfolding each_clears
each_clears-All [] sold bought h = tt
each_clears-All (o ∷ os) sold bought h =
    elim (Bool-cases (ltb (received sold bought o) o.buy_amount)) [
      | inl short ↦ absurd (false-ne-true (rw short at h))
      | inr fits ↦ (
        ltb_false→le (received sold bought o) o.buy_amount fits,
        each_clears-All os sold bought (rw fits at h),
      )
    ]

pub all_limits_satisfied-All :
    (orders : List Order) (sold bought : ℕ)
    → all_limits_satisfied orders sold bought ≡ true
    → (0 < sold)
      × (0 < bought)
      × All (λ o. o.buy_amount ≤ ceil_div (o.sell_amount * bought) sold) orders
unfolding all_limits_satisfied received
all_limits_satisfied-All orders sold bought h = (
  ground arith,
  ground arith,
  as_ceiling orders (each_clears-All orders sold bought (ground arith)),
)
  where
    as_ceiling :
        (os : List Order)
        → All (λ o. o.buy_amount ≤ received sold bought o) os
        → All (λ o. o.buy_amount ≤ ceil_div (o.sell_amount * bought) sold) os
    as_ceiling [] a = tt
    as_ceiling (o ∷ os) a = ((ground (arith, a.0)), as_ceiling os a.1)

-- What a group's orders receive together.
unfoldable pub payouts : ℕ → ℕ → List Order → ℕ
payouts sold bought [] = 0
payouts sold bought (o ∷ os) = received sold bought o + payouts sold bought os

add_lower :
    (s c b r p sold : ℕ) → s * b ≤ r * sold → c * b ≤ p * sold → (s + c) * b ≤ (r + p) * sold
add_lower s c b r p sold h k = omega (arith, h, k)

add_upper :
    (s c b r p n sold : ℕ)
    → r * sold ≤ s * b + sold - 1
    → p * sold ≤ c * b + n * (sold - 1)
    → 0 < sold
    → (r + p) * sold ≤ (s + c) * b + suc n * (sold - 1)
add_upper s c b r p n sold h k pos = omega (arith, h, k, pos)

module _ (sold bought : ℕ) (positive : 0 < sold) where
  received_eq : (o : Order) → received sold bought o ≡ ceil_div (o.sell_amount * bought) sold
  unfolding received
  received_eq o = ground arith

  payouts-lower : (os : List Order) → combined_sell os * bought ≤ payouts sold bought os * sold
  unfolding payouts
  payouts-lower [] = omega arith
  payouts-lower (o ∷ os) = rw (received_eq o) (
      add_lower o.sell_amount (combined_sell os) bought (ceil_div (o.sell_amount * bought) sold)
        (payouts sold bought os) sold (ceil_div-lower (o.sell_amount * bought) sold positive)
        (payouts-lower os))

  payouts-upper :
      (os : List Order)
      → payouts sold bought os * sold ≤ combined_sell os * bought + length os * (sold - 1)
  unfolding payouts
  payouts-upper [] = omega arith
  payouts-upper (o ∷ os) = rw (received_eq o) (
      add_upper o.sell_amount (combined_sell os) bought (ceil_div (o.sell_amount * bought) sold)
        (payouts sold bought os) (length os) sold
        (ceil_div-upper (o.sell_amount * bought) sold positive) (payouts-upper os) positive)

minus_one : (n : ℕ) → suc n - 1 ≡ n
minus_one n = omega arith

below_sum :
    (paid bought n sold : ℕ)
    → paid * sold ≤ sold * bought + n * (sold - 1)
    → 0 < sold
    → 0 < n
    → paid * sold < (bought + n) * sold
below_sum paid bought (suc n) (suc sold) h pos some = omega (arith, rw (minus_one sold) at h)
below_sum paid bought zero sold h pos some = omega (arith, some)
below_sum paid bought n zero h pos some = omega (arith, pos)

some_order : (orders : List Order) → 0 < combined_sell orders → 0 < length orders
some_order [] pos = pos
some_order (o ∷ os) pos = omega arith

-- The orders of a group with a positive combined amount receive together, at the combined price,
-- at least what the swap buys, and less than that and one unit for each order.
pub payouts-bounds :
    (orders : List Order) (bought : ℕ)
    → 0 < combined_sell orders
    → (bought ≤ payouts (combined_sell orders) bought orders)
      × (payouts (combined_sell orders) bought orders < bought + length orders)
payouts-bounds orders bought pos =
    let paid = payouts (combined_sell orders) bought orders in
    (
      cancel_le bought paid (combined_sell orders) pos
          (omega (arith, payouts-lower (combined_sell orders) bought pos orders)),
      cancel_lt paid (bought + length orders) (combined_sell orders) pos (
          below_sum paid bought (length orders) (combined_sell orders)
            (payouts-upper (combined_sell orders) bought pos orders) pos (some_order orders pos)),
    )
