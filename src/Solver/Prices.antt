-- ===== src/Solver/Prices.antt =====
-- `RouterSolver._register_prices` of src/solver/router.py: one clearing price for each token.
pub mod Laws
use cow_solver_skeleton.Prelude.{
  ℕ, Bool, true, false, not, ◌&&◌, Option, none, some, ◌==◌, if◌then◌else◌,
}
use cow_solver_skeleton.Dict.{Dict, get, put}
use cow_solver_skeleton.Model.{Order}

-- `existing is not None and existing != price`
unfoldable pub conflicts : Option ℕ → ℕ → Bool
conflicts none price = false
conflicts (some existing) price = not (existing == price)

-- `none` is the answer False, which leaves the prices alone; `some` is True with the new prices.
-- The forensic log line above the test is not modelled: it has no effect and cannot raise.
unfoldable pub register_prices : Dict ℕ → Order → ℕ → ℕ → Option (Dict ℕ)
unfolding conflicts
register_prices prices order executed_buy executed_sell =
    if conflicts (get prices order.sell_token) executed_buy
    then none
    else if conflicts (get prices order.buy_token) executed_sell
    then none
    else some (put (put prices order.sell_token executed_buy) order.buy_token executed_sell)
