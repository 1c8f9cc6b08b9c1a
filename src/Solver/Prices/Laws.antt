-- ===== src/Solver/Prices/Laws.antt =====
-- About `_register_prices` of src/solver/router.py.
use text.Mathlib.TextEquality.{eq_iff}
use cow_solver_skeleton.Prelude.{ℕ, String, ◌≡◌, ◌≢◌, some, arith, ◌=ₛ◌, if◌then◌else◌}
use cow_solver_skeleton.Dict.{Dict, get, put, get-put}
use cow_solver_skeleton.Model.{Order}
use cow_solver_skeleton.Solver.Prices.{register_prices}

module _ (prices : Dict ℕ) (order : Order) (executed_buy executed_sell : ℕ) {after : Dict ℕ}
    (registered : register_prices prices order executed_buy executed_sell ≡ some after) where
  after_eq : after ≡ put (put prices order.sell_token executed_buy) order.buy_token executed_sell
  unfolding register_prices
  after_eq = ground arith

  get-after :
      (k : String)
      → get after k ≡ (
          if order.buy_token =ₛ k
          then some executed_sell
          else if order.sell_token =ₛ k
          then some executed_buy
          else get prices k)
  get-after k = rw after_eq (simp get-put)

  -- A successful registration leaves every price that was registered before as it was.
  pub register_prices-keeps : (k : String) (v : ℕ) → get prices k ≡ some v → get after k ≡ some v
  unfolding register_prices
  register_prices-keeps k v h =
      ground (arith, get-after k, eq_iff order.buy_token k, eq_iff order.sell_token k)

  -- A successful registration for an order of two different tokens prices the sell token at the
  -- bought amount and the buy token at the sold amount.
  pub register_prices-records :
      order.sell_token ≢ order.buy_token
      → (get after order.sell_token ≡ some executed_buy)
        × (get after order.buy_token ≡ some executed_sell)
  register_prices-records distinct = (
    ground (
      arith,
      get-after order.sell_token,
      eq_iff order.buy_token order.sell_token,
      eq_iff order.sell_token order.sell_token,
    ),
    ground (arith, get-after order.buy_token, eq_iff order.buy_token order.buy_token),
  )
