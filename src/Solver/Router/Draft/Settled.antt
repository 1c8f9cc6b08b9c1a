-- ===== src/Solver/Router/Draft/Settled.antt =====
-- Settled trades: what a trade of the draft executes, against its order and the clearing prices.
use cow_solver_skeleton.Prelude.{
  ℕ, ◌*◌, ◌/◌, ◌≤◌, ◌≡◌, ◌≢◌, refl, ◌⊎◌, true, some, List, [], ◌∷◌, ◌++◌, All, In, All-append,
  All-impl,
}
use cow_solver_skeleton.Dict.{Dict, get}
use cow_solver_skeleton.Model.{sell, buy, Order, Trade}
use cow_solver_skeleton.Solver.Prices.{register_prices}
use cow_solver_skeleton.Solver.Prices.Laws.{register_prices-keeps, register_prices-records}
use cow_solver_skeleton.Solver.Router.Draft.{fill}

-- The sell amount and the payout of a sale: whole, or one of the two fractions with its floored
-- limit.
abbrev pub SellLimit : Order → ℕ → ℕ → Type 0
SellLimit o executed_sell executed_buy =
    ((executed_sell ≡ o.sell_amount) × (o.buy_amount ≤ executed_buy))
    ⊎ ((o.partially_fillable ≡ true)
        × (((executed_sell ≡ 3 * o.sell_amount / 4) × (3 * o.buy_amount / 4 ≤ executed_buy))
            ⊎ ((executed_sell ≡ o.sell_amount / 2) × (o.buy_amount / 2 ≤ executed_buy))))

-- What a trade of an order executes: a sale fixes the sold side, a purchase the bought side.
abbrev pub Clears : Order → ℕ → ℕ → ℕ → Type 0
Clears o executed executed_sell executed_buy =
    ((o.kind ≡ sell) × (executed ≡ executed_sell) × SellLimit o executed_sell executed_buy)
    ⊎ ((o.kind ≡ buy)
        × (executed ≡ o.buy_amount)
        × (executed_buy ≡ o.buy_amount)
        × (executed_sell ≤ o.sell_amount))

pub record Settled (orders : List Order) (prices : Dict ℕ) (t : Trade) : Type 0 where
  pub order : Order
  pub listed : In order orders
  pub uid : t.order_uid ≡ order.uid
  pub executed_sell : ℕ
  pub executed_buy : ℕ
  pub clears : Clears order t.executed_amount executed_sell executed_buy
  pub sell_price : get prices order.sell_token ≡ some executed_buy
  pub buy_price : get prices order.buy_token ≡ some executed_sell

abbrev pub AllSettled : List Order → Dict ℕ → List Trade → Type 0
AllSettled orders prices trades = All (Settled orders prices) trades

module _ (orders : List Order) (o : Order) (listed : In o orders)
    (distinct : o.sell_token ≢ o.buy_token) where
  -- A registration keeps the settled trades settled, and settles one more.
  pub register_prices-Settled :
      (prices after : Dict ℕ) (executed executed_sell executed_buy : ℕ) (trades : List Trade)
      → register_prices prices o executed_buy executed_sell ≡ some after
      → Clears o executed executed_sell executed_buy
      → AllSettled orders prices trades
      → AllSettled orders after (trades ++ fill o executed ∷ [])
  register_prices-Settled prices after executed executed_sell executed_buy trades reg clears h =
      All-append (Settled orders after) trades (fill o executed ∷ [])
        (All-impl (Settled orders prices) (Settled orders after)
          (λ t s. record {
            order = s.order;
            listed = s.listed;
            uid = s.uid;
            executed_sell = s.executed_sell;
            executed_buy = s.executed_buy;
            clears = s.clears;
            sell_price =
                register_prices-keeps prices o executed_buy executed_sell reg s.order.sell_token
                  s.executed_buy s.sell_price;
            buy_price =
                register_prices-keeps prices o executed_buy executed_sell reg s.order.buy_token
                  s.executed_sell s.buy_price;
          })
          trades h)
        (
          record {
            order = o;
            listed = listed;
            uid = refl;
            executed_sell = executed_sell;
            executed_buy = executed_buy;
            clears = clears;
            sell_price = prices_set.0;
            buy_price = prices_set.1;
          },
          tt,
        )
    where
      prices_set :
          (get after o.sell_token ≡ some executed_buy)
          × (get after o.buy_token ≡ some executed_sell)
      prices_set = register_prices-records prices o executed_buy executed_sell reg distinct
