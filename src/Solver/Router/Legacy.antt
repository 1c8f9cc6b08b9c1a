-- ===== src/Solver/Router/Legacy.antt =====
-- `RouterSolver._solve_legacy` of src/solver/router.py: sell orders only, one path search each. The
-- search (`quote_best_path` of src/routing/multihop.py) is an argument, which answers the amount
-- that the last hop pays, `none` where it finds no path or raises.
pub mod Booked
use cow_solver_skeleton.Prelude.{
  ℕ, String, Option, none, some, List, [], ◌∷◌, ◌++◌, filter, ltb, if◌then◌else◌,
}
use cow_solver_skeleton.Dict.{Dict}
use cow_solver_skeleton.Model.{Order, Trade}
use cow_solver_skeleton.Solver.Prices.{register_prices}
use cow_solver_skeleton.Solver.Router.Draft.{fill}
use cow_solver_skeleton.Solver.Router.Candidates.{is_sell}

abbrev pub Book : Type 0
Book = List Trade × Dict ℕ

-- The body of the loop over the results.
legacy_order : Book → Order → Option ℕ → Book
legacy_order (trades, prices) order none = (trades, prices)
legacy_order (trades, prices) order (some executed_buy) =
    if ltb executed_buy order.buy_amount
    then (trades, prices)
    else elim (register_prices prices order executed_buy order.sell_amount) [
      | none ↦ (trades, prices)
      | some prices' ↦ (trades ++ fill order order.sell_amount ∷ [], prices')
    ]

legacy_loop : (Order → Option ℕ) → Book → List Order → Book
unfolding legacy_order
legacy_loop search book [] = book
legacy_loop search book (o ∷ os) = legacy_loop search (legacy_order book o (search o)) os

unfoldable pub legacy_book : (Order → Option ℕ) → List Order → Book
unfolding legacy_loop
legacy_book search orders = legacy_loop search ([], []) (filter (λ o. is_sell o.kind) orders)
