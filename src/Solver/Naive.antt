-- ===== src/Solver/Naive.antt =====
-- src/solver/naive.py: sell orders filled at the reference prices of the auction. The refiner is an
-- argument: `none` where no multicall is plumbed.
pub mod Settled
use cow_solver_skeleton.Prelude.{
  ℕ, ◌*◌, ◌/◌, String, Option, none, some, List, [], ◌∷◌, ◌++◌, ltb, if◌then◌else◌, other_error,
  Result, ok, err, ◌>>=◌,
}
use cow_solver_skeleton.Dict.{Dict, get, put}
use cow_solver_skeleton.Model.{
  sell, buy, Order, Token, Auction, Trade, fulfillment, Solution, Outcome, solution, no_solution,
}
use cow_solver_skeleton.Solver.Ranking.{positive_price}
use cow_solver_skeleton.Solver.Router.Batched.{publish}

-- The trades and the prices that the loop builds.
pub record Book : Type 0 where
  pub trades : List Trade
  pub prices : Dict ℕ

abbrev pub empty_book : Book
empty_book = record { trades = []; prices = [] }

-- `auction.tokens.get(token)`, where its reference price is set and not 0
unfoldable pub reference_price : Auction → String → Option ℕ
unfolding positive_price
reference_price auction token = positive_price (get auction.tokens token)

-- The end of the loop's body: both reference prices are known.
unfoldable pub fill_at : Order → ℕ → ℕ → Book → Book
fill_at order sell_price buy_price book =
    if ltb (order.sell_amount * sell_price / buy_price) order.buy_amount then book else record {
      trades =
          book.trades
          ++ record {
            kind = fulfillment;
            order_uid = order.uid;
            executed_amount = order.sell_amount;
          }
            ∷ [];
      prices = put (put book.prices order.sell_token sell_price) order.buy_token buy_price;
    }

unfoldable pub fill_priced : Order → Option ℕ → Option ℕ → Book → Book
unfolding fill_at
fill_priced order (some sell_price) (some buy_price) book = fill_at order sell_price buy_price book
fill_priced order _ _ book = book

unfoldable pub consider : Auction → Order → Book → Book
unfolding fill_priced reference_price
consider auction order book = elim order.kind [
  | buy ↦ book
  | sell ↦
      fill_priced order (reference_price auction order.sell_token)
        (reference_price auction order.buy_token) book
]

unfoldable pub fill_all : Auction → List Order → Book → Book
unfolding consider
fill_all auction [] book = book
fill_all auction (order ∷ orders) book = fill_all auction orders (consider auction order book)

abbrev pub Refiner : Type 0
Refiner = Solution → Auction → Result Solution

unfoldable pub refined : Option Refiner → Auction → Outcome → Result Outcome
refined none auction out = ok out
refined (some refine) auction no_solution = ok no_solution
refined (some refine) auction (solution sol) = refine sol auction >>= λ better. ok (solution better)

-- `NaiveSolver.solve`
unfoldable pub solve : Option Refiner → Auction → Result Outcome
unfolding fill_all publish refined
solve refine auction = elim auction.id [
  | none ↦ err (other_error "naive must not run for quote-only auctions")
  | some _ ↦
      let book = fill_all auction auction.orders empty_book in
      publish auction book.trades book.prices [] >>= refined refine auction
]
