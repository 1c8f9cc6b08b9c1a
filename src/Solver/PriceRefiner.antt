-- ===== src/Solver/PriceRefiner.antt =====
-- src/solver/price_refiner.py: the trades of the naive solver against quotes of the pools. The best
-- path's quote is an argument: the amount that leaves the path, none for no path, or an exception.
pub mod Kept
pub mod Returns
use cow_solver_skeleton.Prelude.{
  ℕ, ◌*◌, ◌/◌, max, String, Bool, ◌&&◌, Option, none, some, List, [], ◌∷◌, ◌++◌, lower, ltb, ◌==◌,
  ◌=ₛ◌, if◌then◌else◌, zero_division, Result, ok, err, ◌>>=◌,
}
use cow_solver_skeleton.Dict.{Dict, get, put, set_default}
use cow_solver_skeleton.Model.{
  Order, Auction, Trade, TradeKind, fulfillment, jit, Solution, WireInteraction,
}
use cow_solver_skeleton.Solver.Naive.{Book, empty_book, reference_price}

-- `{o.uid: o for o in auction.orders}`: a later order replaces an earlier one of its uid
unfoldable pub orders_by_uid : Dict Order → List Order → Dict Order
orders_by_uid acc [] = acc
orders_by_uid acc (o ∷ os) = orders_by_uid (put acc o.uid o) os

abbrev pub Pair : Type 0
Pair = String × String

-- `(order.sell_token.lower(), order.buy_token.lower())`
unfoldable pub pair_of : Order → Pair
unfolding lower
pair_of o = (lower o.sell_token, lower o.buy_token)

abbrev same_pair : Pair → Pair → Bool
same_pair (a, b) (c, d) = (a =ₛ c) && (b =ₛ d)

-- The largest sell amount of each pair, in the order in which the pairs first occur.
unfoldable pub note_pair : Pair → ℕ → List (Pair × ℕ) → List (Pair × ℕ)
note_pair pair amount [] = (pair, amount) ∷ []
note_pair pair amount ((p, most) ∷ pairs) =
    let rest = note_pair pair amount pairs in
    if same_pair p pair then (p, max most amount) ∷ pairs else (p, most) ∷ rest

unfoldable pub note_order : List (Pair × ℕ) → Option Order → List (Pair × ℕ)
unfolding pair_of note_pair
note_order acc none = acc
note_order acc (some o) = note_pair (pair_of o) o.sell_amount acc

unfoldable pub note_trade : Dict Order → List (Pair × ℕ) → Trade → List (Pair × ℕ)
unfolding note_order
note_trade orders acc t = elim t.kind [
  | jit ↦ acc
  | fulfillment ↦ note_order acc (get orders t.order_uid)
]

unfoldable pub pair_sell_amounts : Dict Order → List (Pair × ℕ) → List Trade → List (Pair × ℕ)
unfolding note_trade
pair_sell_amounts orders acc [] = acc
pair_sell_amounts orders acc (t ∷ ts) = pair_sell_amounts orders (note_trade orders acc t) ts

-- `quote_best_path(…)[-1].amount_out` under the timeout
abbrev pub PathQuote : Type 0
PathQuote = String → String → ℕ → Result (Option ℕ)

-- A quote that counts: an exception, no path and no amount are none.
abbrev positive_quote : Result (Option ℕ) → Option ℕ
positive_quote (err e) = none
positive_quote (ok none) = none
positive_quote (ok (some out)) = if out == 0 then none else some out

-- `(amount_out, sell_amount)` of every pair that is quoted
unfoldable pub real_prices : PathQuote → List (Pair × ℕ) → List (Pair × (ℕ × ℕ))
real_prices quote [] = []
real_prices quote (((s, b), amount) ∷ pairs) =
    let rest = real_prices quote pairs in
    elim (positive_quote (quote s b amount)) [
      | none ↦ rest
      | some out ↦ ((s, b), (out, amount)) ∷ rest
    ]

unfoldable pub price_pair : List (Pair × (ℕ × ℕ)) → Pair → Option (ℕ × ℕ)
price_pair [] pair = none
price_pair ((p, prices) ∷ rest) pair =
    if same_pair p pair then some prices else price_pair rest pair

-- `refined_prices.setdefault(token, int(info.reference_price))`, where there is one
unfoldable pub default_price : Dict ℕ → String → Option ℕ → Dict ℕ
unfolding set_default
default_price prices token none = prices
default_price prices token (some p) = set_default prices token p

abbrev pub priced : Auction → Order → Dict ℕ → Dict ℕ
priced auction o prices =
    default_price (default_price prices o.sell_token (reference_price auction o.sell_token))
      o.buy_token (reference_price auction o.buy_token)

abbrev pub keep : Trade → Book → Dict ℕ → Book
keep t book prices = record { trades = book.trades ++ t ∷ []; prices = prices }

-- A pair without a quote keeps the trade at the reference prices, where both are known.
unfoldable pub keep_unquoted : Auction → Order → Trade → Book → Book
unfolding default_price reference_price
keep_unquoted auction o t book = elim (reference_price auction o.sell_token) [
  | none ↦ book
  | some p ↦ elim (reference_price auction o.buy_token) [
    | none ↦ book
    | some q ↦ keep t book (priced auction o book.prices)
  ]
]

-- A quoted pair keeps the trade if the limit is met at the quote.
unfoldable pub keep_quoted : Auction → Order → Trade → ℕ → ℕ → Book → Result Book
unfolding default_price reference_price
keep_quoted auction o t cp_sell cp_buy book =
    if cp_buy == 0
    then err zero_division
    else if ltb (t.executed_amount * cp_sell / cp_buy) o.buy_amount
    then ok book
    else ok (keep t book (priced auction o book.prices))

unfoldable pub keep_order :
    Auction → List (Pair × (ℕ × ℕ)) → Option Order → Trade → Book → Result Book
unfolding pair_of price_pair keep_unquoted keep_quoted
keep_order auction quotes none t book = ok book
keep_order auction quotes (some o) t book = elim (price_pair quotes (pair_of o)) [
  | none ↦ ok (keep_unquoted auction o t book)
  | some (cp_sell, cp_buy) ↦ keep_quoted auction o t cp_sell cp_buy book
]

-- The body of the second loop.
unfoldable pub refine_trade :
    Auction → Dict Order → List (Pair × (ℕ × ℕ)) → Trade → Book → Result Book
unfolding keep_order
refine_trade auction orders quotes t book = elim t.kind [
  | jit ↦ ok (keep t book book.prices)
  | fulfillment ↦ keep_order auction quotes (get orders t.order_uid) t book
]

unfoldable pub refine_trades :
    Auction → Dict Order → List (Pair × (ℕ × ℕ)) → List Trade → Book → Result Book
unfolding refine_trade
refine_trades auction orders quotes [] book = ok book
refine_trades auction orders quotes (t ∷ ts) book =
    refine_trade auction orders quotes t book >>= λ next.
    refine_trades auction orders quotes ts next

-- No trades leave the solution as it was.
unfoldable pub rebuilt : Solution → Book → Solution
rebuilt sol book = elim book.trades [
  | [] ↦ sol
  | t ∷ ts ↦ record {
    id = sol.id;
    prices = book.prices;
    trades = t ∷ ts;
    interactions = sol.interactions;
  }
]

-- No pairs, or no quotes, leave the solution as it was.
unfoldable pub refine_quoted :
    Solution → Auction → Dict Order → List (Pair × (ℕ × ℕ)) → Result Solution
unfolding refine_trades rebuilt
refine_quoted sol auction orders [] = ok sol
refine_quoted sol auction orders (q ∷ qs) =
    refine_trades auction orders (q ∷ qs) sol.trades empty_book >>= λ book. ok (rebuilt sol book)

unfoldable pub refine_solution_prices : PathQuote → Solution → Auction → Result Solution
unfolding orders_by_uid pair_sell_amounts real_prices refine_quoted
refine_solution_prices quote sol auction =
    let orders = orders_by_uid [] auction.orders in
    refine_quoted sol auction orders (real_prices quote (pair_sell_amounts orders [] sol.trades))
