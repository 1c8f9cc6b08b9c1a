-- ===== src/Shadow/Scoring.antt =====
-- src/shadow/scoring.py: the CIP-14 score of a solution. The JSON dictionaries are records: a price
-- is `none` where `int(price)` raises. `orders_by_uid` has lower-cased uids.
pub mod Execution
pub mod Validity
pub mod Routed
use cow_solver_skeleton.Prelude.{
  ℕ, ◌+◌, ◌-◌, ◌*◌, ◌/◌, ◌^◌, String, Bool, true, false, ◌&&◌, Option, none, some, List, [], ◌∷◌,
  lower, ltb, leb, ◌==◌, not, if◌then◌else◌, ceil_div, Result, ok, err, zero_division, ◌>>=◌,
}
use cow_solver_skeleton.Dict.{Dict, get, put}
use cow_solver_skeleton.Model.{Kind, sell, buy, Order, TradeKind, fulfillment, jit, Trade, Auction}

-- `_ceil_div`, which raises on a zero divisor, and `//`
checked_ceil_div : ℕ → ℕ → Result ℕ
checked_ceil_div a b = if b == 0 then err zero_division else ok (ceil_div a b)

floor_div : ℕ → ℕ → Result ℕ
floor_div a b = if b == 0 then err zero_division else ok (a / b)

-- The order dictionary that `orders_by_uid_from_auction` builds.
pub record SignedOrder : Type 0 where
  pub sell_token : String
  pub buy_token : String
  pub sell_amount : ℕ
  pub buy_amount : ℕ
  pub kind : Kind

unfoldable pub score_sell_trade : ℕ → ℕ → ℕ → ℕ → ℕ → ℕ → Result ℕ
unfolding checked_ceil_div
score_sell_trade executed signed_sell signed_buy cp_sell cp_buy native_price_buy = do
  limit_buy ← checked_ceil_div (executed * signed_buy) signed_sell
  bought ← checked_ceil_div (executed * cp_sell) cp_buy
  ok (if leb bought limit_buy then 0 else (bought - limit_buy) * native_price_buy / 10 ^ 18)

unfoldable pub score_buy_trade : ℕ → ℕ → ℕ → ℕ → ℕ → ℕ → Result ℕ
unfolding floor_div
score_buy_trade executed signed_sell signed_buy cp_sell cp_buy native_price_buy = do
  limit_sell ← floor_div (executed * signed_sell) signed_buy
  sold ← floor_div (executed * cp_buy) cp_sell
  if leb limit_sell sold then ok 0 else (do
    surplus_buy ← floor_div ((limit_sell - sold) * signed_buy) signed_sell
    ok (surplus_buy * native_price_buy / 10 ^ 18))

-- `cp[tok.lower()] = int(price)` for each price that parses
unfoldable pub lower_prices : Dict ℕ → Dict (Option ℕ) → Dict ℕ
unfolding lower
lower_prices acc [] = acc
lower_prices acc ((tok, none) ∷ prices) = lower_prices acc prices
lower_prices acc ((tok, some price) ∷ prices) = lower_prices (put acc (lower tok) price) prices

-- `cp.get(tok.lower(), 0)`
unfoldable pub price_at : Dict ℕ → String → ℕ
unfolding lower
price_at cp tok = elim (get cp (lower tok)) [ none ↦ 0 | some p ↦ p ]

-- The test of the validity pass: the trade settles below its limit. An exception there means no.
unfoldable pub breaks_limit : Kind → ℕ → ℕ → ℕ → ℕ → ℕ → Bool
breaks_limit sell executed signed_sell signed_buy cp_sell cp_buy =
    ltb (ceil_div (executed * cp_sell) cp_buy) (ceil_div (executed * signed_buy) signed_sell)
breaks_limit buy executed signed_sell signed_buy cp_sell cp_buy =
    ltb (executed * signed_sell / signed_buy) (executed * cp_buy / cp_sell)

-- `all([...])` on ints
abbrev pub all_set : List ℕ → Bool
all_set [] = true
all_set (n ∷ ns) = not (n == 0) && all_set ns

-- The order of a fulfillment trade that executes something.
unfoldable pub scored_order : Dict SignedOrder → Trade → Option SignedOrder
unfolding lower
scored_order orders_by_uid t = elim t.kind [
  | jit ↦ none
  | fulfillment ↦ if t.executed_amount == 0 then none else get orders_by_uid (lower t.order_uid)
]

-- One trade of the validity pass: whether it voids the score.
unfoldable pub voids : Dict ℕ → ℕ → Option SignedOrder → Bool
unfolding price_at breaks_limit
voids cp executed none = false
voids cp executed (some o) =
    all_set (o.sell_amount ∷ o.buy_amount ∷ price_at cp o.sell_token ∷ price_at cp o.buy_token ∷ [])
    && breaks_limit o.kind executed o.sell_amount o.buy_amount (price_at cp o.sell_token)
        (price_at cp o.buy_token)

unfoldable pub any_voids : Dict SignedOrder → Dict ℕ → List Trade → Bool
unfolding voids scored_order
any_voids orders_by_uid cp [] = false
any_voids orders_by_uid cp (t ∷ ts) =
    if voids cp t.executed_amount (scored_order orders_by_uid t)
    then true
    else any_voids orders_by_uid cp ts

abbrev or_zero : Result ℕ → ℕ
or_zero (ok n) = n
or_zero (err e) = 0

-- One trade of the summing pass.
unfoldable pub trade_score : Dict ℕ → Dict ℕ → ℕ → Option SignedOrder → ℕ
unfolding score_sell_trade score_buy_trade price_at
trade_score cp np executed none = 0
trade_score cp np executed (some o) =
    if all_set (
      o.sell_amount
      ∷ o.buy_amount
      ∷ price_at cp o.sell_token
      ∷ price_at cp o.buy_token
      ∷ price_at np o.buy_token
      ∷ [])
    then elim o.kind [
      | sell ↦ or_zero (
          score_sell_trade executed o.sell_amount o.buy_amount (price_at cp o.sell_token)
            (price_at cp o.buy_token) (price_at np o.buy_token))
      | buy ↦ or_zero (
          score_buy_trade executed o.sell_amount o.buy_amount (price_at cp o.sell_token)
            (price_at cp o.buy_token) (price_at np o.buy_token))
    ]
    else 0

unfoldable pub total_score : Dict SignedOrder → Dict ℕ → Dict ℕ → ℕ → List Trade → ℕ
unfolding trade_score scored_order
total_score orders_by_uid cp np total [] = total
total_score orders_by_uid cp np total (t ∷ ts) =
    total_score orders_by_uid cp np
      (total + trade_score cp np t.executed_amount (scored_order orders_by_uid t)) ts

-- The part of a solution dictionary that is scored.
pub record ScoredSolution : Type 0 where
  pub prices : Dict (Option ℕ)
  pub trades : List Trade

unfoldable pub compute_solution_score : ScoredSolution → Dict SignedOrder → Dict (Option ℕ) → ℕ
unfolding lower_prices any_voids total_score
compute_solution_score sol [] native_prices = 0
compute_solution_score sol (o ∷ os) [] = 0
compute_solution_score sol (o ∷ os) (n ∷ ns) =
    if any_voids (o ∷ os) (lower_prices [] sol.prices) sol.trades
    then 0
    else total_score (o ∷ os) (lower_prices [] sol.prices) (lower_prices [] (n ∷ ns)) 0 sol.trades

-- `cp_lower[tok.lower()] = price`
lower_keys : Dict (Option ℕ) → Dict (Option ℕ) → Dict (Option ℕ)
unfolding lower
lower_keys acc [] = acc
lower_keys acc ((tok, price) ∷ prices) = lower_keys (put acc (lower tok) price) prices

unfoldable pub score_at_external_prices :
    ScoredSolution → Dict SignedOrder → Dict (Option ℕ) → Dict (Option ℕ) → ℕ
unfolding lower_keys compute_solution_score
score_at_external_prices sol orders_by_uid native_prices clearing_prices =
    compute_solution_score (record sol { prices = lower_keys [] clearing_prices }) orders_by_uid
      native_prices

unfoldable pub extract_native_prices : Dict (Option ℕ) → Dict ℕ
unfolding lower_prices
extract_native_prices prices_raw = lower_prices [] prices_raw

abbrev pub signed : Order → SignedOrder
signed o = record {
  sell_token = o.sell_token;
  buy_token = o.buy_token;
  sell_amount = o.sell_amount;
  buy_amount = o.buy_amount;
  kind = o.kind;
}

index_orders : Dict SignedOrder → List Order → Dict SignedOrder
unfolding lower
index_orders d [] = d
index_orders d (o ∷ os) = elim o.uid [
  | String.[] ↦ index_orders d os
  | _ ↦ index_orders (put d (lower o.uid) (signed o)) os
]

-- The branch of a parsed auction.
unfoldable pub orders_by_uid_from_auction : Auction → Dict SignedOrder
unfolding index_orders
orders_by_uid_from_auction auction = index_orders [] auction.orders
