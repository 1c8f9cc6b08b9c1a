-- ===== src/Solver/Router/Draft.antt =====
-- The solution under construction in `RouterSolver._solve_v3_batched`, and the body of its loop
-- over the orders.
pub mod Settled
pub mod Fills
use cow_solver_skeleton.Prelude.{
  ℕ, ◌+◌, ◌*◌, ◌/◌, String, Bool, true, false, Option, none, some, List, [], ◌∷◌, ◌++◌, map,
  text_mem, ltb, leb, ◌==◌, if◌then◌else◌, Result, ok, err, zero_division, ◌>>=◌,
}
use cow_solver_skeleton.Dict.{Dict, get}
use cow_solver_skeleton.Model.{Kind, sell, buy, Order, Trade, fulfillment, WireInteraction}
use cow_solver_skeleton.Encoder.Interaction.{to_gpv2_dict}
use cow_solver_skeleton.Solver.Prices.{register_prices}
use cow_solver_skeleton.Solver.Quotes.{RouteQuote, RoutePath, select_best_quote_per_order}
use cow_solver_skeleton.Solver.Route.{Settlement, encode_path_interaction}

-- The four variables that the loop mutates. `filled` is a set.
pub record Draft : Type 0 where
  pub trades : List Trade
  pub prices : Dict ℕ
  pub interactions : List WireInteraction
  pub filled : List String

abbrev pub empty_draft : Draft
empty_draft = record { trades = []; prices = []; interactions = []; filled = [] }

-- `set.add`
abbrev pub add_uid : String → List String → List String
add_uid uid uids = if text_mem uid uids then uids else uids ++ uid ∷ []

abbrev pub fill : Order → ℕ → Trade
fill order executed = record {
  kind = fulfillment;
  order_uid = order.uid;
  executed_amount = executed;
}

-- A fill of an order: what the trade executes, and the amounts that set the prices.
pub record Fill : Type 0 where
  pub executed : ℕ
  pub executed_sell : ℕ
  pub executed_buy : ℕ
  pub path : RoutePath

module _ (s : Settlement) (deadline : ℕ) where
  -- Register the prices, then append the trade and its interactions; `none` if the prices conflict.
  unfoldable pub emit : Draft → Order → Fill → Result (Option Draft)
  emit d order f = elim (register_prices d.prices order f.executed_buy f.executed_sell) [
    | none ↦ ok none
    | some prices ↦ do
      calls ← encode_path_interaction s f.path f.executed_sell f.executed_buy deadline
      ok (
          some (record {
            trades = d.trades ++ fill order f.executed ∷ [];
            prices = prices;
            interactions = d.interactions ++ map to_gpv2_dict calls;
            filled = add_uid order.uid d.filled;
          }))
  ]

  -- A conflict skips the order.
  or_skip : Draft → Option Draft → Draft
  or_skip d none = d
  or_skip d (some d') = d'

  fill_buy : Draft → Order → Option RouteQuote → Result Draft
  unfolding or_skip
  fill_buy d order none = ok d
  fill_buy d order (some best) = if ltb order.sell_amount best.amount_out then ok d else do
    emitted ← emit d order (record {
      executed = order.buy_amount;
      executed_sell = best.amount_out;
      executed_buy = order.buy_amount;
      path = best.path;
    })
    ok (or_skip d emitted)

  fill_sell_full : Draft → Order → RouteQuote → Result Draft
  unfolding or_skip
  fill_sell_full d order best = do
    emitted ← emit d order (record {
      executed = order.sell_amount;
      executed_sell = order.sell_amount;
      executed_buy = best.amount_out;
      path = best.path;
    })
    ok (or_skip d emitted)

  -- The fractions that are tried, largest first, with their floored limits.
  abbrev pub partial_fractions : Order → List (ℕ × ℕ)
  partial_fractions order =
      (3 * order.sell_amount / 4, 3 * order.buy_amount / 4)
      ∷ (order.sell_amount / 2, order.buy_amount / 2)
      ∷ []

  -- One fraction: `none` goes on to the next one.
  try_fraction : Draft → Order → ℕ → ℕ → Option RouteQuote → Result (Option Draft)
  try_fraction d order partial_sell limit none = ok none
  try_fraction d order partial_sell limit (some frac_best) =
      if ltb frac_best.amount_out limit
      then ok none
      else emit d order (record {
        executed = partial_sell;
        executed_sell = partial_sell;
        executed_buy = frac_best.amount_out;
        path = frac_best.path;
      })

  -- Each round first computes `partial_sell / order.sell_amount` for its log entry.
  fill_partial : List RouteQuote → Draft → Order → List (ℕ × ℕ) → Result Draft
  unfolding try_fraction
  fill_partial quotes d order [] = ok d
  fill_partial quotes d order ((partial_sell, limit) ∷ fractions) =
      let rest = fill_partial quotes d order fractions in
      if order.sell_amount == 0 then err zero_division else do
        emitted ←
            try_fraction d order partial_sell limit
              (get (select_best_quote_per_order quotes (some partial_sell)) order.uid)
        elim emitted [ some d' ↦ ok d' | none ↦ rest ]

  -- The quote of a sell order that clears its limit.
  abbrev pub clears : Order → Option RouteQuote → Option RouteQuote
  clears order none = none
  clears order (some best) = if ltb best.amount_out order.buy_amount then none else some best

  -- No quote cleared the limit: fractions are tried only where the order allows them.
  fill_missed : List RouteQuote → Draft → Order → Bool → Result Draft
  unfolding fill_partial
  fill_missed quotes d order true = fill_partial quotes d order (partial_fractions order)
  fill_missed quotes d order false = ok d

  fill_sell : List RouteQuote → Draft → Order → Option RouteQuote → Result Draft
  unfolding fill_sell_full fill_missed
  fill_sell quotes d order best = elim (clears order best) [
    | some q ↦ fill_sell_full d order q
    | none ↦ fill_missed quotes d order order.partially_fillable
  ]

  -- The body of `for order in orders`.
  unfoldable pub fill_order : List RouteQuote → Draft → Order → Result Draft
  unfolding fill_buy fill_sell
  fill_order quotes d order =
      let best = get (select_best_quote_per_order quotes none) order.uid in
      elim order.kind [ buy ↦ fill_buy d order best | sell ↦ fill_sell quotes d order best ]

  unfoldable pub fill_orders : List RouteQuote → Draft → List Order → Result Draft
  unfolding fill_order
  fill_orders quotes d [] = ok d
  fill_orders quotes d (o ∷ os) = do d' ← fill_order quotes d o; fill_orders quotes d' os
