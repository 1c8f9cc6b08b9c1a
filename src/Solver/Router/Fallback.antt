-- ===== src/Solver/Router/Fallback.antt =====
-- `RouterSolver._fill_v2_fallback` of src/solver/router.py: one more chance for the unfilled orders.
pub mod Offers
use cow_solver_skeleton.Prelude.{
  ℕ, String, Bool, Option, none, some, List, [], ◌∷◌, ◌++◌, map, text_mem, ltb, if◌then◌else◌,
  Error, value_error, zero_division, other_error, Result, ok, err, ◌>>=◌,
}
use cow_solver_skeleton.Model.{Kind, sell, buy, Order}
use cow_solver_skeleton.Encoder.Interaction.{to_gpv2_dict}
use cow_solver_skeleton.Liquidity.Source.{SwapRequest, make_request, Quote, LiquiditySource}
use cow_solver_skeleton.Solver.Prices.{register_prices}
use cow_solver_skeleton.Solver.Router.Draft.{Draft, fill, add_uid}

abbrev pub Offer : Type 0
Offer = Quote × LiquiditySource

abbrev request_of : Order → SwapRequest
request_of order = record {
  sell_token = order.sell_token;
  buy_token = order.buy_token;
  sell_amount = elim order.kind [ sell ↦ order.sell_amount | buy ↦ 0 ];
  buy_amount = elim order.kind [ sell ↦ 0 | buy ↦ order.buy_amount ];
  kind = order.kind;
  chain_id = 42161;
}

-- The quote is worse than the order's limit.
unfoldable pub misses_limit : Order → Quote → Bool
misses_limit order q = elim order.kind [
  | sell ↦ ltb q.buy_amount order.buy_amount
  | buy ↦ ltb order.sell_amount q.sell_amount
]

is_better : Order → Quote → Option Offer → Bool
is_better order q none = ltb 0 1
is_better order q (some (best, source)) = elim order.kind [
  | sell ↦ ltb best.buy_amount q.buy_amount
  | buy ↦ ltb q.sell_amount best.sell_amount
]

offer : Order → Option Offer → LiquiditySource → Result (Option Quote) → Option Offer
unfolding misses_limit is_better
offer order best source (ok (some q)) =
    if misses_limit order q then best else if is_better order q best then some (q, source) else best
offer order best source (ok none) = best
offer order best source (err e) = best

-- The loop over the sources' answers; each source gets 800 ms.
unfoldable pub best_offer : Order → SwapRequest → Option Offer → List LiquiditySource → Option Offer
unfolding offer
best_offer order req best [] = best
best_offer order req best (source ∷ sources) =
    best_offer order req (offer order best source (source.quote req 800)) sources

module _ (gpv2_settlement : String) where
  emit_offer : Draft → Order → ℕ → ℕ → ℕ → Offer → Result Draft
  emit_offer d order executed executed_buy executed_sell (q, source) =
      elim (register_prices d.prices order executed_buy executed_sell) [
        | none ↦ ok d
        | some prices ↦ do
          interaction ← source.encode_interaction q gpv2_settlement
          ok (record {
            trades = d.trades ++ fill order executed ∷ [];
            prices = prices;
            interactions = d.interactions ++ to_gpv2_dict interaction ∷ [];
            filled = add_uid order.uid d.filled;
          })
      ]

  take_offer : Draft → Order → Option Offer → Result Draft
  unfolding emit_offer
  take_offer d order none = ok d
  take_offer d order (some o) = elim order.kind [
    | sell ↦ emit_offer d order order.sell_amount o.0.buy_amount order.sell_amount o
    | buy ↦ emit_offer d order order.buy_amount order.buy_amount o.0.sell_amount o
  ]

  -- `except ValueError: continue`
  with_request : List LiquiditySource → Draft → Order → Result SwapRequest → Result Draft
  unfolding take_offer best_offer
  with_request sources d order (ok req) = take_offer d order (best_offer order req none sources)
  with_request sources d order (err (value_error m)) = ok d
  with_request sources d order (err zero_division) = err zero_division
  with_request sources d order (err (other_error m)) = err (other_error m)

  unfoldable pub fallback_order : List LiquiditySource → Draft → Order → Result Draft
  unfolding with_request make_request
  fallback_order sources d order =
      if text_mem order.uid d.filled
      then ok d
      else with_request sources d order (make_request (request_of order))

  unfoldable pub fill_v2_fallback : List LiquiditySource → Draft → List Order → Result Draft
  unfolding fallback_order
  fill_v2_fallback sources d [] = ok d
  fill_v2_fallback sources d (o ∷ os) = do
    d' ← fallback_order sources d o
    fill_v2_fallback sources d' os
