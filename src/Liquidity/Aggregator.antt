-- ===== src/Liquidity/Aggregator.antt =====
-- src/liquidity/aggregator.py: the best quote of several sources.
pub mod Chosen
use cow_solver_skeleton.Prelude.{
  ℕ, Bool, Option, none, some, List, [], ◌∷◌, ltb, if◌then◌else◌, ok, err,
}
use cow_solver_skeleton.Model.{Kind, sell, buy}
use cow_solver_skeleton.Liquidity.Source.{SwapRequest, Quote, LiquiditySource}

-- `_safe_quote`: an exception counts as a declined quote.
unfoldable pub safe_quote : LiquiditySource → SwapRequest → ℕ → Option Quote
safe_quote source req timeout_ms = elim (source.quote req timeout_ms) [ ok q ↦ q | err e ↦ none ]

abbrev pub Offer : Type 0
Offer = Quote × LiquiditySource

unfoldable pub add_offer : Option Quote → LiquiditySource → List Offer → List Offer
add_offer none source offers = offers
add_offer (some q) source offers = (q, source) ∷ offers

unfoldable pub viable : List LiquiditySource → SwapRequest → ℕ → List Offer
unfolding safe_quote add_offer
viable [] req timeout_ms = []
viable (s ∷ ss) req timeout_ms =
    add_offer (safe_quote s req timeout_ms) s (viable ss req timeout_ms)

-- Whether the first offer beats the second: more output for a sale, less input for a purchase.
unfoldable pub beats : Kind → Quote → Quote → Bool
beats sell q r = ltb r.buy_amount q.buy_amount
beats buy q r = ltb q.sell_amount r.sell_amount

-- Python's `max` and `min` keep the first of equal offers.
unfoldable pub best_of : Kind → Offer → List Offer → Offer
unfolding beats
best_of kind best [] = best
best_of kind best (o ∷ os) = best_of kind (if beats kind o.0 best.0 then o else best) os

unfoldable pub pick : Kind → List Offer → Option Offer
unfolding best_of
pick kind [] = none
pick kind (o ∷ os) = some (best_of kind o os)

-- `LiquidityAggregator.best_quote`
unfoldable pub best_quote : List LiquiditySource → SwapRequest → ℕ → Option Offer
unfolding viable pick
best_quote sources req timeout_ms = pick req.kind (viable sources req timeout_ms)
