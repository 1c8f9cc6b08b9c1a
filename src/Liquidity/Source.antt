-- ===== src/Liquidity/Source.antt =====
-- src/liquidity/base.py: what a liquidity source is asked, answers and promises. The sources
-- themselves are values of `LiquiditySource`.
use cow_solver_skeleton.Prelude.{
  ℕ, ◌≤◌, String, not, ◌=ₛ◌, ltb, lower, Option, List, Result, ok, require, ◌>>◌,
}
use cow_solver_skeleton.Model.{Kind, sell, buy}
use cow_solver_skeleton.Encoder.Interaction.{Interaction}
use cow_solver_skeleton.Routing.V3Batched.{V3Path}

pub record SwapRequest : Type 0 where
  pub sell_token : String
  pub buy_token : String
  pub sell_amount : ℕ
  pub buy_amount : ℕ
  pub kind : Kind
  pub chain_id : ℕ

-- An amount is at least as good as another: no less is bought, or no more is sold.
abbrev pub NoWorse : Kind → ℕ → ℕ → Type 0
NoWorse sell kept rival = rival ≤ kept
NoWorse buy kept rival = kept ≤ rival

abbrev fixed_amount : SwapRequest → ℕ
fixed_amount r = elim r.kind [ sell ↦ r.sell_amount | buy ↦ r.buy_amount ]

-- The constructor with `__post_init__`.
unfoldable pub make_request : SwapRequest → Result SwapRequest
unfolding lower
make_request r = do
  require (ltb 0 (fixed_amount r)) "the fixed side requires a positive amount"
  require (not (lower r.sell_token =ₛ lower r.buy_token)) "sell_token and buy_token must differ"
  ok r

-- `route_metadata`: what the V2 or the V3 source stores in it, with the deadline of the swap, or
-- nothing. It is opaque outside the source that produced it.
pub data RouteMetadata : Type 0 where
  v2_route : List String → ℕ → RouteMetadata
  v3_route : V3Path → ℕ → RouteMetadata
  no_route : RouteMetadata

pub record Quote : Type 0 where
  pub source : String
  pub sell_amount : ℕ
  pub buy_amount : ℕ
  pub valid_until : ℕ
  pub route_metadata : RouteMetadata
  pub gas_estimate : ℕ

pub record LiquiditySource : Type 0 where
  pub name : String
  pub quote : SwapRequest → ℕ → Result (Option Quote)
  pub encode_interaction : Quote → String → Result Interaction
