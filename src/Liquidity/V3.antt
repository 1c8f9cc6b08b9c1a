-- ===== src/Liquidity/V3.antt =====
-- src/liquidity/v3.py: quotes and calls for Uniswap V3. The clock is an argument, and whether a quote
-- is done within its time is a field.
pub mod Picked
use Prim.Native.String.{◌++◌ as ◌++ₛ◌}
use cow_solver_skeleton.Prelude.{
  ℕ, ◌+◌, String, Bool, true, false, ◌||◌, Option, none, some, List, [], ◌∷◌, ◌++◌, map, filter,
  lower, ltb, ◌==◌, ◌=ₛ◌, if◌then◌else◌, max_by, min_by, Result, ok, err, value_error, ◌>>=◌,
}
use cow_solver_skeleton.Model.{Kind, sell, buy}
use cow_solver_skeleton.Encoder.Bytes.{take_text}
use cow_solver_skeleton.Encoder.Interaction.{Interaction}
use cow_solver_skeleton.Encoder.V3.{V3Swap, encode_v3_swap}
use cow_solver_skeleton.Routing.Multicall.{Multicall3}
use cow_solver_skeleton.Routing.V3Batched.{V3Path, V3BatchedQuote, fee_tiers, batched_v3_quote}
use cow_solver_skeleton.Liquidity.Source.{
  SwapRequest, Quote, RouteMetadata, v2_route, v3_route, no_route, LiquiditySource,
}

pub record V3Source : Type 0 where
  pub multicall : Multicall3
  pub router_address : String
  pub intermediate_tokens : List String
  pub slippage_bps : ℕ
  pub in_time : SwapRequest → ℕ → Bool

is_buy : Kind → Bool
is_buy sell = false
is_buy buy = true

fixed_amount : SwapRequest → ℕ
fixed_amount req = elim req.kind [ sell ↦ req.sell_amount | buy ↦ req.buy_amount ]

path_with : SwapRequest → ℕ → Option String → Option ℕ → V3Path
unfolding take_text is_buy fixed_amount
path_with req fee_in mid fee_out = record {
  order_uid = take_text 6 req.sell_token ++ₛ ("_" ++ₛ take_text 6 req.buy_token);
  token_in = req.sell_token;
  token_out = req.buy_token;
  amount_in = fixed_amount req;
  fee_tier_in = fee_in;
  intermediate = mid;
  fee_tier_out = fee_out;
  exact_output = is_buy req.kind;
}

-- Every pair of fee tiers through one token.
tier_pairs : SwapRequest → String → List ℕ → List V3Path
unfolding path_with
tier_pairs req mid [] = []
tier_pairs req mid (fee_in ∷ fees) =
    map (λ fee_out. path_with req fee_in (some mid) (some fee_out)) fee_tiers
    ++ tier_pairs req mid fees

two_hops : SwapRequest → List String → List V3Path
unfolding tier_pairs lower
two_hops req [] = []
two_hops req (mid ∷ mids) =
    let rest = two_hops req mids in
    if lower mid =ₛ lower req.sell_token || lower mid =ₛ lower req.buy_token
    then rest
    else tier_pairs req mid fee_tiers ++ rest

unfoldable pub candidate_paths : List String → SwapRequest → List V3Path
unfolding fixed_amount path_with two_hops
candidate_paths intermediates req =
    if fixed_amount req == 0
    then []
    else map (λ fee. path_with req fee none none) fee_tiers ++ two_hops req intermediates

abbrev pub is_viable : V3BatchedQuote → Bool
is_viable q = ltb 0 q.amount_out

-- The greatest output for a sale, the smallest input for a purchase.
unfoldable pub extreme : Kind → List V3BatchedQuote → Option V3BatchedQuote
unfolding max_by min_by
extreme kind [] = none
extreme sell (q ∷ qs) = some (max_by (λ q. q.amount_out) q qs)
extreme buy (q ∷ qs) = some (min_by (λ q. q.amount_out) q qs)

unfoldable pub pick_best : List V3BatchedQuote → Kind → Option V3BatchedQuote
unfolding extreme
pick_best quotes kind = extreme kind (filter is_viable quotes)

gas_of : Option String → ℕ
gas_of none = 150_000
gas_of (some mid) = 250_000

unfoldable pub to_quote : ℕ → SwapRequest → V3BatchedQuote → Quote
unfolding gas_of
to_quote now req best = record {
  source = "v3";
  sell_amount = elim req.kind [ sell ↦ req.sell_amount | buy ↦ best.amount_out ];
  buy_amount = elim req.kind [ sell ↦ best.amount_out | buy ↦ req.buy_amount ];
  valid_until = now + 60;
  route_metadata = v3_route best.path (now + 60);
  gas_estimate = gas_of best.path.intermediate;
}

unfoldable pub of_best : ℕ → SwapRequest → Option V3BatchedQuote → Option Quote
unfolding to_quote
of_best now req none = none
of_best now req (some best) = if best.amount_out == 0 then none else some (to_quote now req best)

unfoldable pub of_quotes : ℕ → SwapRequest → Result (List V3BatchedQuote) → Option Quote
unfolding of_best pick_best
of_quotes now req (err e) = none
of_quotes now req (ok quotes) = of_best now req (pick_best quotes req.kind)

quote_paths : V3Source → ℕ → SwapRequest → ℕ → List V3Path → Option Quote
unfolding of_quotes batched_v3_quote
quote_paths src now req timeout_ms [] = none
quote_paths src now req timeout_ms (p ∷ paths) =
    if src.in_time req timeout_ms
    then of_quotes now req (batched_v3_quote src.multicall (p ∷ paths))
    else none

-- A timeout and an exception are no quote.
unfoldable pub quote : V3Source → ℕ → SwapRequest → ℕ → Option Quote
unfolding candidate_paths quote_paths
quote src now req timeout_ms =
    quote_paths src now req timeout_ms (candidate_paths src.intermediate_tokens req)

encode_route : V3Source → Quote → String → RouteMetadata → Result Interaction
unfolding encode_v3_swap
encode_route src q recipient (v3_route path deadline) = encode_v3_swap src.multicall.abi (record {
  token_in = path.token_in;
  token_out = path.token_out;
  fee_in = path.fee_tier_in;
  intermediate = path.intermediate;
  fee_out = path.fee_tier_out;
  exact_output = path.exact_output;
  executed_sell = q.sell_amount;
  executed_buy = q.buy_amount;
  recipient = recipient;
  deadline = deadline;
  slippage_bps = src.slippage_bps;
  router_address = src.router_address;
})
encode_route src q recipient _ = err (value_error "route_metadata['v3_route'] missing")

unfoldable pub encode_interaction : V3Source → Quote → String → Result Interaction
unfolding encode_route
encode_interaction src q recipient = encode_route src q recipient q.route_metadata

-- The source behind the protocol of src/liquidity/base.py.
unfoldable pub source_of : V3Source → ℕ → LiquiditySource
unfolding quote encode_interaction
source_of src now = record {
  name = "v3";
  quote = λ req timeout_ms. ok (quote src now req timeout_ms);
  encode_interaction = encode_interaction src;
}
