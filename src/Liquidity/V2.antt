-- ===== src/Liquidity/V2.antt =====
-- src/liquidity/v2.py: quotes and calls for one UniswapV2-style router and its factory. The clock is
-- an argument, and whether a quote is done within its time is a field.
pub mod Walk
pub mod Inverse
pub mod Chosen
use Prim.Native.String.{◌++◌ as ◌++ₛ◌}
use cow_solver_skeleton.Prelude.{
  ℕ, ◌+◌, String, Bool, true, false, ◌||◌, Option, none, some, List, [], ◌∷◌, ◌++◌, map, length,
  lower, ltb, ◌==◌, ◌=ₛ◌, if◌then◌else◌, Result, ok, err, value_error, other_error, ◌>>=◌,
}
use cow_solver_skeleton.Dict.{Dict, put}
use cow_solver_skeleton.Model.{Kind, sell, buy}
use cow_solver_skeleton.Encoder.Interaction.{Interaction, make_interaction}
use cow_solver_skeleton.Encoder.Slippage.{apply_slippage_down, apply_slippage_up}
use cow_solver_skeleton.Encoder.V2.{
  last_token, encode_swap_exact_tokens_for_tokens, encode_swap_tokens_for_exact_tokens,
}
use cow_solver_skeleton.Routing.Multicall.{CallResult, Multicall3, aggregate}
use cow_solver_skeleton.Routing.AmmV2.Pools.{
  PoolReserves, call_of, encode_get_pair, pair_address, fetch_reserves,
}
use cow_solver_skeleton.Liquidity.Source.{
  SwapRequest, Quote, RouteMetadata, v2_route, v3_route, no_route, LiquiditySource,
}
use Walk.{Pair, same_pair, label, hop_reserves, Reserves, sell_walk, buy_walk}

pub record V2Source : Type 0 where
  pub name : String
  pub multicall : Multicall3
  pub router_address : String
  pub factory_address : String
  pub intermediate_tokens : List String
  pub slippage_bps : ℕ
  pub fee_bps : ℕ
  pub in_time : SwapRequest → ℕ → Bool

-- A path is its first token with the others.
abbrev pub TokenPath : Type 0
TokenPath = String × List String

two_hops : SwapRequest → List String → List TokenPath
unfolding lower
two_hops req [] = []
two_hops req (mid ∷ mids) =
    let rest = two_hops req mids in
    if lower mid =ₛ lower req.sell_token || lower mid =ₛ lower req.buy_token
    then rest
    else (req.sell_token, mid ∷ req.buy_token ∷ []) ∷ rest

-- The direct path, and one through each intermediate token.
unfoldable pub candidate_paths : List String → SwapRequest → List TokenPath
unfolding two_hops
candidate_paths intermediates req =
    (req.sell_token, req.buy_token ∷ []) ∷ two_hops req intermediates

-- `unique_pairs.setdefault(key, None)`
add_pair : Pair → List Pair → List Pair
add_pair pair [] = pair ∷ []
add_pair pair (p ∷ ps) =
    let rest = add_pair pair ps in if same_pair p pair then p ∷ ps else p ∷ rest

pairs_of : List Pair → String → List String → List Pair
unfolding lower add_pair
pairs_of acc a [] = acc
pairs_of acc a (b ∷ path) = pairs_of (add_pair (lower a, lower b) acc) b path

unfoldable pub unique_pairs : List Pair → List TokenPath → List Pair
unfolding pairs_of
unique_pairs acc [] = acc
unique_pairs acc ((a, path) ∷ paths) = unique_pairs (pairs_of acc a path) paths

-- The pairs with a pool.
collect_pools : List Pair → List CallResult → Result (List (Pair × String))
unfolding pair_address
collect_pools [] [] = ok []
collect_pools (p ∷ ps) (r ∷ rs) = collect_pools ps rs >>= λ rest. elim (pair_address r) [
  | none ↦ ok rest
  | some addr ↦ ok ((p, addr) ∷ rest)
]
collect_pools [] (r ∷ rs) = err (value_error "zip() argument 2 is longer than argument 1")
collect_pools (p ∷ ps) [] = err (value_error "zip() argument 2 is shorter than argument 1")

unfoldable pub lookup_pools : V2Source → List Pair → Result (List (Pair × String))
unfolding aggregate encode_get_pair collect_pools
lookup_pools src [] = ok []
lookup_pools src (p ∷ ps) = do
  results ←
      aggregate src.multicall "latest"
        (map (λ p. call_of src.factory_address (encode_get_pair p.0 p.1)) (p ∷ ps))
  collect_pools (p ∷ ps) results

unfoldable pub labels_of : Dict String → List (Pair × String) → Dict String
labels_of acc [] = acc
labels_of acc ((p, addr) ∷ pools) = labels_of (put acc (label p) addr) pools

unfoldable pub compute_path : Reserves → ℕ → SwapRequest → TokenPath → Option ℕ
unfolding sell_walk buy_walk
compute_path reserves fee_bps req (a, path) = elim req.kind [
  | sell ↦ sell_walk reserves fee_bps req.sell_amount a path
  | buy ↦ buy_walk reserves fee_bps req.buy_amount a path
]

abbrev pub Scored : Type 0
Scored = TokenPath × ℕ

-- `_is_better`
unfoldable pub is_better : Kind → ℕ → ℕ → Bool
is_better sell amount best = ltb best amount
is_better buy amount best = ltb amount best

unfoldable pub improve : Kind → TokenPath → Option ℕ → Option Scored → Option Scored
unfolding is_better
improve kind path none best = best
improve kind path (some amount) none = some (path, amount)
improve kind path (some amount) (some (p, best)) =
    if is_better kind amount best then some (path, amount) else some (p, best)

-- The loop over the candidate paths.
unfoldable pub best_scored :
    Kind → (TokenPath → Option ℕ) → Option Scored → List TokenPath → Option Scored
unfolding improve
best_scored kind score best [] = best
best_scored kind score best (p ∷ ps) = best_scored kind score (improve kind p (score p) best) ps

unfoldable pub swap_deadline : ℕ → ℕ
swap_deadline now = now + 60

gas_of : TokenPath → ℕ
gas_of (a, path) = if ltb 2 (length (a ∷ path)) then 180_000 else 120_000

unfoldable pub to_quote : V2Source → ℕ → SwapRequest → Scored → Quote
unfolding swap_deadline gas_of
to_quote src now req ((a, path), amount) = record {
  source = elim req.kind [ sell ↦ src.name | buy ↦ src.name ++ₛ ":buy" ];
  sell_amount = elim req.kind [ sell ↦ req.sell_amount | buy ↦ amount ];
  buy_amount = elim req.kind [ sell ↦ amount | buy ↦ req.buy_amount ];
  valid_until = swap_deadline now;
  route_metadata = v2_route (a ∷ path) (swap_deadline now);
  gas_estimate = gas_of (a, path);
}

unfoldable pub quoted : V2Source → ℕ → SwapRequest → Option Scored → Option Quote
unfolding to_quote
quoted src now req none = none
quoted src now req (some best) = some (to_quote src now req best)

-- No pool ends the quote before its reserves are read.
unfoldable pub priced_paths : V2Source → SwapRequest → List (Pair × String) → Result (Option Scored)
unfolding fetch_reserves labels_of hop_reserves candidate_paths best_scored compute_path
priced_paths src req [] = ok none
priced_paths src req (p ∷ pools) = do
  reserves ← fetch_reserves src.multicall (labels_of [] (p ∷ pools))
  ok (
      best_scored req.kind (compute_path (hop_reserves (p ∷ pools) reserves) src.fee_bps req) none
        (candidate_paths src.intermediate_tokens req))

-- `_quote_impl`
unfoldable pub quote_impl : V2Source → ℕ → SwapRequest → Result (Option Quote)
unfolding candidate_paths unique_pairs lookup_pools priced_paths quoted
quote_impl src now req = do
  pools ← lookup_pools src (unique_pairs [] (candidate_paths src.intermediate_tokens req))
  best ← priced_paths src req pools
  ok (quoted src now req best)

or_none : Result (Option Quote) → Option Quote
or_none (ok q) = q
or_none (err e) = none

-- A timeout and an exception are no quote.
unfoldable pub quote : V2Source → ℕ → SwapRequest → ℕ → Option Quote
unfolding quote_impl or_none
quote src now req timeout_ms =
    if src.in_time req timeout_ms then or_none (quote_impl src now req) else none

-- `text.endswith(suffix)`
unfoldable pub ends_with : String → String → Bool
ends_with suffix String.[] = String.[] =ₛ suffix
ends_with suffix (String.◌∷◌ c s) =
    let rest = ends_with suffix s in if String.◌∷◌ c s =ₛ suffix then true else rest

swap_calldata : V2Source → Quote → String → String → List String → ℕ → Result (List ℕ)
unfolding ends_with encode_swap_tokens_for_exact_tokens encode_swap_exact_tokens_for_tokens
swap_calldata src q recipient a path deadline =
    if ends_with ":buy" q.source
    then encode_swap_tokens_for_exact_tokens src.multicall.abi a (last_token a path) (a ∷ path)
        recipient deadline q.buy_amount (apply_slippage_up q.sell_amount src.slippage_bps)
    else encode_swap_exact_tokens_for_tokens src.multicall.abi a (last_token a path) (a ∷ path)
        recipient deadline q.sell_amount (apply_slippage_down q.buy_amount src.slippage_bps)

encode_route : V2Source → Quote → String → RouteMetadata → Result Interaction
unfolding swap_calldata make_interaction
encode_route src q recipient (v2_route (a ∷ path) deadline) = do
  calldata ← swap_calldata src q recipient a path deadline
  make_interaction (record {
    target = src.router_address;
    value = 0;
    call_data = calldata;
    inputs = (a, q.sell_amount) ∷ [];
    outputs = (last_token a path, q.buy_amount) ∷ [];
  })
encode_route src q recipient (v2_route [] deadline) = err (other_error "list index out of range")
encode_route src q recipient _ = err (value_error "route_metadata['v2_route'] missing")

unfoldable pub encode_interaction : V2Source → Quote → String → Result Interaction
unfolding encode_route
encode_interaction src q recipient = encode_route src q recipient q.route_metadata

-- The source behind the protocol of src/liquidity/base.py.
unfoldable pub source_of : V2Source → ℕ → LiquiditySource
unfolding quote encode_interaction
source_of src now = record {
  name = src.name;
  quote = λ req timeout_ms. ok (quote src now req timeout_ms);
  encode_interaction = encode_interaction src;
}
