-- ===== src/Examples/Markets.antt =====
-- The quotes of the sources and the strategies on a small market.
use cow_solver_skeleton.Prelude.{
  ℕ, zero, suc, ◌≤◌, String, true, ◌≡◌, ◌⊎◌, refl, none, some, List, [], ◌∷◌, drop, arith, Result,
  Error, ok, map_m,
}
use cow_solver_skeleton.Dict.{get, put, set_default}
use cow_solver_skeleton.Model.{sell, Token, Auction, Solution, solution, fulfillment}
use cow_solver_skeleton.Encoder.Bytes.{Bytes, starts_0x, from_hex, int_of_text}
use cow_solver_skeleton.Encoder.Abi.{AbiValue, AbiValues, nil, cons}
use cow_solver_skeleton.Routing.Multicall.{Multicall3, aggregate, aggregate_resilient}
use cow_solver_skeleton.Routing.Multihop.{
  HopPath, quote_best_single_hop, path_candidates, quote_best_path,
}
use cow_solver_skeleton.Routing.Multihop.Paths.{Connects}
use cow_solver_skeleton.Routing.Multihop.Best.{Best, quote_best_path-Best}
use cow_solver_skeleton.Liquidity.Source.{SwapRequest, Quote, v2_route, no_route, LiquiditySource}
use cow_solver_skeleton.Liquidity.Aggregator.{best_quote}
use cow_solver_skeleton.Liquidity.Aggregator.Chosen.{Chosen, best_quote-Chosen}
use cow_solver_skeleton.Liquidity.V2.{V2Source, quote_impl}
use cow_solver_skeleton.Liquidity.V2.Walk.{Reserves, sell_walk, buy_walk}
use cow_solver_skeleton.Liquidity.V2.Inverse.{buy_walk-sell_walk}
use cow_solver_skeleton.Liquidity.V2.Chosen.{Quotes, quote_impl-Quotes}
use cow_solver_skeleton.Solver.Naive as Naive
use cow_solver_skeleton.Solver.Naive.Settled.{Sold, solve-Sold}
use cow_solver_skeleton.Solver.PriceRefiner.{
  PathQuote, orders_by_uid, real_prices, pair_sell_amounts, refine_solution_prices,
}
use cow_solver_skeleton.Solver.PriceRefiner.Kept.{Refines, refine_solution_prices-Refines}
use cow_solver_skeleton.Solver.PriceRefiner.Returns.{Returns, refine_solution_prices-Returns}
use cow_solver_skeleton.Solver.Router.Batched.Settles.{Publishes}
use cow_solver_skeleton.Examples.Fixtures.{token_a, token_b, token_c, sale, toy_encode}

token_at : ℕ → Token
token_at p = record {
  decimals = some 18;
  symbol = none;
  reference_price = some p;
  available_balance = 0;
  trusted = true;
}

-- Token a is worth half of token b.
abbrev priced : Auction
priced = record {
  id = some "7";
  tokens = (token_a, token_at 1000) ∷ (token_b, token_at 2000) ∷ [];
  orders = sale ∷ [];
  effective_gas_price = 0;
  deadline = none;
  simulation_block = none;
}

abbrev at_reference : Solution
at_reference = record {
  id = 7;
  prices = (token_a, 1000) ∷ (token_b, 2000) ∷ [];
  trades = record { kind = fulfillment; order_uid = "0x01"; executed_amount = 2000 } ∷ [];
  interactions = [];
}

fills : Naive.solve none priced ≡ ok (solution at_reference)
unfolding Naive.solve token_at get put int_of_text
fills = refl

solve-Sold_example : Publishes (Sold priced) (solution at_reference)
solve-Sold_example = solve-Sold priced (solution at_reference) fills

-- The pools pay one half less a fee.
pool_quote : PathQuote
pool_quote sell_token buy_token amount = ok (some 950)

refines : refine_solution_prices pool_quote at_reference priced ≡ ok at_reference
unfolding refine_solution_prices pool_quote token_at get put set_default
refines = refl

refine_solution_prices-Refines_example :
    (at_reference ≡ at_reference)
    ⊎ Refines priced
        (orders_by_uid [] priced.orders)
        (real_prices pool_quote
          (pair_sell_amounts (orders_by_uid [] priced.orders) [] at_reference.trades))
        at_reference
        at_reference
refine_solution_prices-Refines_example =
    refine_solution_prices-Refines pool_quote at_reference at_reference priced refines

refine_solution_prices-Returns_example :
    Returns (refine_solution_prices pool_quote at_reference priced)
refine_solution_prices-Returns_example =
    refine_solution_prices-Returns pool_quote at_reference priced (omega arith, tt)

-- Every pool holds a million of the one token and two million of the other.
pools : Reserves
pools a b = some (1_000_000, 2_000_000)

asks : buy_walk pools 30 900 token_a (token_c ∷ token_b ∷ []) ≡ some 227
unfolding buy_walk pools
asks = refl

buy_walk-sell_walk_example :
    (out : ℕ) × (sell_walk pools 30 227 token_a (token_c ∷ token_b ∷ []) ≡ some out) × (900 ≤ out)
buy_walk-sell_walk_example =
    buy_walk-sell_walk pools 30 (omega arith) (token_c ∷ token_b ∷ []) token_a 900 227 asks

abbrev request : SwapRequest
request = record {
  sell_token = token_a;
  buy_token = token_b;
  sell_amount = 2000;
  buy_amount = 0;
  kind = sell;
  chain_id = 42161;
}

quote_of : String → ℕ → Quote
quote_of name amount = record {
  source = name;
  sell_amount = 2000;
  buy_amount = amount;
  valid_until = 60;
  route_metadata = no_route;
  gas_estimate = 0;
}

source_of : String → ℕ → LiquiditySource
source_of name amount = record {
  name = name;
  quote = λ req timeout_ms. ok (some (quote_of name amount));
  encode_interaction = λ q recipient. Result.err (Error.other_error "");
}

chooses :
    best_quote (source_of "v2" 990 ∷ source_of "v3" 995 ∷ []) request 800
    ≡ some (quote_of "v3" 995, source_of "v3" 995)
unfolding best_quote source_of quote_of
chooses = refl

best_quote-Chosen_example :
    Chosen
      (source_of "v2" 990 ∷ source_of "v3" 995 ∷ [])
      request
      800
      (quote_of "v3" 995, source_of "v3" 995)
best_quote-Chosen_example =
    best_quote-Chosen (source_of "v2" 990 ∷ source_of "v3" 995 ∷ []) request 800
      (quote_of "v3" 995, source_of "v3" 995) chooses

-- A node that answers every call with ones.
ones : ℕ → Bytes
ones zero = []
ones (suc n) = 1 ∷ ones n

rows_of_ones : Bytes → AbiValues
unfolding ones
rows_of_ones [] = nil
rows_of_ones (b ∷ bs) =
    cons (AbiValue.tuple (cons (AbiValue.boolean true) (cons (AbiValue.bytes (ones 128)) nil)))
      (rows_of_ones bs)

ones_decode : List String → Bytes → Result (List AbiValue)
unfolding rows_of_ones
ones_decode (t ∷ []) bs = ok (AbiValue.array (rows_of_ones (drop 4 bs)) ∷ [])
ones_decode types bs =
    ok (AbiValue.uint 1998 ∷ AbiValue.uint 0 ∷ AbiValue.uint 0 ∷ AbiValue.uint 0 ∷ [])

abbrev node : Multicall3
node = record {
  eth_call = λ address text block. ok text;
  address = token_c;
  abi = record { encode = toy_encode; decode = ones_decode; keccak = λ text. 1 ∷ 2 ∷ 3 ∷ 4 ∷ [] };
}

abbrev v3_path : HopPath
v3_path = record {
  first = record {
    factory = "uniswap-v3";
    pool = "0x61fFE014bA17989E743c5F6cB21bF9697530B21e";
    token_in = token_a;
    token_out = token_b;
    amount_in = 2000;
    amount_out = 1998;
    fee_tier = some 100;
  };
  second = none;
}

finds : quote_best_path node token_a token_b 2000 (token_c ∷ []) ≡ ok (some v3_path)
unfolding quote_best_path ones_decode toy_encode get aggregate aggregate_resilient map_m from_hex
    starts_0x
finds = refl

quote_best_path-Best_example :
    Connects token_a token_b 2000 v3_path
    × (candidates : List HopPath) × (path_candidates
          (quote_best_single_hop node)
          token_a
          token_b
          2000
          (token_c ∷ [])
        ≡ ok candidates)
    × Best candidates v3_path
quote_best_path-Best_example =
    quote_best_path-Best node token_a token_b 2000 (token_c ∷ []) v3_path finds

abbrev source : V2Source
source = record {
  name = "camelot";
  multicall = node;
  router_address = token_c;
  factory_address = token_c;
  intermediate_tokens = token_c ∷ [];
  slippage_bps = 50;
  fee_bps = 30;
  in_time = λ req timeout_ms. true;
}

abbrev direct : Quote
direct = record {
  source = "camelot";
  sell_amount = 2000;
  buy_amount = 1993;
  valid_until = 60;
  route_metadata = v2_route (token_a ∷ token_b ∷ []) 60;
  gas_estimate = 120_000;
}

quotes : quote_impl source 0 request ≡ ok (some direct)
unfolding quote_impl ones_decode toy_encode get put aggregate map_m from_hex starts_0x
quotes = refl

quote_impl-Quotes_example : Quotes source 0 request direct
quote_impl-Quotes_example = quote_impl-Quotes source 0 request direct quotes
