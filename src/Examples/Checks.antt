-- ===== src/Examples/Checks.antt =====
-- The components on small inputs.
use cow_solver_skeleton.Prelude.{
  ℕ, zero, suc, ap, subst, ◌∙◌, Result, String, ◌+◌, ◌-◌, ◌*◌, ◌/◌, ◌^◌, ◌≤◌, ◌<◌, ◌≡◌, refl, inl,
  inr, true, false, none, some, List, [], ◌∷◌, ◌++◌, ok, arith, map, sym, err, other_error,
  ok-injective, err-ne-ok, >>=-eq-ok, lower, map_m,
}
use cow_solver_skeleton.Dict.{Dict, get, put}
use cow_solver_skeleton.Model.{sell, Order, fulfillment, Token, Auction}
use cow_solver_skeleton.Encoder.Bytes.{Bytes, to_hex, from_hex, to_bytes_3, starts_0x, drop_text}
use cow_solver_skeleton.Encoder.Abi.{AbiValue, nil, cons, values}
use cow_solver_skeleton.Encoder.V3.Path.{pack_v3_path}
use cow_solver_skeleton.Routing.Multicall.{
  Call, CallResult, dropped, Multicall3, aggregate, aggregate_resilient, settle_batch,
  is_gas_overflow, call_value,
}
use cow_solver_skeleton.Routing.Multicall.Bisection.{Aligned, aggregate_resilient-Aligned}
use cow_solver_skeleton.Routing.Multicall.Unfolding.{aggregate_resilient_unfold}
use cow_solver_skeleton.Encoder.Slippage.{apply_slippage_down, apply_slippage_up}
use cow_solver_skeleton.Encoder.Slippage.Bounds.{slippage-brackets}
use cow_solver_skeleton.Routing.AmmV2.{quote_v2_swap}
use cow_solver_skeleton.Routing.AmmV2.Invariant.{quote_v2_swap-product}
use cow_solver_skeleton.Solver.Prices.{register_prices}
use cow_solver_skeleton.Solver.Ranking.{rank, expected_surplus_sort_key}
use cow_solver_skeleton.Solver.Ranking.Sorted.{Priced, rank-surplus}
use cow_solver_skeleton.Solver.JointClearing.Limits.{payouts, payouts-bounds}
use cow_solver_skeleton.Solver.OrderValidity.{
  Reading, decode_uint, index_by_uid, read_orders, filter_valid_orders, gpv2_vault_relayer,
}
use cow_solver_skeleton.Solver.OrderValidity.Evidence.{Judged, filter_valid_orders-Judged}
use cow_solver_skeleton.Routing.V3Batched.{encode_path_bytes}
use cow_solver_skeleton.Routing.V3Batched.Paths.{encode_path_bytes-pack}
use cow_solver_skeleton.Solver.Quotes.{RouteQuote, v3, passes_filter, select_best_quote_per_order}
use cow_solver_skeleton.Solver.Quotes.Selection.{
  Eligible, NoWorse, select_best_quote_per_order-best,
}
use cow_solver_skeleton.Shadow.Scoring.{
  SignedOrder, ScoredSolution, lower_prices, voids, scored_order, price_at, compute_solution_score,
  breaks_limit, score_sell_trade, score_buy_trade,
}
use cow_solver_skeleton.Shadow.Scoring.Execution.{score_sell_trade_of_fill, score_buy_trade_of_fill}
use cow_solver_skeleton.Shadow.Scoring.Validity.{compute_solution_score-void}
use cow_solver_skeleton.Examples.Fixtures.{
  auction, sale, second_sale, multicall, toy_abi, toy_encode, toy_decode, token_a, token_b, token_c,
}

slippage-brackets_example :
    (apply_slippage_down 1001 50 ≤ 1001)
    × (1001 ≤ apply_slippage_up 1001 50)
    × (apply_slippage_down 1001 50 * 10_000 ≤ 1001 * (10_000 - 50))
    × (1001 * (10_000 - 50) < (apply_slippage_down 1001 50 + 1) * 10_000)
    × (1001 * (10_000 + 50) ≤ apply_slippage_up 1001 50 * 10_000)
    × (apply_slippage_up 1001 50 * 10_000 < 1001 * (10_000 + 50) + 10_000)
slippage-brackets_example = slippage-brackets 1001 50 (omega arith)

quote_v2_swap-product_example : 1000 * 2000 ≤ (1000 + 500) * (2000 - quote_v2_swap 500 1000 2000 30)
quote_v2_swap-product_example = quote_v2_swap-product 500 1000 2000 30 (omega arith) (omega arith)

score_sell_trade_of_fill_example :
    score_sell_trade 2000 2000 900 1000 2000 7 ≡ ok ((1000 - 900) * 7 / 10 ^ 18)
score_sell_trade_of_fill_example =
    score_sell_trade_of_fill 2000 900 1000 7 (omega arith) (omega arith)

score_buy_trade_of_fill_example :
    score_buy_trade 900 2000 900 900 1500 7 ≡ ok ((2000 - 1500) * 900 / 2000 * 7 / 10 ^ 18)
score_buy_trade_of_fill_example =
    score_buy_trade_of_fill 2000 900 1500 7 (omega arith) (omega arith) (omega arith)

abbrev priced : Dict ℕ
priced = (token_c, 5) ∷ []

abbrev sale_prices : Dict ℕ
sale_prices = (token_c, 5) ∷ (token_a, 1000) ∷ (token_b, 2000) ∷ []

sale_registers : register_prices priced sale 1000 2000 ≡ some sale_prices
unfolding register_prices get put
sale_registers = refl

payouts-bounds_example :
    (1000 ≤ payouts 3000 1000 (sale ∷ second_sale ∷ []))
    × (payouts 3000 1000 (sale ∷ second_sale ∷ []) < 1000 + 2)
payouts-bounds_example = payouts-bounds (sale ∷ second_sale ∷ []) 1000 (omega arith)

abbrev unsigned : Order
unsigned = record sale { uid = "0x03"; signing_scheme = some "presign" }

abbrev read : Dict Reading
read =
    ("0x03", record { filled = some 0; presig = some 0; balance = none; allowance = none })
    ∷ ("0x01", record { filled = some 0; presig = none; balance = none; allowance = none })
    ∷ []

reads : read_orders multicall token_c gpv2_vault_relayer "latest" (unsigned ∷ sale ∷ []) ≡ ok read
unfolding read_orders aggregate_resilient toy_encode to_hex toy_decode map_m decode_uint from_hex
    get put lower starts_0x drop_text
reads = refl

filter_valid_orders-Judged_example :
    Judged read unsigned
      (filter_valid_orders multicall token_c gpv2_vault_relayer "latest" (unsigned ∷ sale ∷ []))
unfolding index_by_uid get put
filter_valid_orders-Judged_example =
    filter_valid_orders-Judged multicall token_c gpv2_vault_relayer "latest" (unsigned ∷ sale ∷ [])
      read unsigned reads (inl refl) refl

abbrev quote_of : ℕ → ℕ → RouteQuote
quote_of fee amount = record {
  path = v3 (record {
    order_uid = "0x01";
    token_in = token_a;
    token_out = token_b;
    amount_in = 2000;
    fee_tier_in = fee;
    intermediate = none;
    fee_tier_out = none;
    exact_output = false;
  });
  amount_out = amount;
}

abbrev quotes : List RouteQuote
quotes = quote_of 100 0 ∷ quote_of 500 950 ∷ quote_of 3000 980 ∷ []

Eligible-950 : Eligible none "0x01" (quote_of 500 950)
unfolding passes_filter
Eligible-950 = (refl, omega arith, refl)

select_best_quote_per_order-best_example :
    (c : RouteQuote) × (get (select_best_quote_per_order quotes none) "0x01" ≡ some c)
    × NoWorse c (quote_of 500 950)
select_best_quote_per_order-best_example =
    select_best_quote_per_order-best none "0x01" quotes (quote_of 500 950)
      (refl, (refl, (refl, tt))) (inr (inl refl)) Eligible-950

abbrev repeat : ℕ → ℕ → Bytes
repeat zero b = []
repeat (suc n) b = b ∷ repeat n b

abbrev signed_sale : Dict SignedOrder
signed_sale =
    (
      "0x01",
      record {
        sell_token = token_a;
        buy_token = token_b;
        sell_amount = 2000;
        buy_amount = 900;
        kind = sell;
      },
    )
    ∷ []

-- The sale at a price below its limit.
abbrev underpaid : ScoredSolution
underpaid = record {
  prices = (token_a, some 800) ∷ (token_b, some 2000) ∷ [];
  trades = record { kind = fulfillment; order_uid = "0x01"; executed_amount = 2000 } ∷ [];
}

compute_solution_score-void_example :
    compute_solution_score underpaid signed_sale ((token_b, some (10 ^ 18)) ∷ []) ≡ 0
unfolding lower_prices lower put get voids scored_order price_at breaks_limit
compute_solution_score-void_example =
    compute_solution_score-void underpaid signed_sale ((token_b, some (10 ^ 18)) ∷ [])
      (record { kind = fulfillment; order_uid = "0x01"; executed_amount = 2000 }) (inl refl)
      (record {
        order = record {
          sell_token = token_a;
          buy_token = token_b;
          sell_amount = 2000;
          buy_amount = 900;
          kind = sell;
        };
        cp_sell = 800;
        cp_buy = 2000;
        kind = refl;
        executes = omega arith;
        known = refl;
        signs = (omega arith, omega arith);
        priced_sell = refl;
        priced_buy = refl;
        positive = (omega arith, omega arith);
        short = inl (refl, omega arith);
      })

abbrev packed : Bytes
packed =
    repeat 20 170 ++ (0 ∷ 1 ∷ 244 ∷ []) ++ repeat 20 204 ++ (0 ∷ 11 ∷ 184 ∷ []) ++ repeat 20 187

encode_path_bytes-pack_example :
    encode_path_bytes token_a 500 (some token_c) (some 3000) token_b ≡ ok packed
unfolding pack_v3_path from_hex to_bytes_3 starts_0x drop_text
encode_path_bytes-pack_example = encode_path_bytes-pack token_a token_c token_b 500 3000 packed refl

-- A node that answers one call in a batch, if the call may fail, and is out of gas otherwise.
one_tuple : AbiValue → Result Bytes
one_tuple (AbiValue.tuple (cons target (cons (AbiValue.boolean true) rest))) = ok []
one_tuple v = err (other_error "out of gas")

one_call : List String → List AbiValue → Result Bytes
unfolding one_tuple
one_call types (AbiValue.array (cons v nil) ∷ []) = one_tuple v
one_call types vs = err (other_error "out of gas")

abbrev seven : CallResult
seven = record { success = true; return_data = 7 ∷ [] }

abbrev small_node : Multicall3
small_node = record {
  eth_call = λ address text block. ok "0x";
  address = token_c;
  abi = record toy_abi {
    encode = one_call;
    decode = λ types raw. ok (
        AbiValue.array (
          cons (AbiValue.tuple (cons (AbiValue.boolean true) (cons (AbiValue.bytes (7 ∷ [])) nil)))
            nil)
        ∷ []);
  };
}

-- The batches that it answers hold one call.
answers_seven :
    (cs : List Call) (rs : List CallResult)
    → aggregate small_node "latest" cs ≡ ok rs
    → rs ≡ map (λ c. seven) cs
unfolding aggregate one_call map_m call_value from_hex starts_0x drop_text
answers_seven [] rs h = sym (ok-injective h)
answers_seven (c ∷ []) rs h =
    let (tuples, encoded, sent) = >>=-eq-ok (map_m call_value (c ∷ [])) _ h in
    let (value, valued, rest) = >>=-eq-ok (call_value c) _ encoded in
    let (args, taken, answered) =
      >>=-eq-ok (one_call ("(address,bool,bytes)[]" ∷ []) (AbiValue.array (values tuples) ∷ [])) _
        sent in
    sym (ok-injective answered)
answers_seven (c ∷ d ∷ cs) rs h =
    let (tuples, encoded, sent) = >>=-eq-ok (map_m call_value (c ∷ d ∷ cs)) _ h in
    let (v, valued, more) = >>=-eq-ok (call_value c) _ encoded in
    let (others, listed, whole) = >>=-eq-ok (map_m call_value (d ∷ cs)) _ more in
    let (w, valued_too, last) = >>=-eq-ok (call_value d) _ listed in
    let (ws, listed_too, pair) = >>=-eq-ok (map_m call_value cs) _ last in
    let (args, taken, answered) =
      >>=-eq-ok (one_call ("(address,bool,bytes)[]" ∷ []) (AbiValue.array (values tuples) ∷ [])) _
        sent in
    absurd (
      err-ne-ok (
        subst
          (λ ts.
            one_call ("(address,bool,bytes)[]" ∷ []) (AbiValue.array (values ts) ∷ []) ≡ ok args)
          (sym (ap (λ x. v ∷ x) (ok-injective pair) ∙ ok-injective whole)) taken))

abbrev probe : Call
probe = record { target = token_a; call_data = "0x01"; allow_failure = true }

-- A call that is too heavy even alone.
abbrev heavy : Call
heavy = record { target = token_b; call_data = "0x01"; allow_failure = false }

aggregate_resilient-Aligned_example :
    Aligned
      (aggregate small_node "latest")
      (λ c. seven)
      (probe ∷ heavy ∷ probe ∷ [])
      (seven ∷ dropped ∷ seven ∷ [])
unfolding aggregate_resilient from_hex starts_0x drop_text lower map_m is_gas_overflow one_call
    one_tuple
aggregate_resilient-Aligned_example =
    aggregate_resilient-Aligned small_node "latest" (λ c. seven) answers_seven
      (probe ∷ heavy ∷ probe ∷ []) (seven ∷ dropped ∷ seven ∷ []) refl

aggregate_resilient_unfold_example :
    aggregate_resilient small_node "latest" (probe ∷ probe ∷ [])
    ≡ settle_batch
        (aggregate_resilient small_node "latest")
        (probe ∷ probe ∷ [])
        (aggregate small_node "latest" (probe ∷ probe ∷ []))
aggregate_resilient_unfold_example =
    aggregate_resilient_unfold small_node "latest" probe (probe ∷ [])

abbrev token_of : ℕ → Token
token_of price = record {
  decimals = none;
  symbol = none;
  reference_price = some price;
  available_balance = 0;
  trusted = true;
}

abbrev priced_auction : Auction
priced_auction = record (auction []) {
  tokens = (token_a, token_of (10 ^ 18)) ∷ (token_b, token_of (10 ^ 18)) ∷ [];
}

ranks : rank priced_auction (second_sale ∷ sale ∷ []) ≡ sale ∷ second_sale ∷ []
unfolding rank expected_surplus_sort_key get
ranks = refl

sale-Priced : Priced priced_auction sale (10 ^ 18) (10 ^ 18)
unfolding get
sale-Priced = record {
  sell_info = token_of (10 ^ 18);
  buy_info = token_of (10 ^ 18);
  sell_known = refl;
  buy_known = refl;
  sell_priced = refl;
  buy_priced = refl;
}

second-Priced : Priced priced_auction second_sale (10 ^ 18) (10 ^ 18)
unfolding get
second-Priced = record {
  sell_info = token_of (10 ^ 18);
  buy_info = token_of (10 ^ 18);
  sell_known = refl;
  buy_known = refl;
  sell_priced = refl;
  buy_priced = refl;
}

rank-surplus_example :
    (1000 * 10 ^ 18 - 100 * 10 ^ 18) / 10 ^ 18 ≤ (2000 * 10 ^ 18 - 900 * 10 ^ 18) / 10 ^ 18
rank-surplus_example =
    rank-surplus priced_auction (second_sale ∷ sale ∷ []) [] (second_sale ∷ []) sale second_sale
      (10 ^ 18) (10 ^ 18) (10 ^ 18) (10 ^ 18) ranks (inl refl) sale-Priced second-Priced
