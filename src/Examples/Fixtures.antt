-- ===== src/Examples/Fixtures.antt =====
-- A small auction, and a node whose pools pay 1000 for whatever is sold.
use cow_solver_skeleton.Prelude.{
  ℕ, zero, suc, String, Bool, true, false, none, some, List, [], ◌∷◌, drop, Result, ok,
}
use cow_solver_skeleton.Model.{Kind, sell, market, Order, Auction}
use cow_solver_skeleton.Encoder.Bytes.{Bytes}
use cow_solver_skeleton.Encoder.Abi.{Abi, AbiValue, AbiValues, nil, cons}
use cow_solver_skeleton.Routing.Multicall.{Multicall3}
use cow_solver_skeleton.Solver.Route.{Settlement}
use cow_solver_skeleton.Solver.Router.Batched.{Router}
use cow_solver_skeleton.Solver.JointClearing.{JointClearing}

abbrev pub token_a : String
token_a = "0xaaaaaaaaaaaaaaaaaaaaaaaaaaaaaaaaaaaaaaaa"

abbrev pub token_b : String
token_b = "0xbbbbbbbbbbbbbbbbbbbbbbbbbbbbbbbbbbbbbbbb"

abbrev pub token_c : String
token_c = "0xcccccccccccccccccccccccccccccccccccccccc"

abbrev pub order_of : String → Kind → String → String → ℕ → ℕ → Bool → Order
order_of uid kind sell_token buy_token sell_amount buy_amount partially = record {
  uid = uid;
  sell_token = sell_token;
  buy_token = buy_token;
  sell_amount = sell_amount;
  buy_amount = buy_amount;
  fee_policies = [];
  valid_to = 0;
  kind = kind;
  owner = "0x00";
  partially_fillable = partially;
  class = market;
  signing_scheme = none;
  sell_token_balance = "internal";
  pre_interactions = [];
}

abbrev pub sale : Order
sale = order_of "0x01" sell token_a token_b 2000 900 false

abbrev pub second_sale : Order
second_sale = order_of "0x02" sell token_a token_b 1000 100 false

abbrev pub auction : List Order → Auction
auction orders = record {
  id = some "7";
  tokens = [];
  orders = orders;
  effective_gas_price = 0;
  deadline = none;
  simulation_block = none;
}

-- An encoding that writes one byte for each row of an array.
unfoldable pub one_byte_each : AbiValues → Bytes
one_byte_each nil = []
one_byte_each (cons v vs) = 0 ∷ one_byte_each vs

unfoldable pub toy_encode : List String → List AbiValue → Result Bytes
unfolding one_byte_each
toy_encode types (AbiValue.array vs ∷ []) = ok (one_byte_each vs)
toy_encode types vs = ok []

unfoldable pub zeros : ℕ → Bytes
zeros zero = []
zeros (suc n) = 0 ∷ zeros n

unfoldable pub rows : Bytes → AbiValues
unfolding zeros
rows [] = nil
rows (b ∷ bs) =
    cons (AbiValue.tuple (cons (AbiValue.boolean true) (cons (AbiValue.bytes (zeros 128)) nil)))
      (rows bs)

unfoldable pub toy_decode : List String → Bytes → Result (List AbiValue)
unfolding rows
toy_decode (t ∷ []) bs = ok (AbiValue.array (rows (drop 4 bs)) ∷ [])
toy_decode types bs =
    ok (AbiValue.uint 1000 ∷ AbiValue.uint 0 ∷ AbiValue.uint 0 ∷ AbiValue.uint 0 ∷ [])

abbrev pub toy_abi : Abi
toy_abi = record { encode = toy_encode; decode = toy_decode; keccak = λ text. 1 ∷ 2 ∷ 3 ∷ 4 ∷ [] }

-- The node echoes the call, so that the answer has a row for each call.
abbrev pub multicall : Multicall3
multicall = record { eth_call = λ address text block. ok text; address = token_c; abi = toy_abi }

abbrev pub settlement : Settlement
settlement = record {
  abi = toy_abi;
  slippage_bps = 50;
  gpv2_settlement = token_c;
  v3_router_address = token_c;
  v4_universal_router = token_c;
  v4_permit2 = token_c;
}

abbrev pub router : Router
router = record {
  multicall = multicall;
  settlement = settlement;
  intermediates = [];
  max_orders = 50;
  v3_only_batched = true;
  v2_fallback_enabled = false;
  v2_sources = [];
  is_ghost = none;
  order_validity_filter = true;
  v4_enabled = false;
  v4_native_probe = false;
  v4_quoter_address = token_c;
  curve_enabled = false;
  search = λ o. none;
}

abbrev pub joint : JointClearing
joint = record {
  multicall = multicall;
  settlement = settlement;
  intermediates = [];
  max_orders = 50;
  min_group_size = 2;
  is_ghost = none;
}
