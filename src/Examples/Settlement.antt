-- ===== src/Examples/Settlement.antt =====
-- The encoding of a settlement and its simulation on one order.
use cow_solver_skeleton.Prelude.{
  inl, ℕ, String, Bool, true, false, ◌≡◌, refl, none, some, List, [], ◌∷◌, map, lower, arith,
  Result, ok,
}
use cow_solver_skeleton.Dict.{get, put}
use cow_solver_skeleton.Encoder.Bytes.{Bytes}
use cow_solver_skeleton.Encoder.Abi.{Abi, AbiValue}
use cow_solver_skeleton.Encoder.Settle.{
  SettleTrade, Call, settle_args, scheme_index, encode_settle, decode_settle, encode_trade_flags,
  get_or_0,
}
use cow_solver_skeleton.Encoder.Settle.Decoding.{
  normalised, decoded_fields, decode_settle-encode_settle,
}
use cow_solver_skeleton.Encoder.Settle.Flags.{FieldsOf, encode_trade_flags-fields}
use cow_solver_skeleton.Shadow.Feasibility.Orders.{
  RawOrder, Orderbook, or_else, owner_bytes, sig_bytes,
}
use cow_solver_skeleton.Shadow.Feasibility.Rows.{RawTrade, known, settle_trades, index_of}
use cow_solver_skeleton.Shadow.Feasibility.{Deps, RawSolution, validate_solution, check, model_dump}
use cow_solver_skeleton.Shadow.Feasibility.Framing.{Framed, sig_bytes-Framed}
use cow_solver_skeleton.Shadow.Feasibility.Cached.{Keeps, settle_trades-again}
use cow_solver_skeleton.Shadow.Feasibility.Simulated.{Simulated, solve-Simulated}
use cow_solver_skeleton.Shadow.Feasibility.Tokens.{RowsFor, settle_trades-RowsFor}
use cow_solver_skeleton.Model.{Solution, solution, fulfillment}
use cow_solver_skeleton.Solver.Orchestrator as Orchestrator
use cow_solver_skeleton.Solver.Orchestrator.{
  Orchestrator, Attempts, answered, solved, verdict, run_strategies, composable, composed,
  first_accepted, rejected_by,
}
use cow_solver_skeleton.Solver.Orchestrator.Live.{solve-releases}
use cow_solver_skeleton.Examples.Fixtures.{token_a, token_b, token_c, auction, sale}

abbrev owner_20 : Bytes
owner_20 =
    0xab ∷ 0xab ∷ 0xab ∷ 0xab ∷ 0xab ∷ 0xab ∷ 0xab ∷ 0xab ∷ 0xab ∷ 0xab ∷ 0xab ∷ 0xab ∷ 0xab ∷ 0xab
    ∷ 0xab ∷ 0xab ∷ 0xab ∷ 0xab ∷ 0xab ∷ 0xab ∷ []

-- An order of a smart wallet, as the orderbook returns it.
abbrev wallet_order : RawOrder
wallet_order = record {
  sell_token = some token_a;
  buy_token = some token_b;
  kind = some "sell";
  partially_fillable = false;
  signing_scheme = some "eip1271";
  receiver = none;
  sell_amount = some "2000";
  buy_amount = some "900";
  valid_to = some "50";
  fee_amount = some "0";
  app_data = some "0x07";
  app_data_hash = none;
  signature = some "0x0102";
  owner = some "0xabababababababababababababababababababab";
}

abbrev framed : Bytes
framed =
    0xab ∷ 0xab ∷ 0xab ∷ 0xab ∷ 0xab ∷ 0xab ∷ 0xab ∷ 0xab ∷ 0xab ∷ 0xab ∷ 0xab ∷ 0xab ∷ 0xab ∷ 0xab
    ∷ 0xab ∷ 0xab ∷ 0xab ∷ 0xab ∷ 0xab ∷ 0xab ∷ 1 ∷ 2 ∷ []

frames : sig_bytes wallet_order ≡ ok framed
unfolding sig_bytes
frames = refl

sig_bytes-Framed_example :
    (owner : Bytes) × (owner_bytes wallet_order ≡ ok owner) × Framed "eip1271" owner framed
unfolding lower or_else
sig_bytes-Framed_example = sig_bytes-Framed wallet_order framed refl frames

abbrev wallet_row : SettleTrade
wallet_row = record {
  sell_token_index = 0;
  buy_token_index = 1;
  receiver = "0x0000000000000000000000000000000000000000";
  sell_amount = 2000;
  buy_amount = 900;
  valid_to = 50;
  app_data =
      0 ∷ 0 ∷ 0 ∷ 0 ∷ 0 ∷ 0 ∷ 0 ∷ 0 ∷ 0 ∷ 0 ∷ 0 ∷ 0 ∷ 0 ∷ 0 ∷ 0 ∷ 0 ∷ 0 ∷ 0 ∷ 0 ∷ 0 ∷ 0 ∷ 0 ∷ 0 ∷ 0
      ∷ 0 ∷ 0 ∷ 0 ∷ 0 ∷ 0 ∷ 0 ∷ 0 ∷ 7 ∷ [];
  fee_amount = 0;
  flags = 64;
  executed_amount = 2000;
  signature = framed;
}

wallet_api : Orderbook
wallet_api uid = ok (some wallet_order)

abbrev wallet_trade : RawTrade
wallet_trade = record {
  kind = some "fulfillment";
  order = some "0x01";
  executed_amount = some "2000";
}

abbrev tokens : List String
tokens = token_a ∷ token_b ∷ []

settles :
    settle_trades wallet_api tokens [] (wallet_trade ∷ [])
    ≡ (("0x01", wallet_order) ∷ [], ok (known (wallet_row ∷ [])))
unfolding settle_trades wallet_api get put encode_trade_flags index_of
settles = refl

settle_trades-again_example :
    Keeps [] (("0x01", wallet_order) ∷ [])
    × (settle_trades (λ uid. ok none) tokens (("0x01", wallet_order) ∷ []) (wallet_trade ∷ [])
        ≡ (("0x01", wallet_order) ∷ [], ok (known (wallet_row ∷ []))))
settle_trades-again_example =
    settle_trades-again tokens wallet_api (λ uid. ok none) (wallet_trade ∷ []) []
      (("0x01", wallet_order) ∷ []) (wallet_row ∷ []) settles

settle_trades-RowsFor_example : RowsFor wallet_api [] tokens (wallet_trade ∷ []) (wallet_row ∷ [])
settle_trades-RowsFor_example =
    settle_trades-RowsFor wallet_api tokens (wallet_trade ∷ []) [] (("0x01", wallet_order) ∷ [])
      (wallet_row ∷ []) settles

encode_trade_flags-fields_example :
    (index : ℕ) × (get scheme_index (lower "EIP1271") ≡ some index) × FieldsOf 1 2 8 16 index 91
unfolding encode_trade_flags get_or_0 get lower
encode_trade_flags-fields_example =
    encode_trade_flags-fields "buy" true "EIP1271" "external" "internal" 91 refl

abbrev calls : List Call
calls = (token_c, 0, 1 ∷ 2 ∷ []) ∷ []

-- A codec for the one call of the example.
call_encode : List String → List AbiValue → Result Bytes
call_encode types vs = ok (9 ∷ 9 ∷ [])

call_decode : List String → Bytes → Result (List AbiValue)
call_decode types bs =
    ok (map (normalised lower) (settle_args tokens (1000 ∷ 2000 ∷ []) (wallet_row ∷ []) calls))

abbrev call_abi : Abi
call_abi = record {
  encode = call_encode;
  decode = call_decode;
  keccak = λ text. 1 ∷ 2 ∷ 3 ∷ 4 ∷ 5 ∷ [];
}

decode_settle-encode_settle_example :
    decode_settle call_abi (1 ∷ 2 ∷ 3 ∷ 4 ∷ 9 ∷ 9 ∷ [])
    ≡ ok (decoded_fields lower tokens (1000 ∷ 2000 ∷ []) (wallet_row ∷ []) calls)
unfolding call_encode call_decode encode_settle
decode_settle-encode_settle_example =
    decode_settle-encode_settle call_abi lower tokens (1000 ∷ 2000 ∷ []) (wallet_row ∷ []) calls
      (1 ∷ 2 ∷ 3 ∷ 4 ∷ 9 ∷ 9 ∷ []) (omega arith) (λ args e. refl) refl

-- A node at which the call reverts.
reverts : String → String → String → String → Result (Bool × String)
reverts to payload from_addr block = ok (false, "GPv2: limit price not respected")

abbrev deps : Deps
deps = record {
  abi = call_abi;
  api = wallet_api;
  rpc = reverts;
  settlement_addr = token_c;
  solver_addr = token_c;
}

abbrev raw_solution : RawSolution
raw_solution = record {
  trades = wallet_trade ∷ [];
  prices = (token_a, some "1000") ∷ (token_b, some "2000") ∷ [];
  interactions = [];
}

judges :
    (validate_solution deps "latest" [] raw_solution).1
    ≡ verdict (some false) (some "GPv2: limit price not respected")
unfolding validate_solution reverts call_encode encode_settle wallet_api get index_of
    encode_trade_flags
judges = refl

-- A node at which the call succeeds.
clears : String → String → String → String → Result (Bool × String)
clears to payload from_addr block = ok (true, "")

abbrev clear_deps : Deps
clear_deps = record deps { rpc = clears }

abbrev sold : Solution
sold = record {
  id = 7;
  prices = (token_a, 1000) ∷ (token_b, 2000) ∷ [];
  trades = record { kind = fulfillment; order_uid = "0x01"; executed_amount = 2000 } ∷ [];
  interactions = [];
}

abbrev gated : Orchestrator
gated = record {
  strategies =
      record { name = "router-v2"; run = λ a. answered (solution sold); latency_ms = λ a. 5 } ∷ [];
  run_all = true;
  compose = true;
  edge = none;
  ebbo = none;
  ebbo_tolerance_bps = 50;
  feasibility_gate = some (check clear_deps []);
}

abbrev attempts : Attempts
attempts =
    record {
      strategy = "router-v2";
      status = solved;
      latency_ms = some 5;
      solution = some sold;
      error = none;
    }
    ∷ []

passes_gate : Orchestrator.solve gated (auction (sale ∷ [])) [] ≡ ok (solution sold, attempts)
unfolding Orchestrator.solve run_strategies composable composed first_accepted rejected_by check
    model_dump validate_solution clears call_encode encode_settle wallet_api get index_of
    encode_trade_flags
passes_gate = refl

solve-Simulated_example : Simulated clear_deps "latest" [] (model_dump sold) true
solve-Simulated_example =
    solve-Simulated gated (auction (sale ∷ [])) [] sold attempts clear_deps [] passes_gate refl

clear_gate : rejected_by gated (auction (sale ∷ [])) sold ≡ none
unfolding rejected_by check model_dump validate_solution clears call_encode encode_settle wallet_api
    get index_of encode_trade_flags
clear_gate = refl

solve-releases_example :
    (sol : Solution) × (after : Attempts) × (Orchestrator.solve gated (auction (sale ∷ [])) []
      ≡ ok (solution sol, after))
unfolding composable run_strategies
solve-releases_example =
    solve-releases gated (auction (sale ∷ [])) [] "7" ("router-v2", sold) refl refl (inl refl)
      clear_gate
