-- ===== src/Encoder/V4.antt =====
-- src/encoder/v4_calldata.py: a Uniswap V4 exact-input swap through the Universal Router.
use cow_solver_skeleton.Prelude.{
  ℕ, ◌-◌, ◌^◌, String, not, ◌&&◌, List, [], ◌∷◌, ◌++◌, ltb, leb, ◌==◌, length, if◌then◌else◌,
  Result, ok, ◌>>=◌, ◌>>◌, require,
}
use cow_solver_skeleton.Encoder.Bytes.{Bytes, int_of_hex}
use cow_solver_skeleton.Encoder.Abi.{Abi, AbiValue, values, selector}
use cow_solver_skeleton.Encoder.Interaction.{Interaction, make_interaction, encode_approve}

abbrev uint128_max : ℕ
uint128_max = 2 ^ 128 - 1

abbrev uint48_max : ℕ
uint48_max = 2 ^ 48 - 1

abbrev uint24_max : ℕ
uint24_max = 2 ^ 24 - 1

abbrev int24_max : ℕ
int24_max = 2 ^ 23 - 1

abbrev hooks_none : String
hooks_none = "0x0000000000000000000000000000000000000000"

unfoldable pub sort_currencies : String → String → Result (String × String)
sort_currencies token_a token_b = do
  a ← int_of_hex token_a
  b ← int_of_hex token_b
  ok (if ltb a b then (token_a, token_b) else (token_b, token_a))

module _ (abi : Abi) where
  unfoldable pub encode_permit2_approve : String → String → ℕ → ℕ → Result Bytes
  encode_permit2_approve token spender amount expiration = do
    require (leb amount uint128_max) "amount must fit uint128"
    require (leb expiration uint48_max) "expiration must fit uint48"
    params ← abi.encode ("address" ∷ "address" ∷ "uint160" ∷ "uint48" ∷ []) (
        AbiValue.address token
        ∷ AbiValue.address spender
        ∷ AbiValue.uint amount
        ∷ AbiValue.uint expiration
        ∷ [])
    ok (selector abi "approve(address,address,uint160,uint48)" ++ params)

  -- The actions are SWAP_EXACT_IN_SINGLE, SETTLE_ALL and TAKE_ALL.
  unfoldable pub encode_v4_swap_input : String → String → ℕ → ℕ → ℕ → ℕ → Result Bytes
  unfolding sort_currencies
  encode_v4_swap_input sell_token buy_token fee tick_spacing amount_in amount_out_minimum = do
    require (ltb 0 amount_in && leb amount_in uint128_max)
        "amount_in must fit uint128 and be positive"
    require (leb amount_out_minimum uint128_max) "amount_out_minimum must fit uint128"
    require (leb fee uint24_max) "fee must fit uint24"
    require (leb tick_spacing int24_max) "tick_spacing must fit int24"
    sell ← int_of_hex sell_token
    buy ← int_of_hex buy_token
    require (not (sell == buy)) "sell_token and buy_token must differ"
    sorted ← sort_currencies sell_token buy_token
    first ← int_of_hex sorted.0
    let key = AbiValue.tuple (
        values (
          AbiValue.address sorted.0
          ∷ AbiValue.address sorted.1
          ∷ AbiValue.uint fee
          ∷ AbiValue.uint tick_spacing
          ∷ AbiValue.address hooks_none
          ∷ []))
    swap_params ←
        abi.encode ("((address,address,uint24,int24,address),bool,uint128,uint128,bytes)" ∷ []) (
          AbiValue.tuple (
            values (
              key
              ∷ AbiValue.boolean (sell == first)
              ∷ AbiValue.uint amount_in
              ∷ AbiValue.uint amount_out_minimum
              ∷ AbiValue.bytes []
              ∷ []))
          ∷ [])
    settle_params ←
        abi.encode ("address" ∷ "uint256" ∷ [])
          (AbiValue.address sell_token ∷ AbiValue.uint amount_in ∷ [])
    take_params ←
        abi.encode ("address" ∷ "uint256" ∷ [])
          (AbiValue.address buy_token ∷ AbiValue.uint amount_out_minimum ∷ [])
    abi.encode ("bytes" ∷ "bytes[]" ∷ []) (
        AbiValue.bytes (0x06 ∷ 0x0C ∷ 0x0F ∷ [])
        ∷ AbiValue.array (
            values (
              AbiValue.bytes swap_params
              ∷ AbiValue.bytes settle_params
              ∷ AbiValue.bytes take_params
              ∷ []))
        ∷ [])

  abbrev byte_values : List Bytes → List AbiValue
  byte_values [] = []
  byte_values (b ∷ bs) = AbiValue.bytes b ∷ byte_values bs

  unfoldable pub encode_execute : Bytes → List Bytes → ℕ → Result Bytes
  encode_execute commands inputs deadline = do
    require (length commands == length inputs) "commands/inputs length mismatch"
    params ← abi.encode ("bytes" ∷ "bytes[]" ∷ "uint256" ∷ []) (
        AbiValue.bytes commands
        ∷ AbiValue.array (values (byte_values inputs))
        ∷ AbiValue.uint deadline
        ∷ [])
    ok (selector abi "execute(bytes,bytes[],uint256)" ++ params)

-- The keyword arguments of `encode_v4_swap_interactions`.
pub record V4Swap : Type 0 where
  pub sell_token : String
  pub buy_token : String
  pub fee : ℕ
  pub tick_spacing : ℕ
  pub amount_in : ℕ
  pub amount_out_minimum : ℕ
  pub executed_buy : ℕ
  pub deadline : ℕ
  pub universal_router : String
  pub permit2 : String

unfoldable pub encode_v4_swap_interactions : Abi → V4Swap → Result (List Interaction)
encode_v4_swap_interactions abi s = do
  require (leb s.deadline uint48_max) "deadline must fit uint48"
  approve_data ← encode_approve abi s.permit2 s.amount_in
  erc20_approve ← make_interaction (record {
    target = s.sell_token;
    value = 0;
    call_data = approve_data;
    inputs = [];
    outputs = [];
  })
  permit_data ← encode_permit2_approve abi s.sell_token s.universal_router s.amount_in s.deadline
  permit2_approve ←
      make_interaction (record {
        target = s.permit2;
        value = 0;
        call_data = permit_data;
        inputs = [];
        outputs = [];
      })
  input ←
      encode_v4_swap_input abi s.sell_token s.buy_token s.fee s.tick_spacing s.amount_in
        s.amount_out_minimum
  execute_data ← encode_execute abi (0x10 ∷ []) (input ∷ []) s.deadline
  ur_execute ← make_interaction (record {
    target = s.universal_router;
    value = 0;
    call_data = execute_data;
    inputs = (s.sell_token, s.amount_in) ∷ [];
    outputs = (s.buy_token, s.executed_buy) ∷ [];
  })
  ok (erc20_approve ∷ permit2_approve ∷ ur_execute ∷ [])
