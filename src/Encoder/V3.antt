-- ===== src/Encoder/V3.antt =====
-- src/encoder/v3.py, src/encoder/v3_calldata.py and src/encoder/v3_path.py: the Uniswap V3 swap
-- calls.
pub mod Path
use cow_solver_skeleton.Prelude.{
  ℕ, String, Bool, Option, none, some, List, [], ◌∷◌, ◌++◌, if◌then◌else◌, Result, ok, err,
  value_error, ◌>>=◌,
}
use cow_solver_skeleton.Encoder.Bytes.{Bytes}
use cow_solver_skeleton.Encoder.Abi.{Abi, AbiValue, values, selector}
use cow_solver_skeleton.Encoder.Interaction.{Interaction, make_interaction}
use cow_solver_skeleton.Encoder.Slippage.{apply_slippage_down, apply_slippage_up}
use Path.{pack_v3_path}

abbrev single_struct : String
single_struct = "(address,address,uint24,address,uint256,uint256,uint256,uint160)"

abbrev path_struct : String
path_struct = "(bytes,address,uint256,uint256,uint256)"

abbrev single_params : String → String → ℕ → String → ℕ → ℕ → ℕ → AbiValue
single_params token_in token_out fee recipient deadline amount limit = AbiValue.tuple (
    values (
      AbiValue.address token_in
      ∷ AbiValue.address token_out
      ∷ AbiValue.uint fee
      ∷ AbiValue.address recipient
      ∷ AbiValue.uint deadline
      ∷ AbiValue.uint amount
      ∷ AbiValue.uint limit
      ∷ AbiValue.uint 0
      ∷ []))

abbrev path_params : Bytes → String → ℕ → ℕ → ℕ → AbiValue
path_params path recipient deadline amount limit = AbiValue.tuple (
    values (
      AbiValue.bytes path
      ∷ AbiValue.address recipient
      ∷ AbiValue.uint deadline
      ∷ AbiValue.uint amount
      ∷ AbiValue.uint limit
      ∷ []))

module _ (abi : Abi) where
  unfoldable pub encode_exact_input_single : String → String → ℕ → String → ℕ → ℕ → ℕ → Result Bytes
  encode_exact_input_single token_in token_out fee recipient deadline amount_in amount_out_minimum =
      do
        params ← abi.encode (single_struct ∷ []) (
            single_params token_in token_out fee recipient deadline amount_in amount_out_minimum
            ∷ [])
        ok (
            selector abi
              "exactInputSingle((address,address,uint24,address,uint256,uint256,uint256,uint160))"
            ++ params)

  unfoldable pub encode_exact_output_single :
      String → String → ℕ → String → ℕ → ℕ → ℕ → Result Bytes
  encode_exact_output_single token_in token_out fee recipient deadline amount_out
        amount_in_maximum =
      do
        params ← abi.encode (single_struct ∷ []) (
            single_params token_in token_out fee recipient deadline amount_out amount_in_maximum
            ∷ [])
        ok (
            selector abi
              "exactOutputSingle((address,address,uint24,address,uint256,uint256,uint256,uint160))"
            ++ params)

  unfoldable pub encode_exact_input : Bytes → String → ℕ → ℕ → ℕ → Result Bytes
  encode_exact_input path recipient deadline amount_in amount_out_minimum = do
    params ←
        abi.encode (path_struct ∷ [])
          (path_params path recipient deadline amount_in amount_out_minimum ∷ [])
    ok (selector abi "exactInput((bytes,address,uint256,uint256,uint256))" ++ params)

  unfoldable pub encode_exact_output : Bytes → String → ℕ → ℕ → ℕ → Result Bytes
  encode_exact_output path recipient deadline amount_out amount_in_maximum = do
    params ←
        abi.encode (path_struct ∷ [])
          (path_params path recipient deadline amount_out amount_in_maximum ∷ [])
    ok (selector abi "exactOutput((bytes,address,uint256,uint256,uint256))" ++ params)

-- The keyword arguments of `encode_v3_swap`.
pub record V3Swap : Type 0 where
  pub token_in : String
  pub token_out : String
  pub fee_in : ℕ
  pub intermediate : Option String
  pub fee_out : Option ℕ
  pub exact_output : Bool
  pub executed_sell : ℕ
  pub executed_buy : ℕ
  pub recipient : String
  pub deadline : ℕ
  pub slippage_bps : ℕ
  pub router_address : String

module _ (abi : Abi) where
  single_calldata : V3Swap → Result Bytes
  single_calldata s =
      if s.exact_output
      then encode_exact_output_single abi s.token_in s.token_out s.fee_in s.recipient s.deadline
          s.executed_buy (apply_slippage_up s.executed_sell s.slippage_bps)
      else encode_exact_input_single abi s.token_in s.token_out s.fee_in s.recipient s.deadline
          s.executed_sell (apply_slippage_down s.executed_buy s.slippage_bps)

  multi_calldata : V3Swap → String → Option ℕ → Result Bytes
  multi_calldata s mid none = err (value_error "fee_out required when intermediate is set")
  multi_calldata s mid (some fee_out) =
      if s.exact_output
      then (do
        packed ← pack_v3_path (s.token_out ∷ mid ∷ s.token_in ∷ []) (fee_out ∷ s.fee_in ∷ [])
        encode_exact_output abi packed s.recipient s.deadline s.executed_buy
            (apply_slippage_up s.executed_sell s.slippage_bps))
      else (do
        packed ← pack_v3_path (s.token_in ∷ mid ∷ s.token_out ∷ []) (s.fee_in ∷ fee_out ∷ [])
        encode_exact_input abi packed s.recipient s.deadline s.executed_sell
            (apply_slippage_down s.executed_buy s.slippage_bps))

  v3_calldata : V3Swap → Option String → Result Bytes
  unfolding single_calldata multi_calldata
  v3_calldata s none = single_calldata s
  v3_calldata s (some mid) = multi_calldata s mid s.fee_out

  unfoldable pub encode_v3_swap : V3Swap → Result Interaction
  unfolding v3_calldata
  encode_v3_swap s = do
    calldata ← v3_calldata s s.intermediate
    make_interaction (record {
      target = s.router_address;
      value = 0;
      call_data = calldata;
      inputs = (s.token_in, s.executed_sell) ∷ [];
      outputs = (s.token_out, s.executed_buy) ∷ [];
    })
