-- ===== src/Encoder/Curve.antt =====
-- src/encoder/curve_calldata.py: a Curve exact-input swap.
use cow_solver_skeleton.Prelude.{
  ℕ, ◌-◌, ◌^◌, String, not, ◌&&◌, List, [], ◌∷◌, ◌++◌, ltb, leb, ◌==◌, Result, ok, ◌>>=◌, ◌>>◌,
  require,
}
use cow_solver_skeleton.Encoder.Bytes.{Bytes}
use cow_solver_skeleton.Encoder.Abi.{Abi, AbiValue, selector}
use cow_solver_skeleton.Encoder.Interaction.{Interaction, make_interaction, encode_approve}

abbrev int128_max : ℕ
int128_max = 2 ^ 127 - 1

abbrev uint256_max : ℕ
uint256_max = 2 ^ 256 - 1

unfoldable pub encode_exchange : Abi → ℕ → ℕ → ℕ → ℕ → Result Bytes
encode_exchange abi i j dx min_dy = do
  require (leb i int128_max && leb j int128_max) "coin indices must be non-negative int128"
  require (not (i == j)) "coin indices must differ"
  require (ltb 0 dx && leb dx uint256_max) "dx must be positive uint256"
  require (leb min_dy uint256_max) "min_dy must fit uint256"
  params ←
      abi.encode ("int128" ∷ "int128" ∷ "uint256" ∷ "uint256" ∷ [])
        (AbiValue.uint i ∷ AbiValue.uint j ∷ AbiValue.uint dx ∷ AbiValue.uint min_dy ∷ [])
  ok (selector abi "exchange(int128,int128,uint256,uint256)" ++ params)

-- The keyword arguments of `encode_curve_swap_interactions`.
pub record CurveSwap : Type 0 where
  pub pool_address : String
  pub i : ℕ
  pub j : ℕ
  pub amount_in : ℕ
  pub min_amount_out : ℕ
  pub sell_token : String
  pub buy_token : String
  pub executed_buy : ℕ

unfoldable pub encode_curve_swap_interactions : Abi → CurveSwap → Result (List Interaction)
encode_curve_swap_interactions abi s = do
  require (ltb 0 s.executed_buy) "executed_buy must be positive"
  require (leb s.min_amount_out s.executed_buy) "min_amount_out must not exceed executed_buy"
  approve_data ← encode_approve abi s.pool_address s.amount_in
  erc20_approve ← make_interaction (record {
    target = s.sell_token;
    value = 0;
    call_data = approve_data;
    inputs = [];
    outputs = [];
  })
  exchange_data ← encode_exchange abi s.i s.j s.amount_in s.min_amount_out
  exchange ← make_interaction (record {
    target = s.pool_address;
    value = 0;
    call_data = exchange_data;
    inputs = (s.sell_token, s.amount_in) ∷ [];
    outputs = (s.buy_token, s.executed_buy) ∷ [];
  })
  ok (erc20_approve ∷ exchange ∷ [])
