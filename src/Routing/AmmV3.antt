-- ===== src/Routing/AmmV3.antt =====
-- src/routing/amm_v3.py: one pair of tokens quoted at every fee tier of Uniswap V3.
use Prim.Native.String.{◌++◌ as ◌++ₛ◌}
use cow_solver_skeleton.Prelude.{
  ℕ, String, true, Option, none, some, List, [], ◌∷◌, length, ltb, ◌==◌, if◌then◌else◌, max_by,
  Result, ok, err, value_error, ◌>>=◌, map_m,
}
use cow_solver_skeleton.Encoder.Bytes.{Bytes, to_hex}
use cow_solver_skeleton.Encoder.Abi.{AbiValue, values}
use cow_solver_skeleton.Routing.Multicall.{Call, CallResult, Multicall3, aggregate_resilient}
use cow_solver_skeleton.Routing.V3Batched.{fee_tiers, quoter_v2_address}

pub record V3Quote : Type 0 where
  pub fee_tier : ℕ
  pub amount_out : ℕ
  pub sqrt_price_x96_after : ℕ
  pub initialized_ticks_crossed : ℕ
  pub gas_estimate : ℕ

module _ (m : Multicall3) where
  unfoldable pub encode_quote_input_single : String → String → ℕ → ℕ → Result String
  unfolding to_hex
  encode_quote_input_single token_in token_out amount_in fee = do
    encoded ← m.abi.encode ("(address,address,uint256,uint24,uint160)" ∷ []) (
        AbiValue.tuple (
          values (
            AbiValue.address token_in
            ∷ AbiValue.address token_out
            ∷ AbiValue.uint amount_in
            ∷ AbiValue.uint fee
            ∷ AbiValue.uint 0
            ∷ []))
        ∷ [])
    ok ("0xc6a5026a" ++ₛ to_hex encoded)

  quote_of_four : ℕ → Result (List AbiValue) → Option V3Quote
  quote_of_four fee
        (ok (
          AbiValue.uint out ∷ AbiValue.uint price ∷ AbiValue.uint ticks ∷ AbiValue.uint gas ∷ [])) =
      some (record {
        fee_tier = fee;
        amount_out = out;
        sqrt_price_x96_after = price;
        initialized_ticks_crossed = ticks;
        gas_estimate = gas;
      })
  quote_of_four fee _ = none

  -- `_decode_quote_output`, with the fee tier that the caller fills in
  unfoldable pub decode_quote_output : ℕ → Bytes → Option V3Quote
  unfolding quote_of_four
  decode_quote_output fee bs =
      if ltb (length bs) 128
      then none
      else quote_of_four fee (m.abi.decode ("uint256" ∷ "uint160" ∷ "uint32" ∷ "uint256" ∷ []) bs)

  -- A successful result that pays something.
  unfoldable pub tier_quote : ℕ → CallResult → Option V3Quote
  unfolding decode_quote_output
  tier_quote fee r =
      if r.success
      then elim (decode_quote_output fee r.return_data) [
        | none ↦ none
        | some q ↦ if q.amount_out == 0 then none else some q
      ]
      else none

  collect_tiers : List ℕ → List CallResult → Result (List V3Quote)
  unfolding tier_quote
  collect_tiers [] [] = ok []
  collect_tiers (fee ∷ fees) (r ∷ rs) = collect_tiers fees rs >>= λ rest. elim (tier_quote fee r) [
    | none ↦ ok rest
    | some q ↦ ok (q ∷ rest)
  ]
  collect_tiers [] (r ∷ rs) = err (value_error "zip() argument 2 is longer than argument 1")
  collect_tiers (fee ∷ fees) [] = err (value_error "zip() argument 2 is shorter than argument 1")

  tier_call : String → String → ℕ → ℕ → Result Call
  unfolding encode_quote_input_single
  tier_call token_in token_out amount_in fee = do
    call_data ← encode_quote_input_single token_in token_out amount_in fee
    ok (record { target = quoter_v2_address; call_data = call_data; allow_failure = true })

  unfoldable pub quote_v3_all_fee_tiers : String → String → ℕ → Result (List V3Quote)
  unfolding map_m tier_call aggregate_resilient collect_tiers
  quote_v3_all_fee_tiers token_in token_out amount_in = do
    calls ← map_m (tier_call token_in token_out amount_in) fee_tiers
    results ← aggregate_resilient m "latest" calls
    collect_tiers fee_tiers results

  unfoldable pub best_of : List V3Quote → Option V3Quote
  unfolding max_by
  best_of [] = none
  best_of (q ∷ qs) = some (max_by (λ q. q.amount_out) q qs)

  unfoldable pub best_v3_quote : String → String → ℕ → Result (Option V3Quote)
  unfolding quote_v3_all_fee_tiers best_of
  best_v3_quote token_in token_out amount_in = do
    quotes ← quote_v3_all_fee_tiers token_in token_out amount_in
    ok (best_of quotes)
