-- ===== src/Routing/V4Quoter.antt =====
-- src/routing/v4_quoter.py: quotes of Uniswap V4 pools without hooks, and of their native variants.
use Prim.Native.String.{◌++◌ as ◌++ₛ◌}
use cow_solver_skeleton.Prelude.{
  ℕ, String, Bool, true, false, ◌&&◌, Option, none, some, List, [], ◌∷◌, map, lower, ltb, length,
  ◌=ₛ◌, if◌then◌else◌, Result, ok, ◌>>=◌,
}
use cow_solver_skeleton.Encoder.Bytes.{Bytes, to_hex, int_of_hex}
use cow_solver_skeleton.Encoder.Abi.{Abi, AbiValue, values}
use cow_solver_skeleton.Routing.Multicall.{Call, CallResult, Multicall3}
use cow_solver_skeleton.Routing.Batch.{batched_quote}
use cow_solver_skeleton.Routing.V3Batched.{strip_0x}

abbrev pub native_currency : String
native_currency = "0x0000000000000000000000000000000000000000"

abbrev pub weth_arbitrum : String
weth_arbitrum = "0x82aF49447D8a07e3bd95BD0d56f35241523fBab1"

abbrev pub standard_v4_tiers : List (ℕ × ℕ)
standard_v4_tiers = (100, 1) ∷ (500, 10) ∷ (3000, 60) ∷ (10000, 200) ∷ []

pub record V4Path : Type 0 where
  pub order_uid : String
  pub token_in : String
  pub token_out : String
  pub fee : ℕ
  pub tick_spacing : ℕ
  pub amount_in : ℕ
  pub exact_output : Bool
  pub native_side : Bool

pub record V4BatchedQuote : Type 0 where
  pub path : V4Path
  pub amount_out : ℕ
  pub gas_estimate : ℕ

same_address : String → String → Bool
unfolding lower strip_0x
same_address a b = lower (strip_0x a) =ₛ lower (strip_0x b)

-- `V4Path._currency`
unfoldable pub currency : V4Path → String → String
unfolding same_address
currency p token =
    if p.native_side && same_address token weth_arbitrum then native_currency else token

-- `currency0`, `currency1` and `zero_for_one`; `min` and `max` keep the first on a tie
unfoldable pub pool_currencies : V4Path → Result (String × String × Bool)
unfolding currency strip_0x
pool_currencies p = do
  a ← int_of_hex (strip_0x (currency p p.token_in))
  b ← int_of_hex (strip_0x (currency p p.token_out))
  ok (
      if ltb b a
      then (currency p p.token_out, currency p p.token_in, ltb a b)
      else if ltb a b
      then (currency p p.token_in, currency p p.token_out, ltb a b)
      else (currency p p.token_in, currency p p.token_in, ltb a b))

module _ (abi : Abi) where
  unfoldable pub build_call : String → V4Path → Result Call
  unfolding pool_currencies
  build_call quoter_address p = do
    currencies ← pool_currencies p
    let key = AbiValue.tuple (
        values (
          AbiValue.address currencies.0
          ∷ AbiValue.address currencies.1
          ∷ AbiValue.uint p.fee
          ∷ AbiValue.uint p.tick_spacing
          ∷ AbiValue.address native_currency
          ∷ []))
    params ← abi.encode ("((address,address,uint24,int24,address),bool,uint128,bytes)" ∷ []) (
        AbiValue.tuple (
          values (
            key
            ∷ AbiValue.boolean currencies.2
            ∷ AbiValue.uint p.amount_in
            ∷ AbiValue.bytes []
            ∷ []))
        ∷ [])
    ok (record {
      target = quoter_address;
      call_data = "0x" ++ₛ ((if p.exact_output then "58733073" else "aa9d21cb") ++ₛ to_hex params);
      allow_failure = true;
    })

  two_uints : Result (List AbiValue) → Option (ℕ × ℕ)
  two_uints (ok (AbiValue.uint a ∷ AbiValue.uint g ∷ [])) = some (a, g)
  two_uints _ = none

  decode_quote_return : Bytes → Option (ℕ × ℕ)
  unfolding two_uints
  decode_quote_return bs =
      if ltb (length bs) 64 then none else two_uints (abi.decode ("uint256" ∷ "uint256" ∷ []) bs)

  unfoldable pub read_quote : V4Path → CallResult → V4BatchedQuote
  unfolding decode_quote_return
  read_quote p r = elim (if r.success then decode_quote_return r.return_data else none) [
    | none ↦ record { path = p; amount_out = 0; gas_estimate = 0 }
    | some (a, g) ↦ record { path = p; amount_out = a; gas_estimate = g }
  ]

unfoldable pub make_v4_paths : String → String → String → ℕ → List V4Path
make_v4_paths uid token_in token_out amount_in =
    map
      (λ tier. record {
        order_uid = uid;
        token_in = token_in;
        token_out = token_out;
        fee = tier.0;
        tick_spacing = tier.1;
        amount_in = amount_in;
        exact_output = false;
        native_side = false;
      })
      standard_v4_tiers

native_paths : String → String → String → ℕ → List V4Path
native_paths uid token_in token_out amount_in =
    map
      (λ tier. record {
        order_uid = uid;
        token_in = token_in;
        token_out = token_out;
        fee = tier.0;
        tick_spacing = tier.1;
        amount_in = amount_in;
        exact_output = false;
        native_side = true;
      })
      standard_v4_tiers

-- Only where exactly one side is WETH.
unfoldable pub make_v4_native_paths : String → String → String → ℕ → List V4Path
unfolding native_paths same_address
make_v4_native_paths uid token_in token_out amount_in = elim (same_address token_in weth_arbitrum) [
  | true ↦
      if same_address token_out weth_arbitrum
      then []
      else native_paths uid token_in token_out amount_in
  | false ↦
      if same_address token_out weth_arbitrum
      then native_paths uid token_in token_out amount_in
      else []
]

unfoldable pub batched_v4_quote : Multicall3 → String → List V4Path → Result (List V4BatchedQuote)
unfolding batched_quote build_call read_quote
batched_v4_quote m quoter_address =
    batched_quote m (build_call m.abi quoter_address) (read_quote m.abi)
