-- ===== src/Routing/V3Batched.antt =====
-- src/routing/v3_batched.py: quotes of Uniswap V3 paths, exact-input and exact-output.
pub mod Paths
use Prim.Native.String.{◌++◌ as ◌++ₛ◌}
use cow_solver_skeleton.Prelude.{
  ℕ, String, Bool, true, Option, none, some, List, [], ◌∷◌, ◌++◌, ltb, length, ◌||◌, if◌then◌else◌,
  Result, ok, err, value_error, other_error, ◌>>=◌,
}
use cow_solver_skeleton.Encoder.Bytes.{
  Bytes, starts_0x, starts_0X, drop_text, rjust, from_hex, to_hex, to_bytes_3,
}
use cow_solver_skeleton.Encoder.Abi.{Abi, AbiValue, values}
use cow_solver_skeleton.Routing.Multicall.{Call, CallResult, Multicall3}
use cow_solver_skeleton.Routing.Batch.{batched_quote}

abbrev pub fee_tiers : List ℕ
fee_tiers = 100 ∷ 500 ∷ 3000 ∷ 10000 ∷ []

abbrev pub quoter_v2_address : String
quoter_v2_address = "0x61fFE014bA17989E743c5F6cB21bF9697530B21e"

pub record V3Path : Type 0 where
  pub order_uid : String
  pub token_in : String
  pub token_out : String
  pub amount_in : ℕ
  pub fee_tier_in : ℕ
  pub intermediate : Option String
  pub fee_tier_out : Option ℕ
  pub exact_output : Bool

pub record V3BatchedQuote : Type 0 where
  pub path : V3Path
  pub amount_out : ℕ

unfoldable pub strip_0x : String → String
unfolding starts_0x starts_0X drop_text
strip_0x addr = if starts_0x addr || starts_0X addr then drop_text 2 addr else addr

-- `bytes.fromhex(_strip_0x(token).rjust(40, "0"))`
unfoldable pub token_bytes : String → Result Bytes
unfolding strip_0x rjust
token_bytes token = from_hex (rjust (strip_0x token) 40)

middle_bytes : Option String → Option ℕ → Result Bytes
middle_bytes none fee_out = ok []
middle_bytes (some mid) none = err (value_error "fee_out required when intermediate is set")
middle_bytes (some mid) (some fee) = do
  token ← token_bytes mid
  tier ← to_bytes_3 fee
  ok (token ++ tier)

unfoldable pub encode_path_bytes : String → ℕ → Option String → Option ℕ → String → Result Bytes
unfolding middle_bytes
encode_path_bytes token_in fee_in intermediate fee_out token_out = do
  first ← token_bytes token_in
  tier ← to_bytes_3 fee_in
  middle ← middle_bytes intermediate fee_out
  last ← token_bytes token_out
  ok (first ++ (tier ++ (middle ++ last)))

-- The packed path that the quoter walks: an exact-output quote walks it from the bought token.
unfoldable pub quoted_path : V3Path → Option String → Result Bytes
unfolding encode_path_bytes
quoted_path p mid =
    if p.exact_output
    then elim p.fee_tier_out [
      | none ↦ err (other_error "'NoneType' object has no attribute 'to_bytes'")
      | some fee ↦ encode_path_bytes p.token_out fee mid (some p.fee_tier_in) p.token_in
    ]
    else encode_path_bytes p.token_in p.fee_tier_in mid p.fee_tier_out p.token_out

module _ (abi : Abi) where
  quote_single : String → String → String → ℕ → ℕ → Result String
  quote_single selector token_in token_out amount fee = do
    encoded ← abi.encode ("(address,address,uint256,uint24,uint160)" ∷ []) (
        AbiValue.tuple (
          values (
            AbiValue.address token_in
            ∷ AbiValue.address token_out
            ∷ AbiValue.uint amount
            ∷ AbiValue.uint fee
            ∷ AbiValue.uint 0
            ∷ []))
        ∷ [])
    ok ("0x" ++ₛ (selector ++ₛ to_hex encoded))

  quote_path : String → Bytes → ℕ → Result String
  quote_path selector path_bytes amount = do
    encoded ←
        abi.encode ("bytes" ∷ "uint256" ∷ [])
          (AbiValue.bytes path_bytes ∷ AbiValue.uint amount ∷ [])
    ok ("0x" ++ₛ (selector ++ₛ to_hex encoded))

  call_data_of : V3Path → Option String → Result String
  unfolding quote_single quote_path
  call_data_of p none =
      quote_single (if p.exact_output then "bd21704a" else "c6a5026a") p.token_in p.token_out
        p.amount_in p.fee_tier_in
  call_data_of p (some mid) = do
    path_bytes ← quoted_path p (some mid)
    quote_path (if p.exact_output then "2f80bb1d" else "cdca1753") path_bytes p.amount_in

  unfoldable pub build_call : String → V3Path → Result Call
  unfolding call_data_of
  build_call quoter_address p = do
    call_data ← call_data_of p p.intermediate
    ok (record { target = quoter_address; call_data = call_data; allow_failure = true })

  -- The first of four decoded values, 0 where the decoding raises.
  first_of_four : Result (List AbiValue) → ℕ
  first_of_four (ok (AbiValue.uint a ∷ b ∷ c ∷ d ∷ [])) = a
  first_of_four _ = 0

  decode_single_hop_return : Bytes → ℕ
  unfolding first_of_four
  decode_single_hop_return bs =
      if ltb (length bs) 128
      then 0
      else first_of_four (abi.decode ("uint256" ∷ "uint160" ∷ "uint32" ∷ "uint256" ∷ []) bs)

  decode_multi_hop_return : Bytes → ℕ
  unfolding first_of_four
  decode_multi_hop_return [] = 0
  decode_multi_hop_return (b ∷ bs) =
      first_of_four (abi.decode ("uint256" ∷ "uint160[]" ∷ "uint32[]" ∷ "uint256" ∷ []) (b ∷ bs))

  decode_return : Option String → Bytes → ℕ
  unfolding decode_single_hop_return decode_multi_hop_return
  decode_return none bs = decode_single_hop_return bs
  decode_return (some mid) bs = decode_multi_hop_return bs

  unfoldable pub read_quote : V3Path → CallResult → V3BatchedQuote
  unfolding decode_return
  read_quote p r = record {
    path = p;
    amount_out = if r.success then decode_return p.intermediate r.return_data else 0;
  }

unfoldable pub batched_v3_quote : Multicall3 → List V3Path → Result (List V3BatchedQuote)
unfolding batched_quote build_call read_quote
batched_v3_quote m = batched_quote m (build_call m.abi quoter_v2_address) (read_quote m.abi)
