-- ===== src/Encoder/V2.antt =====
-- src/encoder/v2_calldata.py: the swap calls of a UniswapV2-style router.
use Prim.Native.String.{count}
use cow_solver_skeleton.Prelude.{
  ℕ, String, Bool, true, ◌&&◌, List, [], ◌∷◌, ◌++◌, map, lower, ◌==◌, ◌=ₛ◌, Result, ok, err,
  value_error, require, ◌>>◌, ◌>>=◌,
}
use cow_solver_skeleton.Encoder.Bytes.{Bytes, starts_0x}
use cow_solver_skeleton.Encoder.Abi.{Abi, AbiValue, values, selector}

abbrev args_types : List String
args_types = "uint256" ∷ "uint256" ∷ "address[]" ∷ "address" ∷ "uint256" ∷ []

-- `addr.startswith("0x") and len(addr) == 42`
abbrev pub is_address : String → Bool
is_address addr = starts_0x addr && count addr == 42

abbrev pub all_addresses : List String → Bool
all_addresses [] = true
all_addresses (a ∷ as') = is_address a && all_addresses as'

-- `path[-1]` of a path that starts with `a`
abbrev pub last_token : String → List String → String
last_token a [] = a
last_token a (b ∷ path) = last_token b path

-- `_validate_path`
unfoldable pub validate_path : List String → String → String → Result (Unit {0})
unfolding lower starts_0x
validate_path [] expected_in expected_out = err (value_error "path must have at least 2 tokens")
validate_path (a ∷ []) expected_in expected_out =
    err (value_error "path must have at least 2 tokens")
validate_path (a ∷ b ∷ path) expected_in expected_out = do
  require (all_addresses (a ∷ b ∷ path))
      "path holds a text that is not a 0x-prefixed 20-byte address"
  require (lower a =ₛ lower expected_in) "path[0] must equal token_in"
  require (lower (last_token b path) =ₛ lower expected_out) "path[-1] must equal token_out"

module _ (abi : Abi) where
  encode_swap : String → List String → String → ℕ → ℕ → ℕ → Result Bytes
  encode_swap sig path recipient deadline first second = do
    args ← abi.encode args_types (
        AbiValue.uint first
        ∷ AbiValue.uint second
        ∷ AbiValue.array (values (map AbiValue.address path))
        ∷ AbiValue.address recipient
        ∷ AbiValue.uint deadline
        ∷ [])
    ok (selector abi sig ++ args)

  unfoldable pub encode_swap_exact_tokens_for_tokens :
      String → String → List String → String → ℕ → ℕ → ℕ → Result Bytes
  unfolding validate_path encode_swap
  encode_swap_exact_tokens_for_tokens token_in token_out path recipient deadline amount_in
        amount_out_minimum =
      validate_path path token_in token_out
      >> encode_swap "swapExactTokensForTokens(uint256,uint256,address[],address,uint256)" path
          recipient deadline amount_in amount_out_minimum

  unfoldable pub encode_swap_tokens_for_exact_tokens :
      String → String → List String → String → ℕ → ℕ → ℕ → Result Bytes
  unfolding validate_path encode_swap
  encode_swap_tokens_for_exact_tokens token_in token_out path recipient deadline amount_out
        amount_in_maximum =
      validate_path path token_in token_out
      >> encode_swap "swapTokensForExactTokens(uint256,uint256,address[],address,uint256)" path
          recipient deadline amount_out amount_in_maximum
