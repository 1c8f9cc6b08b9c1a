-- ===== src/Routing/AmmV2/Pools.antt =====
-- The pool discovery of src/routing/amm_v2.py, through batched calls.
use Prim.Native.String.{◌++◌ as ◌++ₛ◌}
use cow_solver_skeleton.Prelude.{
  ℕ, ◌-◌, String, true, not, ◌||◌, Option, none, some, List, [], ◌∷◌, map, take, drop, length,
  lower, ltb, ◌=ₛ◌, ◌==◌, if◌then◌else◌, Result, ok, err, value_error, other_error, ◌>>=◌,
}
use cow_solver_skeleton.Dict.{Dict}
use cow_solver_skeleton.Encoder.Bytes.{Bytes, big_endian, drop_text, rjust, to_hex}
use cow_solver_skeleton.Routing.Multicall.{Call, CallResult, Multicall3, aggregate}

abbrev pub factories_v2 : Dict String
factories_v2 =
    ("sushi", "0xc35DADB65012eC5796536bD9864eD8773aBc74C4")
    ∷ ("camelot", "0x6EcCab422D763aC031210895C81787E87B43A652")
    ∷ []

pub record PoolReserves : Type 0 where
  pub reserve0 : ℕ
  pub reserve1 : ℕ
  pub token0 : String

-- `token[2:].zfill(64).lower()`
unfoldable pub padded_address : String → String
unfolding drop_text rjust lower
padded_address token = lower (rjust (drop_text 2 token) 64)

unfoldable pub encode_get_pair : String → String → String
unfolding padded_address
encode_get_pair token_a token_b =
    "0xe6a43905" ++ₛ (padded_address token_a ++ₛ padded_address token_b)

abbrev pub call_of : String → String → Call
call_of target call_data = record { target = target; call_data = call_data; allow_failure = true }

-- `data[-20:]`
abbrev pub last_20 : Bytes → Bytes
last_20 b = drop (length b - 20) b

-- The address that `getPair` returns, unless it failed or is zero.
unfoldable pub pair_address : CallResult → Option String
unfolding big_endian to_hex
pair_address r =
    if not r.success || ltb (length r.return_data) 32
    then none
    else if big_endian 0 (last_20 r.return_data) == 0
    then none
    else some ("0x" ++ₛ to_hex (last_20 r.return_data))

collect_addresses : Dict String → List CallResult → Result (Dict String)
unfolding pair_address
collect_addresses [] [] = ok []
collect_addresses ((name, factory) ∷ fs) (r ∷ rs) = collect_addresses fs rs >>= λ rest.
    elim (pair_address r) [ none ↦ ok rest | some addr ↦ ok ((name, addr) ∷ rest) ]
collect_addresses [] (r ∷ rs) = err (value_error "zip() argument 2 is longer than argument 1")
collect_addresses (f ∷ fs) [] = err (value_error "zip() argument 2 is shorter than argument 1")

unfoldable pub find_pool_addresses : Multicall3 → String → String → Result (Dict String)
unfolding encode_get_pair aggregate collect_addresses
find_pool_addresses m token_a token_b = do
  results ←
      aggregate m "latest" (map (λ f. call_of f.1 (encode_get_pair token_a token_b)) factories_v2)
  collect_addresses factories_v2 results

-- `getReserves()` and `token0()` of each pool
reserve_calls : Dict String → List Call
reserve_calls [] = []
reserve_calls ((name, pool) ∷ pools) =
    call_of pool "0x0902f1ac" ∷ call_of pool "0x0dfe1681" ∷ reserve_calls pools

unfoldable pub pool_reserves : CallResult → CallResult → Option PoolReserves
unfolding big_endian to_hex lower
pool_reserves rsv tok =
    if not rsv.success
      || (not tok.success || (ltb (length rsv.return_data) 64 || ltb (length tok.return_data) 32))
    then none
    else some (record {
      reserve0 = big_endian 0 (take 32 rsv.return_data);
      reserve1 = big_endian 0 (take 32 (drop 32 rsv.return_data));
      token0 = "0x" ++ₛ lower (to_hex (last_20 tok.return_data));
    })

-- The pools with their results, two for each, as far as both go.
collect_reserves : Dict String → List CallResult → Result (Dict PoolReserves)
unfolding pool_reserves
collect_reserves [] rs = ok []
collect_reserves (p ∷ pools) [] = ok []
collect_reserves (p ∷ pools) (rsv ∷ []) = err (other_error "list index out of range")
collect_reserves ((name, pool) ∷ pools) (rsv ∷ tok ∷ rs) = collect_reserves pools rs >>= λ rest.
    elim (pool_reserves rsv tok) [ none ↦ ok rest | some reserves ↦ ok ((name, reserves) ∷ rest) ]

unfoldable pub fetch_reserves : Multicall3 → Dict String → Result (Dict PoolReserves)
unfolding reserve_calls aggregate collect_reserves
fetch_reserves m [] = ok []
fetch_reserves m (p ∷ pools) = do
  results ← aggregate m "latest" (reserve_calls (p ∷ pools))
  collect_reserves (p ∷ pools) results

-- The reserves in the direction of a swap that sells `token_in`.
unfoldable pub orient_reserves : PoolReserves → String → ℕ × ℕ
unfolding lower
orient_reserves reserves token_in =
    if reserves.token0 =ₛ lower token_in
    then (reserves.reserve0, reserves.reserve1)
    else (reserves.reserve1, reserves.reserve0)
