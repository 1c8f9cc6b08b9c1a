-- ===== src/Routing/CurveQuoter.antt =====
-- src/routing/curve_quoter.py: quotes of the configured Curve pools.
use Prim.Native.String.{◌++◌ as ◌++ₛ◌}
use cow_solver_skeleton.Prelude.{
  ℕ, suc, String, Bool, true, false, List, [], ◌∷◌, map, lower, ltb, length, text_mem, ◌=ₛ◌, ◌&&◌,
  if◌then◌else◌, Result, ok, ◌>>=◌,
}
use cow_solver_skeleton.Encoder.Bytes.{Bytes, to_hex}
use cow_solver_skeleton.Encoder.Abi.{Abi, AbiValue, selector}
use cow_solver_skeleton.Routing.Multicall.{Call, CallResult, Multicall3}
use cow_solver_skeleton.Routing.Batch.{batched_quote}

pub record CurvePool : Type 0 where
  pub address : String
  pub coins : List String
  pub name : String
  pub is_ng : Bool

abbrev pub curve_pools : List CurvePool
curve_pools =
    record {
      address = "0x7f90122BF0700F9E7e1F688fe926940E8839F353";
      coins =
          "0xFF970A61A04b1cA14834A43f5dE4533eBDDB5CC8"
          ∷ "0xFd086bC7CD5C481DCC9C85ebE478A1C0b69FCbb9" ∷ [];
      name = "2pool";
      is_ng = false;
    }
    ∷ record {
      address = "0x49b720F1Aab26260BEAec93A7BeB5BF2925b2A8F";
      coins =
          "0xaf88d065e77c8cC2239327C5EDb3A432268e5831"
          ∷ "0xFd086bC7CD5C481DCC9C85ebE478A1C0b69FCbb9" ∷ [];
      name = "strategic-usd-reserves";
      is_ng = true;
    }
    ∷ []

pub record CurvePath : Type 0 where
  pub order_uid : String
  pub token_in : String
  pub token_out : String
  pub amount_in : ℕ
  pub pool : CurvePool
  pub i : ℕ
  pub j : ℕ
  pub exact_output : Bool

pub record CurveQuote : Type 0 where
  pub path : CurvePath
  pub amount_out : ℕ
  pub gas_estimate : ℕ

-- `coins.index(t)`, on a text that is in the list
index : String → List String → ℕ
index t [] = 0
index t (u ∷ us) = if u =ₛ t then 0 else suc (index t us)

curve_paths_in : List CurvePool → String → String → String → ℕ → List CurvePath
unfolding lower index
curve_paths_in [] uid token_in token_out amount_in = []
curve_paths_in (pool ∷ pools) uid token_in token_out amount_in =
    let coins = map lower pool.coins in
    let rest = curve_paths_in pools uid token_in token_out amount_in in
    if text_mem (lower token_in) coins && text_mem (lower token_out) coins
    then record {
      order_uid = uid;
      token_in = token_in;
      token_out = token_out;
      amount_in = amount_in;
      pool = pool;
      i = index (lower token_in) coins;
      j = index (lower token_out) coins;
      exact_output = false;
    }
      ∷ rest
    else rest

unfoldable pub make_curve_paths : String → String → String → ℕ → List CurvePath
unfolding curve_paths_in
make_curve_paths = curve_paths_in curve_pools

module _ (abi : Abi) where
  unfoldable pub build_call : CurvePath → Result Call
  build_call p = do
    args ←
        abi.encode ("int128" ∷ "int128" ∷ "uint256" ∷ [])
          (AbiValue.uint p.i ∷ AbiValue.uint p.j ∷ AbiValue.uint p.amount_in ∷ [])
    ok (record {
      target = p.pool.address;
      call_data = "0x" ++ₛ (to_hex (selector abi "get_dy(int128,int128,uint256)") ++ₛ to_hex args);
      allow_failure = true;
    })

  one_uint : Result (List AbiValue) → ℕ
  one_uint (ok (AbiValue.uint dy ∷ [])) = dy
  one_uint _ = 0

  decode_get_dy_return : Bytes → ℕ
  unfolding one_uint
  decode_get_dy_return bs =
      if ltb (length bs) 32 then 0 else one_uint (abi.decode ("uint256" ∷ []) bs)

  unfoldable pub read_quote : CurvePath → CallResult → CurveQuote
  unfolding decode_get_dy_return
  read_quote p r = record {
    path = p;
    amount_out = if r.success then decode_get_dy_return r.return_data else 0;
    gas_estimate = 0;
  }

unfoldable pub batched_curve_quote : Multicall3 → List CurvePath → Result (List CurveQuote)
unfolding batched_quote build_call read_quote
batched_curve_quote m = batched_quote m (build_call m.abi) (read_quote m.abi)
