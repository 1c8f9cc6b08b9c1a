-- ===== src/Routing/Multihop.antt =====
-- src/routing/multihop.py: the best path of one or two hops over the V2 factories and Uniswap V3.
pub mod Paths
pub mod Best
use cow_solver_skeleton.Prelude.{
  ℕ, String, Bool, ◌||◌, Option, none, some, List, [], ◌∷◌, ◌++◌, lower, ◌==◌, ◌=ₛ◌, if◌then◌else◌,
  max_by, Result, ok, err, ◌>>=◌,
}
use cow_solver_skeleton.Dict.{Dict, get}
use cow_solver_skeleton.Routing.Multicall.{Multicall3}
use cow_solver_skeleton.Routing.AmmV2.{quote_v2_swap}
use cow_solver_skeleton.Routing.AmmV2.Pools.{
  PoolReserves, find_pool_addresses, fetch_reserves, orient_reserves,
}
use cow_solver_skeleton.Routing.AmmV3.{V3Quote, best_v3_quote}
use cow_solver_skeleton.Routing.V3Batched.{quoter_v2_address}

pub record HopQuote : Type 0 where
  pub factory : String
  pub pool : String
  pub token_in : String
  pub token_out : String
  pub amount_in : ℕ
  pub amount_out : ℕ
  pub fee_tier : Option ℕ

abbrev pub pool_hop : String → String → ℕ → String → String → ℕ → HopQuote
pool_hop token_in token_out amount_in name pool out = record {
  factory = name;
  pool = pool;
  token_in = token_in;
  token_out = token_out;
  amount_in = amount_in;
  amount_out = out;
  fee_tier = none;
}

abbrev pub paying : HopQuote → List HopQuote
paying h = if h.amount_out == 0 then [] else h ∷ []

-- The candidate of one pool, if it pays.
unfoldable pub v2_hop : String → String → ℕ → String → String → PoolReserves → List HopQuote
unfolding orient_reserves quote_v2_swap
v2_hop token_in token_out amount_in name pool reserves =
    let (reserve_in, reserve_out) = orient_reserves reserves token_in in
    paying (
      pool_hop token_in token_out amount_in name pool
        (quote_v2_swap amount_in reserve_in reserve_out 30))

unfoldable pub v2_hops : String → String → ℕ → Dict String → Dict PoolReserves → List HopQuote
unfolding v2_hop
v2_hops token_in token_out amount_in [] reserves = []
v2_hops token_in token_out amount_in ((name, pool) ∷ pools) reserves =
    let rest = v2_hops token_in token_out amount_in pools reserves in
    elim (get reserves name) [
      | none ↦ rest
      | some rsv ↦ v2_hop token_in token_out amount_in name pool rsv ++ rest
    ]

unfoldable pub v3_hops : String → String → ℕ → Option V3Quote → List HopQuote
v3_hops token_in token_out amount_in none = []
v3_hops token_in token_out amount_in (some q) =
    record {
      factory = "uniswap-v3";
      pool = quoter_v2_address;
      token_in = token_in;
      token_out = token_out;
      amount_in = amount_in;
      amount_out = q.amount_out;
      fee_tier = some q.fee_tier;
    }
    ∷ []

-- The candidates of one hop.
unfoldable pub hop_candidates : Multicall3 → String → String → ℕ → Result (List HopQuote)
unfolding find_pool_addresses fetch_reserves best_v3_quote v2_hops v3_hops
hop_candidates m token_in token_out amount_in = do
  addresses ← find_pool_addresses m token_in token_out
  reserves ← fetch_reserves m addresses
  v3 ← best_v3_quote m token_in token_out amount_in
  ok (
      v2_hops token_in token_out amount_in addresses reserves
      ++ v3_hops token_in token_out amount_in v3)

unfoldable pub best_hop : List HopQuote → Option HopQuote
unfolding max_by
best_hop [] = none
best_hop (h ∷ hs) = some (max_by (λ h. h.amount_out) h hs)

-- `_quote_best_single_hop`
unfoldable pub quote_best_single_hop : Multicall3 → String → String → ℕ → Result (Option HopQuote)
unfolding hop_candidates best_hop
quote_best_single_hop m token_in token_out amount_in = do
  candidates ← hop_candidates m token_in token_out amount_in
  ok (best_hop candidates)

-- A path is its first hop and, on a detour, the second.
pub record HopPath : Type 0 where
  pub first : HopQuote
  pub second : Option HopQuote

-- `path[-1].amount_out`
abbrev pub final_amount : HopPath → ℕ
final_amount path = elim path.second [ none ↦ path.first.amount_out | some h ↦ h.amount_out ]

-- `path[-1].token_out`
abbrev pub final_token : HopPath → String
final_token path = elim path.second [ none ↦ path.first.token_out | some h ↦ h.token_out ]

-- A quote of one hop, over which the path search is done.
abbrev pub Hop : Type 0
Hop = String → String → ℕ → Result (Option HopQuote)

module _ (hop : Hop) (token_in token_out : String) (amount_in : ℕ) where
  -- The candidates through one token.
  abbrev pub joined : HopQuote → Option HopQuote → List HopPath
  joined h1 none = []
  joined h1 (some h2) = record { first = h1; second = some h2 } ∷ []

  unfoldable pub second_leg : String → Option HopQuote → Result (List HopPath)
  second_leg mid none = ok []
  second_leg mid (some h1) = do found ← hop mid token_out h1.amount_out; ok (joined h1 found)

  unfoldable pub detour : String → Result (List HopPath)
  unfolding second_leg lower
  detour mid =
      if lower mid =ₛ lower token_in || lower mid =ₛ lower token_out
      then ok []
      else hop token_in mid amount_in >>= second_leg mid

  unfoldable pub detours : List String → Result (List HopPath)
  unfolding detour
  detours [] = ok []
  detours (mid ∷ mids) = do here ← detour mid; rest ← detours mids; ok (here ++ rest)

  abbrev pub direct_path : Option HopQuote → List HopPath
  direct_path none = []
  direct_path (some h) = record { first = h; second = none } ∷ []

  unfoldable pub path_candidates : List String → Result (List HopPath)
  unfolding detours
  path_candidates intermediates = do
    direct ← hop token_in token_out amount_in
    others ← detours intermediates
    ok (direct_path direct ++ others)

unfoldable pub best_path : List HopPath → Option HopPath
unfolding max_by
best_path [] = none
best_path (p ∷ ps) = some (max_by final_amount p ps)

unfoldable pub quote_best_path :
    Multicall3 → String → String → ℕ → List String → Result (Option HopPath)
unfolding path_candidates quote_best_single_hop best_path
quote_best_path m token_in token_out amount_in intermediates = do
  candidates ← path_candidates (quote_best_single_hop m) token_in token_out amount_in intermediates
  ok (best_path candidates)

-- What the solvers read of a path.
unfoldable pub quoted_amount : Multicall3 → List String → String → String → ℕ → Result (Option ℕ)
unfolding quote_best_path
quoted_amount m intermediates token_in token_out amount_in =
    quote_best_path m token_in token_out amount_in intermediates >>= λ found. elim found [
      | none ↦ ok none
      | some path ↦ ok (some (final_amount path))
    ]
