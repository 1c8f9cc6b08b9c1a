-- ===== src/Liquidity/V2/Walk.antt =====
-- The walks of src/liquidity/v2.py along a path: the amount that a sale pays, hop by hop, and the
-- amount that a purchase asks for, hop by hop from the end. The settings keep the fee below 10_000.
use Prim.Native.String.{◌++◌ as ◌++ₛ◌}
use cow_solver_skeleton.Prelude.{
  ℕ, ◌+◌, ◌-◌, ◌*◌, ◌/◌, String, Bool, ◌&&◌, ◌||◌, Option, none, some, List, [], ◌∷◌, lower, leb,
  ◌==◌, ◌=ₛ◌, if◌then◌else◌,
}
use cow_solver_skeleton.Dict.{Dict, get}
use cow_solver_skeleton.Routing.AmmV2.{quote_v2_swap}
use cow_solver_skeleton.Routing.AmmV2.Pools.{PoolReserves, orient_reserves}

abbrev pub Pair : Type 0
Pair = String × String

abbrev pub same_pair : Pair → Pair → Bool
same_pair (a, b) (c, d) = (a =ₛ c) && (b =ₛ d)

-- `f"{pair[0]}|{pair[1]}"`
abbrev pub label : Pair → String
label (a, b) = a ++ₛ ("|" ++ₛ b)

-- `pool_addrs_by_pair.get(pair)`
abbrev pub pool_of : List (Pair × String) → Pair → Option String
pool_of [] pair = none
pool_of ((p, addr) ∷ pools) pair = if same_pair p pair then some addr else pool_of pools pair

unfoldable pub get_amount_in : ℕ → ℕ → ℕ → ℕ → ℕ
get_amount_in amount_out reserve_in reserve_out fee_bps =
    if amount_out == 0 || (reserve_in == 0 || (reserve_out == 0 || leb reserve_out amount_out))
    then 0
    else reserve_in * amount_out * 10_000 / ((reserve_out - amount_out) * (10_000 - fee_bps)) + 1

-- A hop's reserves, in the direction of the swap.
abbrev pub Reserves : Type 0
Reserves = String → String → Option (ℕ × ℕ)

unfoldable pub hop_reserves : List (Pair × String) → Dict PoolReserves → Reserves
unfolding orient_reserves lower
hop_reserves pools reserves a b = elim (pool_of pools (lower a, lower b)) [
  | none ↦ none
  | some addr ↦ elim (get reserves (label (lower a, lower b))) [
    | none ↦ none
    | some rsv ↦ some (orient_reserves rsv a)
  ]
]

abbrev pub positive : ℕ → Option ℕ
positive n = if n == 0 then none else some n

module _ (reserves : Reserves) (fee_bps : ℕ) where
  -- `quote_v2_swap` on a hop; a hop without a pool or with no output is not viable.
  unfoldable pub swap_hop : ℕ → Option (ℕ × ℕ) → Option ℕ
  unfolding quote_v2_swap
  swap_hop amount none = none
  swap_hop amount (some (reserve_in, reserve_out)) =
      positive (quote_v2_swap amount reserve_in reserve_out fee_bps)

  unfoldable pub ask_hop : Option ℕ → Option (ℕ × ℕ) → Option ℕ
  unfolding get_amount_in
  ask_hop none r = none
  ask_hop (some amount) none = none
  ask_hop (some amount) (some (reserve_in, reserve_out)) =
      positive (get_amount_in amount reserve_in reserve_out fee_bps)

  -- `_compute_path` for a sale, from the token `a` on.
  unfoldable pub sell_walk : ℕ → String → List String → Option ℕ
  unfolding swap_hop
  sell_walk amount a [] = some amount
  sell_walk amount a (b ∷ path) = elim (swap_hop amount (reserves a b)) [
    | none ↦ none
    | some out ↦ sell_walk out b path
  ]

  -- `_compute_path` for a purchase.
  unfoldable pub buy_walk : ℕ → String → List String → Option ℕ
  unfolding ask_hop
  buy_walk amount a [] = some amount
  buy_walk amount a (b ∷ path) = let rest = buy_walk amount b path in ask_hop rest (reserves a b)
