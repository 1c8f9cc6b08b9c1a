-- ===== src/Routing/AmmV2.antt =====
-- `quote_v2_swap` of src/routing/amm_v2.py: the constant-product swap of a V2 pool. The settings
-- keep the fee below 10_000 (the calls pass 30).
pub mod Invariant
pub mod Pools
use cow_solver_skeleton.Prelude.{ℕ, ◌+◌, ◌-◌, ◌*◌, ◌/◌, ◌||◌, ◌==◌, if◌then◌else◌}

unfoldable pub quote_v2_swap : ℕ → ℕ → ℕ → ℕ → ℕ
quote_v2_swap amount_in reserve_in reserve_out fee_bps =
    if amount_in == 0 || (reserve_in == 0 || reserve_out == 0)
    then 0
    else amount_in
      * (10_000 - fee_bps)
      * reserve_out
      / (reserve_in * 10_000 + amount_in * (10_000 - fee_bps))
