-- ===== src/Encoder/Slippage.antt =====
-- The slippage bounds of src/encoder/v3.py. The settings' validator keeps `slippage_bps` below
-- 10_000 (src/config.py), so the difference below is never cut off at 0.
pub mod Bounds
use cow_solver_skeleton.Prelude.{ℕ, ◌+◌, ◌-◌, ◌*◌, ◌/◌, ◌≤◌, ◌<◌, ◌≡◌, arith}

unfoldable pub apply_slippage_down : ℕ → ℕ → ℕ
apply_slippage_down amount slippage_bps = amount * (10_000 - slippage_bps) / 10_000

unfoldable pub apply_slippage_up : ℕ → ℕ → ℕ
apply_slippage_up amount slippage_bps = (amount * (10_000 + slippage_bps) + 9_999) / 10_000
