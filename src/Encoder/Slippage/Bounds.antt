-- ===== src/Encoder/Slippage/Bounds.antt =====
-- About the slippage bounds of src/encoder/v3.py.
use cow_solver_skeleton.Prelude.{ℕ, ◌+◌, ◌-◌, ◌*◌, ◌≤◌, ◌<◌, arith}
use native.Mathlib.Nat.{mul-le-mul_left}
use cow_solver_skeleton.Encoder.Slippage.{apply_slippage_down, apply_slippage_up}

-- With a slippage of at most 10000 basis points, the padded minimum and maximum stand on either
-- side of the amount; the minimum is the exact bound rounded down, and the maximum the exact bound
-- rounded up.
pub slippage-brackets :
    (amount slippage_bps : ℕ)
    → slippage_bps ≤ 10_000
    → (apply_slippage_down amount slippage_bps ≤ amount)
      × (amount ≤ apply_slippage_up amount slippage_bps)
      × (apply_slippage_down amount slippage_bps * 10_000 ≤ amount * (10_000 - slippage_bps))
      × (amount * (10_000 - slippage_bps) < (apply_slippage_down amount slippage_bps + 1) * 10_000)
      × (amount * (10_000 + slippage_bps) ≤ apply_slippage_up amount slippage_bps * 10_000)
      × (apply_slippage_up amount slippage_bps * 10_000 < amount * (10_000 + slippage_bps) + 10_000)
unfolding apply_slippage_down apply_slippage_up
slippage-brackets amount bps le = (
  omega (arith, mul-le-mul_left amount (least bps)),
  omega (arith, mul-le-mul_left amount (most bps)),
  omega arith,
  omega arith,
  omega arith,
  omega arith,
)
  where
    least : (b : ℕ) → 10_000 - b ≤ 10_000
    least b = omega arith

    most : (b : ℕ) → 10_000 ≤ 10_000 + b
    most b = omega arith
