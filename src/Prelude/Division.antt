-- ===== src/Prelude/Division.antt =====
-- Division rounded up, and the laws of division that the rounding of amounts rests on.
use Prim.Native.Nat.{ℕ, ◌+◌, ◌-◌, ◌*◌, ◌/◌, ◌≤◌, ◌<◌}
use mathlib.Core.Path.{◌≡◌}
use native.Mathlib.Omega.{arith}
use native.Mathlib.Nat.{mul-div_cancel, le-div_iff_mul-le, div-lt_iff_lt-mul, div-mul-le_self}

-- `(a + b - 1) // b`
abbrev pub ceil_div : ℕ → ℕ → ℕ
ceil_div a b = (a + b - 1) / b

module _ (x y k : ℕ) (positive : 0 < k) where
  pub lt-div : x / k < y → x < y * k
  lt-div h = (div-lt_iff_lt-mul positive).0 h

  pub div-lt : x < y * k → x / k < y
  div-lt h = (div-lt_iff_lt-mul positive).1 h

  pub le-div : y * k ≤ x → y ≤ x / k
  le-div h = (le-div_iff_mul-le positive).1 h

  pub div-covers : y ≤ x / k → y * k ≤ x
  div-covers h = (le-div_iff_mul-le positive).0 h

module _ (a b q : ℕ) (positive : 0 < b) where
  -- The quotient rounded up is at most `q` exactly when `q` parts cover the amount.
  pub ceil_div-le : a ≤ q * b → ceil_div a b ≤ q
  ceil_div-le h = omega (arith, div-lt (a + b - 1) (q + 1) b positive (omega (arith, h, positive)))

  pub ceil_div-covers : ceil_div a b ≤ q → a ≤ q * b
  ceil_div-covers h =
      omega (arith, lt-div (a + b - 1) (q + 1) b positive (omega (arith, h)), positive)

  -- A rate that comes out exactly is not rounded.
  pub ceil_div-exact : a ≡ q * b → ceil_div a b ≡ q
  ceil_div-exact h = omega (
    arith,
    le-div (a + b - 1) q b positive (omega (arith, h, positive)),
    ceil_div-le (omega (arith, h)),
  )

  pub div-exact : a ≡ q * b → a / b ≡ q
  div-exact h = rw h (mul-div_cancel q positive)

module _ (a b : ℕ) (positive : 0 < b) where
  -- The quotient rounded up covers the amount, and by less than one part too much.
  pub ceil_div-lower : a ≤ ceil_div a b * b
  ceil_div-lower = ceil_div-covers a b (ceil_div a b) positive (omega arith)

  pub ceil_div-upper : ceil_div a b * b ≤ a + b - 1
  ceil_div-upper = div-mul-le_self (a + b - 1) b

module _ (x y k : ℕ) (positive : 0 < k) where
  pub cancel_le : x * k ≤ y * k → x ≤ y
  cancel_le h = rw (mul-div_cancel y positive) at (le-div (y * k) x k positive h)

  pub cancel_lt : x * k < y * k → x < y
  cancel_lt h = rw (mul-div_cancel x positive) at (div-lt (x * k) y k positive h)
