-- ===== src/Routing/AmmV2/Invariant.antt =====
-- About `quote_v2_swap` of src/routing/amm_v2.py.
use cow_solver_skeleton.Prelude.{
  ℕ, ◌+◌, ◌-◌, ◌*◌, ◌≤◌, ◌<◌, ◌≡◌, sym, arith, ◌||◌, ◌==◌, div-lt, Bool-cases, inl, inr,
}
use native.Mathlib.Nat.{mul-div-le, mul-le-mul_left, mul-le-mul_right}
use cow_solver_skeleton.Routing.AmmV2.{quote_v2_swap}

not_all : (p i r : ℕ) → 0 < i → 0 < r → p * r < r * (i * 10_000 + p)
not_all p i r pos_i pos_r = omega (arith, mul-le-mul_right i pos_r)

-- A swap at a V2 pool with positive reserves pays less than the reserve.
pub quote_v2_swap-bounded :
    (amount_in reserve_in reserve_out fee_bps : ℕ)
    → 0 < reserve_in
    → 0 < reserve_out
    → quote_v2_swap amount_in reserve_in reserve_out fee_bps < reserve_out
unfolding quote_v2_swap
quote_v2_swap-bounded a i r f pos_i pos_r = elim (Bool-cases (a == 0 || (i == 0 || r == 0))) [
  | inl none_in ↦ rw none_in pos_r
  | inr swap ↦ rw swap (
      div-lt (a * (10_000 - f) * r) r (i * 10_000 + a * (10_000 - f)) (omega (arith, pos_i))
        (not_all (a * (10_000 - f)) i r pos_i pos_r))
]

kept_product :
    (a i out s w : ℕ)
    → (i * 10_000 + a * w) * out ≤ a * w * (out + s)
    → w ≤ 10_000
    → i * (out + s) ≤ (i + a) * s
kept_product a i out s w h le = omega (arith, h, mul-le-mul_left (a * s) le)

kept_rest :
    (a i r out w : ℕ)
    → (i * 10_000 + a * w) * out ≤ a * w * r
    → w ≤ 10_000
    → out < r
    → i * r ≤ (i + a) * (r - out)
kept_rest a i r out w h le less =
    rw (whole out r less) at
      (kept_product a i out (r - out) w (rw (sym (whole out r less)) at h) le)
  where
    whole : (x y : ℕ) → x < y → x + (y - x) ≡ y
    whole x y h = omega arith

module _ (a i r f : ℕ) where
  abbrev paid : ℕ
  paid = quote_v2_swap a i r f

  pub paid_for : (i * 10_000 + a * (10_000 - f)) * quote_v2_swap a i r f ≤ a * (10_000 - f) * r
  unfolding quote_v2_swap
  paid_for = elim (Bool-cases (a == 0 || (i == 0 || r == 0))) [
    | inl nothing ↦ rw nothing (omega arith)
    | inr swap ↦ rw swap (mul-div-le (a * (10_000 - f) * r) (i * 10_000 + a * (10_000 - f)))
  ]

  -- A swap at a V2 pool with positive reserves does not lower the product of the reserves.
  pub quote_v2_swap-product : 0 < i → 0 < r → i * r ≤ (i + a) * (r - quote_v2_swap a i r f)
  quote_v2_swap-product pos_i pos_r =
      kept_rest a i r paid (10_000 - f) paid_for (omega arith)
        (quote_v2_swap-bounded a i r f pos_i pos_r)
