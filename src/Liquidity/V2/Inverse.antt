-- ===== src/Liquidity/V2/Inverse.antt =====
-- About the two walks of src/liquidity/v2.py: what a purchase asks for, sold along the same path.
use cow_solver_skeleton.Prelude.{
  ℕ, ◌+◌, ◌-◌, ◌*◌, ◌/◌, ◌≤◌, ◌<◌, String, ◌||◌, ◌≡◌, refl, sym, Option, none, some, some-injective,
  none-ne-some, List, [], ◌∷◌, leb, ◌==◌, Bool-cases, inl, inr, arith, lt-div, le-div,
}
use native.Mathlib.Nat.{mul-le-mul_left, mul-le-mul_right}
use cow_solver_skeleton.Routing.AmmV2.{quote_v2_swap}
use cow_solver_skeleton.Routing.AmmV2.Invariant.{quote_v2_swap-bounded, paid_for}
use cow_solver_skeleton.Liquidity.V2.Walk.{
  get_amount_in, Reserves, positive, swap_hop, ask_hop, sell_walk, buy_walk,
}

within : (i p s out : ℕ) → out * (i * 10_000) ≤ p * s → out * (i * 10_000 + p) ≤ p * (out + s)
within i p s out h = omega (arith, h)

rest_of : (out r : ℕ) → out < r → out + (r - out) ≡ r
rest_of out r h = omega arith

pos_mul : (x y : ℕ) → 0 < x → 0 < y → 0 < x * y
pos_mul x y hx hy = omega (arith, hx, mul-le-mul_left x hy)

enough :
    (i p q s out : ℕ) → (i * 10_000 + p) * out ≤ p * (out + s) → p ≤ q → out * (i * 10_000) ≤ q * s
enough i p q s out h le = omega (arith, h, mul-le-mul_right s le)

enough_left :
    (i p q r out : ℕ)
    → (i * 10_000 + p) * out ≤ p * r
    → out < r
    → p ≤ q
    → out * (i * 10_000) ≤ q * (r - out)
enough_left i p q r out h less le =
    enough i p q (r - out) out (rw (sym (rest_of out r less)) at h) le

below : (x n d w : ℕ) → x < n * (d * w) → x ≤ n * w * d
below x n d w h = omega (arith, h)

module _ (i r f : ℕ) (fee : f < 10_000) (pos_i : 0 < i) (pos_r : 0 < r) where
  -- A swap pays at least `out` where the product of the reserves allows it.
  pays :
      (a out : ℕ)
      → 0 < a
      → out < r
      → out * (i * 10_000) ≤ a * (10_000 - f) * (r - out)
      → out ≤ quote_v2_swap a i r f
  unfolding quote_v2_swap
  pays a out pos_a less h = elim (Bool-cases (a == 0 || (i == 0 || r == 0))) [
    | inl none_in ↦ absurd (ground (arith, none_in, pos_a, pos_i, pos_r))
    | inr swap ↦ rw swap (
        le-div (a * (10_000 - f) * r) out (i * 10_000 + a * (10_000 - f)) (omega (arith, pos_i))
          (rw (rest_of out r less) at (within i (a * (10_000 - f)) (r - out) out h)))
  ]

  -- A larger sale pays no less.
  monotone : (a b : ℕ) → 0 < a → a ≤ b → quote_v2_swap a i r f ≤ quote_v2_swap b i r f
  monotone a b pos_a le =
      pays b (quote_v2_swap a i r f) (omega (arith, pos_a, le))
        (quote_v2_swap-bounded a i r f pos_i pos_r)
        (enough_left i (a * (10_000 - f)) (b * (10_000 - f)) r (quote_v2_swap a i r f)
          (paid_for a i r f) (quote_v2_swap-bounded a i r f pos_i pos_r)
          (mul-le-mul_right (10_000 - f) le))

asked : (a i r f : ℕ) → 0 < get_amount_in a i r f → (0 < a) × (0 < i) × (a < r)
unfolding get_amount_in
asked a i r f h = ground (arith, h)

none_asked : 0 < 0 → ⊥
none_asked h = omega arith

rescaled : (a i y : ℕ) → i * a * 10_000 < y → a * (i * 10_000) < y
rescaled a i y h = omega (arith, h)

asked_enough :
    (a i r f : ℕ)
    → f < 10_000
    → 0 < i
    → a < r
    → 0 < get_amount_in a i r f
    → a * (i * 10_000) ≤ get_amount_in a i r f * (10_000 - f) * (r - a)
unfolding get_amount_in
asked_enough a i r f fee pos_i less h =
    elim (Bool-cases (a == 0 || (i == 0 || (r == 0 || leb r a)))) [
      | inl nothing ↦ absurd (none_asked (rw nothing at h))
      | inr asks ↦ rw asks (
          below (a * (i * 10_000)) (i * a * 10_000 / ((r - a) * (10_000 - f)) + 1) (r - a)
            (10_000 - f)
            (rescaled a i _ (
              lt-div (i * a * 10_000) (i * a * 10_000 / ((r - a) * (10_000 - f)) + 1)
                ((r - a) * (10_000 - f))
                (pos_mul (r - a) (10_000 - f) (omega (arith, less)) (omega (arith, fee)))
                (omega arith))))
    ]

-- The amount that is asked for one hop yields at least the wanted amount there.
pub get_amount_in-pays :
    (a i r f : ℕ)
    → f < 10_000
    → 0 < get_amount_in a i r f
    → a ≤ quote_v2_swap (get_amount_in a i r f) i r f
unfolding get_amount_in
get_amount_in-pays a i r f fee h =
    let (pos_a, pos_i, less) = asked a i r f h in
    pays i r f fee pos_i (omega (arith, less)) (get_amount_in a i r f) a h less
      (asked_enough a i r f fee pos_i less h)

positive-inv : (n m : ℕ) → positive n ≡ some m → (n ≡ m) × (0 < n)
positive-inv n m h = elim (Bool-cases (n == 0)) [
  | inl e ↦ absurd (none-ne-some (rw e at h))
  | inr e ↦ (some-injective (rw e at h), ground (arith, e))
]

positive_lem : (n : ℕ) → 0 < n → positive n ≡ some n
positive_lem n h = ground arith

module _ (reserves : Reserves) (f : ℕ) (fee : f < 10_000) where
  -- A sale of `n` through `r` pays at least `m`.
  Pays : ℕ → ℕ → Option (ℕ × ℕ) → Type 0
  Pays n m r = (out : ℕ) × (swap_hop reserves f n r ≡ some out) × (m ≤ out)

  ask_hop-swap_hop :
      (m n k : ℕ) (r : Option (ℕ × ℕ)) → ask_hop reserves f (some m) r ≡ some n → n ≤ k → Pays k m r
  unfolding ask_hop swap_hop Pays
  ask_hop-swap_hop m n k none h le = absurd (none-ne-some h)
  ask_hop-swap_hop m n k (some (i, r)) h le =
      let (same, asks) = positive-inv (get_amount_in m i r f) n h in
      let (pos_m, pos_i, less) = asked m i r f asks in
      let paid = get_amount_in-pays m i r f fee asks in
      let more =
        monotone i r f fee pos_i (omega (arith, less)) (get_amount_in m i r f) k asks
          (omega (arith, same, le)) in
      (
        quote_v2_swap k i r f,
        positive_lem (quote_v2_swap k i r f) (omega (arith, pos_m, paid, more)),
        omega (arith, paid, more),
      )

  ask_hop-inv :
      (rest : Option ℕ) (r : Option (ℕ × ℕ)) (n : ℕ)
      → ask_hop reserves f rest r ≡ some n
      → (m : ℕ) × (rest ≡ some m)
  unfolding ask_hop
  ask_hop-inv none r n h = absurd (none-ne-some h)
  ask_hop-inv (some m) r n h = (m, refl)

  buy_walk-yields :
      (path : List String) (a : String) (amount n k : ℕ)
      → buy_walk reserves f amount a path ≡ some n
      → n ≤ k
      → (out : ℕ) × (sell_walk reserves f k a path ≡ some out) × (amount ≤ out)
  unfolding buy_walk sell_walk Pays
  buy_walk-yields [] a amount n k h le = (k, refl, omega (arith, some-injective h, le))
  buy_walk-yields (b ∷ path) a amount n k h le =
      let (m, asks) = ask_hop-inv (buy_walk reserves f amount b path) (reserves a b) n h in
      let (out, paid, over) = ask_hop-swap_hop m n k (reserves a b) (rw asks at h) le in
      let (last, walked, met) = buy_walk-yields path b amount m out asks over in
      (last, rw (paid, sell_walk) walked, met)

  -- Where the fee is less than the whole, the amount that the backward walk asks for at the start
  -- of a path yields at least the wanted amount when it is sold along the path.
  pub buy_walk-sell_walk :
      (path : List String) (a : String) (amount n : ℕ)
      → buy_walk reserves f amount a path ≡ some n
      → (out : ℕ) × (sell_walk reserves f n a path ≡ some out) × (amount ≤ out)
  buy_walk-sell_walk path a amount n h = buy_walk-yields path a amount n n h (omega arith)
