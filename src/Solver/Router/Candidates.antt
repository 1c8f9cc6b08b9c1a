-- ===== src/Solver/Router/Candidates.antt =====
-- The candidate paths of src/solver/router.py.
use cow_solver_skeleton.Prelude.{
  ℕ, ◌*◌, ◌/◌, ◌^◌, String, Bool, true, false, ◌&&◌, ◌||◌, none, some, List, [], ◌∷◌, ◌++◌, map,
  lower, ltb, ◌=ₛ◌, if◌then◌else◌,
}
use cow_solver_skeleton.Model.{Kind, sell, buy, Order}
use cow_solver_skeleton.Routing.V3Batched.{V3Path, fee_tiers}
use cow_solver_skeleton.Routing.V4Quoter.{V4Path, make_v4_paths, make_v4_native_paths}
use cow_solver_skeleton.Routing.CurveQuoter.{CurvePath, make_curve_paths}

abbrev pub is_sell : Kind → Bool
is_sell sell = true
is_sell buy = false

abbrev pub is_buy : Kind → Bool
is_buy sell = false
is_buy buy = true

module _ {A B : Type 0} where
  -- Nested `for` loops that append: the results of `f` in the order of the list.
  abbrev pub flat_map : (A → List B) → List A → List B
  flat_map f [] = []
  flat_map f (x ∷ xs) = f x ++ flat_map f xs

direct_paths : Order → ℕ → List V3Path
direct_paths order amt =
    map
      (λ fee. record {
        order_uid = order.uid;
        token_in = order.sell_token;
        token_out = order.buy_token;
        amount_in = amt;
        fee_tier_in = fee;
        intermediate = none;
        fee_tier_out = none;
        exact_output = is_buy order.kind;
      })
      fee_tiers

hop_paths : Order → ℕ → String → List V3Path
unfolding lower
hop_paths order amt mid =
    if lower mid =ₛ lower order.sell_token || lower mid =ₛ lower order.buy_token
    then []
    else map
        (λ fee. record {
          order_uid = order.uid;
          token_in = order.sell_token;
          token_out = order.buy_token;
          amount_in = amt;
          fee_tier_in = fee;
          intermediate = some mid;
          fee_tier_out = some fee;
          exact_output = is_buy order.kind;
        })
        fee_tiers

-- A partially fillable sell order is quoted whole and at three quarters and half.
abbrev sell_amounts : Order → List ℕ
sell_amounts order =
    if order.partially_fillable
    then order.sell_amount ∷ 3 * order.sell_amount / 4 ∷ order.sell_amount / 2 ∷ []
    else order.sell_amount ∷ []

unfoldable pub amounts_to_quote : Order → List ℕ
amounts_to_quote order = elim order.kind [ sell ↦ sell_amounts order | buy ↦ order.buy_amount ∷ [] ]

order_paths : List String → Order → List V3Path
unfolding direct_paths hop_paths amounts_to_quote
order_paths intermediates order =
    flat_map (λ amt. direct_paths order amt ++ flat_map (hop_paths order amt) intermediates)
      (amounts_to_quote order)

unfoldable pub build_v3_candidate_paths : List String → List Order → List V3Path
unfolding order_paths
build_v3_candidate_paths intermediates = flat_map (order_paths intermediates)

-- V4 carries amounts as uint128, so larger ones are skipped.
v4_order_paths : Order → List V4Path
v4_order_paths order = elim order.kind [
  | sell ↦
      flat_map
        (λ amt.
          if ltb amt (2 ^ 128)
          then make_v4_paths order.uid order.sell_token order.buy_token amt
          else [])
        (sell_amounts order)
  | buy ↦ []
]

unfoldable pub build_v4_candidate_paths : List Order → List V4Path
unfolding v4_order_paths
build_v4_candidate_paths = flat_map v4_order_paths

-- The probe of the native pools, inside `_solve_v3_batched`.
native_probe : Order → List V4Path
native_probe order =
    if is_sell order.kind && ltb order.sell_amount (2 ^ 128)
    then make_v4_native_paths order.uid order.sell_token order.buy_token order.sell_amount
    else []

unfoldable pub native_probe_paths : List Order → List V4Path
unfolding native_probe
native_probe_paths = flat_map native_probe

curve_order_paths : Order → List CurvePath
curve_order_paths order = elim order.kind [
  | sell ↦
      flat_map (λ amt. make_curve_paths order.uid order.sell_token order.buy_token amt)
        (sell_amounts order)
  | buy ↦ []
]

unfoldable pub build_curve_candidate_paths : List Order → List CurvePath
unfolding curve_order_paths
build_curve_candidate_paths = flat_map curve_order_paths
