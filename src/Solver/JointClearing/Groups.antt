-- ===== src/Solver/JointClearing/Groups.antt =====
-- The grouping of src/solver/joint_clearing.py, and the candidate paths of a group.
use Prim.Native.String.{◌++◌ as ◌++ₛ◌}
use text.Mathlib.Text.{starts_with}
use cow_solver_skeleton.Prelude.{
  ℕ, ◌+◌, String, Bool, false, not, ◌&&◌, ◌||◌, none, some, List, [], ◌∷◌, ◌++◌, filter, length,
  lower, leb, ◌=ₛ◌, if◌then◌else◌,
}
use cow_solver_skeleton.Model.{Order}
use cow_solver_skeleton.Encoder.Bytes.{take_text, str}
use cow_solver_skeleton.Routing.V3Batched.{V3Path, fee_tiers}
use cow_solver_skeleton.Solver.Router.Candidates.{is_sell, flat_map}

-- An entry of the dictionary `groups`: the lower-cased pair and its orders.
pub record Group : Type 0 where
  pub sell_tok : String
  pub buy_tok : String
  pub orders : List Order

-- `groups[_group_key(order)].append(order)`
unfoldable pub add_to_group : List Group → Order → List Group
unfolding lower
add_to_group [] o =
    record { sell_tok = lower o.sell_token; buy_tok = lower o.buy_token; orders = o ∷ [] } ∷ []
add_to_group (g ∷ gs) o =
    let rest = add_to_group gs o in
    if g.sell_tok =ₛ lower o.sell_token && g.buy_tok =ₛ lower o.buy_token
    then record g { orders = g.orders ++ o ∷ [] } ∷ gs
    else g ∷ rest

-- Only sell orders that must be filled whole are grouped.
unfoldable pub group_orders : List Group → List Order → List Group
unfolding add_to_group
group_orders groups [] = groups
group_orders groups (o ∷ os) =
    group_orders
      (if is_sell o.kind && not o.partially_fillable then add_to_group groups o else groups) os

unfoldable pub joint_pairs : ℕ → List Group → List Group
joint_pairs min_group_size groups = filter (λ g. leb min_group_size (length g.orders)) groups

-- `sum(o.sell_amount for o in group)`
abbrev pub combined_sell : List Order → ℕ
combined_sell [] = 0
combined_sell (o ∷ os) = o.sell_amount + combined_sell os

abbrev group_uid_prefix : String
group_uid_prefix = "__jc_group__"

unfoldable pub is_group_path : V3Path → Bool
is_group_path p = starts_with p.order_uid group_uid_prefix

uid_base : String → String → String
unfolding take_text
uid_base sell_tok buy_tok =
    group_uid_prefix ++ₛ (take_text 8 sell_tok ++ₛ ("_" ++ₛ take_text 8 buy_tok))

hop_path : String → String → ℕ → ℕ → String → List V3Path
unfolding uid_base lower str
hop_path sell_tok buy_tok combined fee mid =
    if lower mid =ₛ sell_tok || lower mid =ₛ buy_tok
    then []
    else record {
      order_uid = uid_base sell_tok buy_tok ++ₛ ("_f" ++ₛ (str fee ++ₛ ("_m" ++ₛ take_text 8 mid)));
      token_in = sell_tok;
      token_out = buy_tok;
      amount_in = combined;
      fee_tier_in = fee;
      intermediate = some mid;
      fee_tier_out = some fee;
      exact_output = false;
    }
      ∷ []

direct_path : String → String → ℕ → ℕ → V3Path
unfolding uid_base str
direct_path sell_tok buy_tok combined fee = record {
  order_uid = uid_base sell_tok buy_tok ++ₛ ("_f" ++ₛ str fee);
  token_in = sell_tok;
  token_out = buy_tok;
  amount_in = combined;
  fee_tier_in = fee;
  intermediate = none;
  fee_tier_out = none;
  exact_output = false;
}

group_paths : List String → Group → List V3Path
unfolding direct_path hop_path
group_paths intermediates g =
    let combined = combined_sell g.orders in
    flat_map
      (λ fee.
        direct_path g.sell_tok g.buy_tok combined fee
        ∷ flat_map (hop_path g.sell_tok g.buy_tok combined fee) intermediates)
      fee_tiers

unfoldable pub build_group_paths : List String → List Group → List V3Path
unfolding group_paths
build_group_paths intermediates = flat_map (group_paths intermediates)
