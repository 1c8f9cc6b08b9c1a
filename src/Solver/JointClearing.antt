-- ===== src/Solver/JointClearing.antt =====
-- src/solver/joint_clearing.py: sell orders of one token pair, cleared together by one swap.
pub mod Groups
pub mod Limits
pub mod Settled
pub mod Solved
use cow_solver_skeleton.Prelude.{
  ℕ, ◌+◌, ◌*◌, String, Bool, true, false, not, ◌&&◌, ◌||◌, Option, none, some, List, [], ◌∷◌, ◌++◌,
  map, filter, take, length, text_mem, lower, ltb, leb, ◌==◌, ◌=ₛ◌, if◌then◌else◌, ceil_div,
  other_error, Result, ok, err, ◌>>=◌,
}
use cow_solver_skeleton.Dict.{Dict, get, put}
use cow_solver_skeleton.Model.{Kind, sell, buy, Order, Auction, Trade, Outcome, no_solution}
use cow_solver_skeleton.Encoder.Interaction.{to_gpv2_dict}
use cow_solver_skeleton.Routing.Multicall.{Multicall3}
use cow_solver_skeleton.Routing.V3Batched.{V3Path, V3BatchedQuote, batched_v3_quote}
use cow_solver_skeleton.Solver.Prices.{register_prices, conflicts}
use cow_solver_skeleton.Solver.Quotes.{RouteQuote, v3, select_best_quote_per_order}
use cow_solver_skeleton.Solver.Ranking.{rank}
use cow_solver_skeleton.Solver.Route.{Settlement, encode_path_interaction}
use cow_solver_skeleton.Solver.Router.Candidates.{build_v3_candidate_paths}
use cow_solver_skeleton.Solver.Router.Draft.{Draft, empty_draft, fill, add_uid}
use cow_solver_skeleton.Solver.Router.Batched.{publish, without_ghosts}
use Groups.{Group, group_orders, joint_pairs, combined_sell, build_group_paths, is_group_path}
use Limits.{all_limits_satisfied}

-- The fields of `JointClearingSolver` that `solve` reads, with those of its router.
pub record JointClearing : Type 0 where
  pub multicall : Multicall3
  pub settlement : Settlement
  pub intermediates : List String
  pub max_orders : ℕ
  pub min_group_size : ℕ
  pub is_ghost : Option (Order → Result Bool)

is_joint_quote : String → String → V3BatchedQuote → Bool
unfolding lower is_group_path
is_joint_quote sell_tok buy_tok q =
    is_group_path q.path
    && (lower q.path.token_in =ₛ sell_tok && lower q.path.token_out =ₛ buy_tok)
    && ltb 0 q.amount_out

keep_better : Option V3BatchedQuote → V3BatchedQuote → Option V3BatchedQuote
keep_better none q = some q
keep_better (some best) q = if ltb best.amount_out q.amount_out then some q else some best

best_of : Option V3BatchedQuote → List V3BatchedQuote → Option V3BatchedQuote
unfolding keep_better
best_of best [] = best
best_of best (q ∷ qs) = best_of (keep_better best q) qs

-- `_best_joint_quote`
unfoldable pub best_joint_quote : List V3BatchedQuote → String → String → Option V3BatchedQuote
unfolding best_of is_joint_quote
best_joint_quote quotes sell_tok buy_tok =
    best_of none (filter (is_joint_quote sell_tok buy_tok) quotes)

-- The trades of a settled group, and their uids.
unfoldable pub add_trades : List Order → Draft → Draft
add_trades [] d = d
add_trades (o ∷ os) d =
    add_trades os
      (record d { trades = d.trades ++ fill o o.sell_amount ∷ []; filled = add_uid o.uid d.filled })

module _ (s : Settlement) (deadline : ℕ) where
  settle_group : Draft → Group → V3BatchedQuote → Result Draft
  unfolding add_trades
  settle_group d g best =
      let sold = combined_sell g.orders in
      do
        calls ← encode_path_interaction s (v3 best.path) sold best.amount_out deadline
        ok (
            add_trades g.orders (record d {
              prices = put (put d.prices g.sell_tok best.amount_out) g.buy_tok sold;
              interactions = d.interactions ++ map to_gpv2_dict calls;
            }))

  group_conflicts : Draft → Group → ℕ → Bool
  group_conflicts d g combined_buy =
      conflicts (get d.prices g.sell_tok) combined_buy
      || conflicts (get d.prices g.buy_tok) (combined_sell g.orders)

  try_group : Draft → Group → Option V3BatchedQuote → Result Draft
  unfolding settle_group group_conflicts
  try_group d g none = ok d
  try_group d g (some best) =
      if not (all_limits_satisfied g.orders (combined_sell g.orders) best.amount_out)
      then ok d
      else if group_conflicts d g best.amount_out
      then ok d
      else settle_group d g best

  -- Step 5a: the loop over the groups.
  unfoldable pub settle_groups : List V3BatchedQuote → Draft → List Group → Result Draft
  unfolding try_group
  settle_groups quotes d [] = ok d
  settle_groups quotes d (g ∷ gs) = do
    d' ← try_group d g (best_joint_quote quotes g.sell_tok g.buy_tok)
    settle_groups quotes d' gs

  emit_single : Draft → Order → RouteQuote → Result Draft
  emit_single d o q = elim (register_prices d.prices o q.amount_out o.sell_amount) [
    | none ↦ ok d
    | some prices ↦ do
      calls ← encode_path_interaction s q.path o.sell_amount q.amount_out deadline
      ok (record {
        trades = d.trades ++ fill o o.sell_amount ∷ [];
        prices = prices;
        interactions = d.interactions ++ map to_gpv2_dict calls;
        filled = add_uid o.uid d.filled;
      })
  ]

  single_order : Draft → Order → Option RouteQuote → Result Draft
  unfolding emit_single
  single_order d o none = ok d
  single_order d o (some q) = elim o.kind [
    | buy ↦ ok d
    | sell ↦ if ltb q.amount_out o.buy_amount then ok d else emit_single d o q
  ]

  -- Step 5b: the orders that no group has filled.
  unfoldable pub settle_singles : Dict RouteQuote → Draft → List Order → Result Draft
  unfolding single_order
  settle_singles best_per_order d [] = ok d
  settle_singles best_per_order d (o ∷ os) = do
    d' ← single_order d o (get best_per_order o.uid)
    settle_singles best_per_order d' os

abbrev from_v3 : V3BatchedQuote → RouteQuote
from_v3 q = record { path = v3 q.path; amount_out = q.amount_out }

abbrev individual_quotes : List V3BatchedQuote → List RouteQuote
individual_quotes quotes = map from_v3 (filter (λ q. not (is_group_path q.path)) quotes)

-- Step 5, with the quotes; a failed batch is no solution.
build :
    JointClearing
    → ℕ
    → Auction
    → List Order
    → List Group
    → Result (List V3BatchedQuote)
    → Result Outcome
unfolding settle_groups settle_singles
build j deadline auction orders groups (err e) = ok no_solution
build j deadline auction orders groups (ok quotes) = do
  d ← settle_groups j.settlement deadline quotes empty_draft groups
  d' ←
      settle_singles j.settlement deadline
        (select_best_quote_per_order (individual_quotes quotes) none) d
        (filter (λ o. not (text_mem o.uid d.filled)) orders)
  publish auction d'.trades d'.prices d'.interactions

solve_orders : JointClearing → ℕ → Auction → List Order → Result Outcome
unfolding build
solve_orders j now auction [] = ok no_solution
solve_orders j now auction (o ∷ os) =
    let groups = joint_pairs j.min_group_size (group_orders [] (o ∷ os)) in
    let paths =
      build_v3_candidate_paths j.intermediates (o ∷ os)
      ++ build_group_paths j.intermediates groups in
    if length paths == 0
    then ok no_solution
    else build j (now + 60) auction (o ∷ os) groups (batched_v3_quote j.multicall paths)

-- `JointClearingSolver.solve`
unfoldable pub solve : JointClearing → ℕ → Auction → Result Outcome
unfolding solve_orders
solve j now auction = elim auction.id [
  | none ↦ err (other_error "joint-clearing must not run for quote-only auctions")
  | some _ ↦ do
    kept ← without_ghosts j.is_ghost auction.orders
    solve_orders j now auction (take j.max_orders (rank auction kept))
]
