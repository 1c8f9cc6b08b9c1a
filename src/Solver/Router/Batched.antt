-- ===== src/Solver/Router/Batched.antt =====
-- `_solve_v3_batched`, `_funding_gate` and `solve` of src/solver/router.py.
pub mod Settles
pub mod Funded
use cow_solver_skeleton.Prelude.{
  ℕ, ◌+◌, ◌*◌, ◌^◌, String, Bool, true, false, not, ◌&&◌, Option, none, some, List, [], ◌∷◌, ◌++◌,
  map, filter, take, length, text_mem, ltb, ◌==◌, if◌then◌else◌, other_error, Result, ok, err,
  ◌>>=◌,
}
use cow_solver_skeleton.Dict.{Dict}
use cow_solver_skeleton.Model.{
  Order, Auction, Trade, Solution, WireInteraction, Outcome, solution, no_solution,
}
use cow_solver_skeleton.Encoder.Bytes.{int_of_text, hex}
use cow_solver_skeleton.Routing.Multicall.{Multicall3}
use cow_solver_skeleton.Routing.V3Batched.{V3BatchedQuote, batched_v3_quote}
use cow_solver_skeleton.Routing.V4Quoter.{V4BatchedQuote, batched_v4_quote}
use cow_solver_skeleton.Routing.CurveQuoter.{CurveQuote, batched_curve_quote}
use cow_solver_skeleton.Liquidity.Source.{LiquiditySource}
use cow_solver_skeleton.Solver.Quotes.{RouteQuote, v3, v4, curve}
use cow_solver_skeleton.Solver.Ranking.{rank}
use cow_solver_skeleton.Solver.Route.{Settlement}
use cow_solver_skeleton.Solver.OrderValidity.{Reason, filter_valid_orders, gpv2_vault_relayer}
use cow_solver_skeleton.Solver.Router.Candidates.{
  build_v3_candidate_paths, build_v4_candidate_paths, native_probe_paths,
  build_curve_candidate_paths,
}
use cow_solver_skeleton.Solver.Router.Draft.{Draft, empty_draft, fill_orders}
use cow_solver_skeleton.Solver.Router.Fallback.{fill_v2_fallback}
use cow_solver_skeleton.Solver.Router.Legacy.{legacy_book}

-- The fields of `RouterSolver`, with the settings that it reads. `is_ghost` is the detector of the
-- private submodule, `search` the path search of the legacy mode.
pub record Router : Type 0 where
  pub multicall : Multicall3
  pub settlement : Settlement
  pub intermediates : List String
  pub max_orders : ℕ
  pub v3_only_batched : Bool
  pub v2_fallback_enabled : Bool
  pub v2_sources : List LiquiditySource
  pub is_ghost : Option (Order → Result Bool)
  pub order_validity_filter : Bool
  pub v4_enabled : Bool
  pub v4_native_probe : Bool
  pub v4_quoter_address : String
  pub curve_enabled : Bool
  pub search : Order → Option ℕ

abbrev from_v3 : V3BatchedQuote → RouteQuote
from_v3 q = record { path = v3 q.path; amount_out = q.amount_out }

abbrev from_v4 : V4BatchedQuote → RouteQuote
from_v4 q = record { path = v4 q.path; amount_out = q.amount_out }

abbrev from_curve : CurveQuote → RouteQuote
from_curve q = record { path = curve q.path; amount_out = q.amount_out }

-- A failed V4 or Curve pass costs only its own quotes. Probe quotes, and amounts beyond uint128,
-- never join the selection.
usable_v4 : Result (List V4BatchedQuote) → List RouteQuote
usable_v4 (err e) = []
usable_v4 (ok qs) =
    map from_v4 (filter (λ q. not q.path.native_side && ltb q.amount_out (2 ^ 128)) qs)

usable_curve : Result (List CurveQuote) → List RouteQuote
usable_curve (err e) = []
usable_curve (ok qs) = map from_curve qs

-- All quotes of the batched solve, in the order in which they compete; an error is that of V3.
unfoldable pub gather_quotes : Router → List Order → Result (List RouteQuote)
unfolding usable_v4 usable_curve
gather_quotes r orders =
    let probe = if r.v4_native_probe then native_probe_paths orders else [] in
    let v4_paths = if r.v4_enabled then build_v4_candidate_paths orders ++ probe else [] in
    let curve_paths = if r.curve_enabled then build_curve_candidate_paths orders else [] in
    do
      quotes ← batched_v3_quote r.multicall (build_v3_candidate_paths r.intermediates orders)
      ok (
          map from_v3 quotes
          ++ (usable_v4 (batched_v4_quote r.multicall r.v4_quoter_address v4_paths)
              ++ usable_curve (batched_curve_quote r.multicall curve_paths)))

-- `assert auction.id is not None`, then `int(auction.id)`
unfoldable pub auction_number : Option String → Result ℕ
auction_number none = err (other_error "must not run for quote-only auctions")
auction_number (some text) = int_of_text text

-- The closing of a solve: no trades are no solution.
unfoldable pub publish : Auction → List Trade → Dict ℕ → List WireInteraction → Result Outcome
unfolding auction_number
publish auction [] prices interactions = ok no_solution
publish auction (t ∷ ts) prices interactions = do
  number ← auction_number auction.id
  ok (
      solution
        (record { id = number; prices = prices; trades = t ∷ ts; interactions = interactions }))

wants_fallback : Router → List Order → Draft → Bool
wants_fallback r orders d =
    r.v2_fallback_enabled && (ltb 0 (length r.v2_sources) && ltb (length d.filled) (length orders))

after_fallback : Router → List Order → Draft → Result Draft
unfolding wants_fallback
after_fallback r orders d =
    if wants_fallback r orders d
    then fill_v2_fallback r.settlement.gpv2_settlement r.v2_sources d orders
    else ok d

solve_with_quotes : Router → ℕ → Auction → List Order → Result (List RouteQuote) → Result Outcome
unfolding after_fallback
solve_with_quotes r deadline auction orders (err e) = ok no_solution
solve_with_quotes r deadline auction orders (ok quotes) = do
  d ← fill_orders r.settlement deadline quotes empty_draft orders
  d' ← after_fallback r orders d
  publish auction d'.trades d'.prices d'.interactions

-- `now` is `int(time.time())`; the swap deadline is a minute later.
unfoldable pub solve_v3_batched : Router → ℕ → Auction → List Order → Result Outcome
unfolding solve_with_quotes
solve_v3_batched r now auction orders =
    if length (build_v3_candidate_paths r.intermediates orders) == 0
    then ok no_solution
    else solve_with_quotes r (now + 60) auction orders (gather_quotes r orders)

unfoldable pub solve_legacy : Router → Auction → List Order → Result Outcome
solve_legacy r auction orders =
    let (trades, prices) = legacy_book r.search orders in publish auction trades prices []

-- `hex(sim) if sim is not None and sim > 0 else "latest"`
unfoldable pub block_of : Auction → String
block_of auction = elim auction.simulation_block [
  | none ↦ "latest"
  | some sim ↦ if ltb 0 sim then hex sim else "latest"
]

drop_ghosts : (Order → Result Bool) → List Order → Result (List Order)
drop_ghosts is_ghost [] = ok []
drop_ghosts is_ghost (o ∷ os) = do
  ghost ← is_ghost o
  rest ← drop_ghosts is_ghost os
  ok (if ghost then rest else o ∷ rest)

unfoldable pub without_ghosts : Option (Order → Result Bool) → List Order → Result (List Order)
unfolding drop_ghosts
without_ghosts none orders = ok orders
without_ghosts (some is_ghost) orders = drop_ghosts is_ghost orders

unfoldable pub candidates : Router → Auction → List Order → List Order
unfolding block_of
candidates r auction ranked =
    if r.order_validity_filter
    then take r.max_orders
        (filter_valid_orders r.multicall r.settlement.gpv2_settlement gpv2_vault_relayer
          (block_of auction) (take (r.max_orders * 3) ranked)).0
    else take r.max_orders ranked

-- Any provably dead order rejects the whole solution.
unless_dropped : Solution → Dict Reason → Outcome
unless_dropped sol [] = solution sol
unless_dropped sol (d ∷ ds) = no_solution

gate_orders : Router → Auction → Solution → List Order → Outcome
unfolding block_of unless_dropped
gate_orders r auction sol [] = solution sol
gate_orders r auction sol (o ∷ os) =
    unless_dropped sol
      (filter_valid_orders r.multicall r.settlement.gpv2_settlement gpv2_vault_relayer
        (block_of auction) (o ∷ os)).1

unfoldable pub funding_gate : Router → Auction → Outcome → Outcome
unfolding gate_orders
funding_gate r auction no_solution = no_solution
funding_gate r auction (solution sol) =
    if r.order_validity_filter
    then gate_orders r auction sol
        (filter (λ o. text_mem o.uid (map (λ t. t.order_uid) sol.trades)) auction.orders)
    else solution sol

solve_candidates : Router → ℕ → Auction → List Order → Result Outcome
unfolding solve_v3_batched solve_legacy
solve_candidates r now auction [] = ok no_solution
solve_candidates r now auction (o ∷ os) =
    if r.v3_only_batched
    then solve_v3_batched r now auction (o ∷ os)
    else solve_legacy r auction (o ∷ os)

-- `RouterSolver.solve`
unfoldable pub solve : Router → ℕ → Auction → Result Outcome
unfolding without_ghosts candidates solve_candidates funding_gate
solve r now auction = elim auction.id [
  | none ↦ err (other_error "router must not run for quote-only auctions")
  | some _ ↦ do
    kept ← without_ghosts r.is_ghost auction.orders
    result ← solve_candidates r now auction (candidates r auction (rank auction kept))
    ok (funding_gate r auction result)
]
