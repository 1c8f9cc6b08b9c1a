-- ===== src/Solver/Orchestrator.antt =====
-- src/solver/orchestrator.py: the strategies in turn, then composition, then the two gates. A
-- strategy is what its `solve` answers under `asyncio.wait_for`; the merging of candidates is in a
-- private submodule, so it is an argument, as is the simulator of the feasibility gate.
pub mod Gates
pub mod Answers
pub mod Live
use cow_solver_skeleton.Prelude.{
  ℕ, String, Bool, true, false, not, ◌&&◌, Option, none, some, List, [], ◌∷◌, ◌++◌, map, filter,
  length, lower, ltb, ◌==◌, ◌=ₛ◌, if◌then◌else◌, take, other_error, Result, ok, err, ◌>>=◌,
}
use Prim.Native.String.{◌++◌ as ◌++ₛ◌}
use cow_solver_skeleton.Dict.{Dict, put}
use cow_solver_skeleton.Model.{Token, Auction, Solution, Outcome, solution, no_solution}
use cow_solver_skeleton.Shadow.Scoring.{
  ScoredSolution, SignedOrder, compute_solution_score, orders_by_uid_from_auction,
}
use cow_solver_skeleton.Solver.Ebbo.{Market, EbboResult, validate_solution_ebbo}
use cow_solver_skeleton.Solver.Router.Batched.{auction_number}

pub data Status : Type 0 where
  solved nothing error timeout rejected : Status

pub record AttemptRecord : Type 0 where
  pub strategy : String
  pub status : Status
  pub latency_ms : Option ℕ
  pub solution : Option Solution
  pub error : Option String

-- How a call of a strategy ends. The text of a timeout holds its length.
pub data Answer : Type 0 where
  answered : Outcome → Answer
  timed_out : String → Answer
  raised : String → Answer

pub record Strategy : Type 0 where
  pub name : String
  pub run : Auction → Answer
  pub latency_ms : Auction → ℕ

pub record Candidate : Type 0 where
  pub strategy : String
  pub solution : Solution
  pub surplus_estimate : ℕ

-- The verdict of the feasibility gate: True, False or None with a reason, or an exception.
pub data Verdict : Type 0 where
  verdict : Option Bool → Option String → Verdict
  gate_timeout : Verdict
  gate_error : String → Verdict

-- The fields of `SolverOrchestrator`. `ebbo` is none where no multicall is plumbed, `edge` where the
-- submodule is missing.
pub record Orchestrator : Type 0 where
  pub strategies : List Strategy
  pub run_all : Bool
  pub compose : Bool
  pub edge : Option (List Candidate → ℕ → Result (Option Solution))
  pub ebbo : Option Market
  pub ebbo_tolerance_bps : ℕ
  pub feasibility_gate : Option (Solution → Verdict)

abbrev pub Attempts : Type 0
Attempts = List AttemptRecord

abbrev pub Winner : Type 0
Winner = String × Solution

attempt_of : Strategy → Auction → Answer → AttemptRecord
attempt_of s auction (answered (solution sol)) = record {
  strategy = s.name;
  status = solved;
  latency_ms = some (s.latency_ms auction);
  solution = some sol;
  error = none;
}
attempt_of s auction (answered no_solution) = record {
  strategy = s.name;
  status = nothing;
  latency_ms = some (s.latency_ms auction);
  solution = none;
  error = none;
}
attempt_of s auction (timed_out text) = record {
  strategy = s.name;
  status = timeout;
  latency_ms = some (s.latency_ms auction);
  solution = none;
  error = some text;
}
attempt_of s auction (raised text) = record {
  strategy = s.name;
  status = error;
  latency_ms = some (s.latency_ms auction);
  solution = none;
  error = some text;
}

winners_of : String → Answer → List Winner
winners_of name (answered (solution sol)) = (name, sol) ∷ []
winners_of name _ = []

has_won : List Winner → Bool
has_won [] = false
has_won (w ∷ ws) = true

-- The loop over the strategies: the records it appends, and the solutions in their order.
unfoldable pub run_strategies : Bool → Auction → List Strategy → Attempts × List Winner
unfolding attempt_of winners_of has_won
run_strategies run_all auction [] = ([], [])
run_strategies run_all auction (s ∷ ss) =
    let answer = s.run auction in
    let rest = run_strategies run_all auction ss in
    let won = winners_of s.name answer in
    if not run_all && has_won won
    then (attempt_of s auction answer ∷ [], won)
    else (attempt_of s auction answer ∷ rest.0, won ++ rest.1)

unfoldable pub composable : List Winner → List Winner
composable = filter (λ w. not (w.0 =ₛ "naive"))

positive_prices : Dict (Option ℕ) → Dict Token → Dict (Option ℕ)
unfolding lower
positive_prices acc [] = acc
positive_prices acc ((addr, tok) ∷ tokens) = elim tok.reference_price [
  | none ↦ positive_prices acc tokens
  | some p ↦
      if p == 0
      then positive_prices acc tokens
      else positive_prices (put acc (lower addr) (some p)) tokens
]

abbrev scored : Solution → ScoredSolution
scored sol = record { prices = map (λ p. (p.0, some p.1)) sol.prices; trades = sol.trades }

-- The ranking input of the composer.
candidates_of : Auction → List Winner → List Candidate
unfolding positive_prices compute_solution_score orders_by_uid_from_auction
candidates_of auction = map (λ w. record {
  strategy = w.0;
  solution = w.1;
  surplus_estimate =
      compute_solution_score (scored w.1) (orders_by_uid_from_auction auction)
        (positive_prices [] auction.tokens);
})

abbrev rejection : String → Solution → Option String → AttemptRecord
rejection by sol reason = record {
  strategy = by;
  status = rejected;
  latency_ms = none;
  solution = some sol;
  error = reason;
}

-- `"; ".join(texts)`
join : List String → String
join [] = ""
join (t ∷ []) = t
join (t ∷ u ∷ ts) = t ++ₛ ("; " ++ₛ join (u ∷ ts))

-- A gate answers the record of its rejection, if it rejects.
unfoldable pub ebbo_validate : Orchestrator → Auction → Solution → Option AttemptRecord
unfolding join
ebbo_validate o auction sol = elim o.ebbo [
  | none ↦ none
  | some market ↦
      let result = validate_solution_ebbo market o.ebbo_tolerance_bps sol auction in
      if result.passes
      then none
      else some (rejection "ebbo-rejected" sol (some (join (take 5 result.violations))))
]

judged : Solution → Verdict → Option AttemptRecord
judged sol (verdict (some true) reason) = none
judged sol (verdict (some false) reason) = some (rejection "feasibility-rejected" sol reason)
judged sol (verdict none reason) = some (rejection "feasibility-rejected" sol reason)
judged sol gate_timeout = some (rejection "feasibility-rejected" sol (some "gate timeout"))
judged sol (gate_error text) =
    some (rejection "feasibility-rejected" sol (some ("gate error: " ++ₛ text)))

unfoldable pub feasibility_validate : Orchestrator → Solution → Option AttemptRecord
unfolding judged
feasibility_validate o sol = elim o.feasibility_gate [
  | none ↦ none
  | some check ↦ judged sol (check sol)
]

-- The two gates in turn.
unfoldable pub rejected_by : Orchestrator → Auction → Solution → Option AttemptRecord
unfolding ebbo_validate feasibility_validate
rejected_by o auction sol = elim (ebbo_validate o auction sol) [
  | some r ↦ some r
  | none ↦ feasibility_validate o sol
]

-- The fallback chain: the first candidate that no gate rejects.
unfoldable pub first_accepted : Orchestrator → Auction → Attempts → List Winner → Outcome × Attempts
unfolding rejected_by
first_accepted o auction attempts [] = (no_solution, attempts)
first_accepted o auction attempts (w ∷ ws) = elim (rejected_by o auction w.1) [
  | none ↦ (solution w.1, attempts)
  | some r ↦ first_accepted o auction (attempts ++ r ∷ []) ws
]

-- A composed solution goes first.
after_compose :
    Orchestrator → Auction → Attempts → List Winner → Option Solution → Outcome × Attempts
unfolding first_accepted
after_compose o auction attempts ws none = first_accepted o auction attempts ws
after_compose o auction attempts ws (some sol) =
    first_accepted o auction
      (attempts
        ++ record {
          strategy = "composer";
          status = solved;
          latency_ms = none;
          solution = some sol;
          error = none;
        }
          ∷ [])
      (("composer", sol) ∷ ws)

-- `except ImportError: pass`; other exceptions leave `solve`.
unfoldable pub composed : Orchestrator → Auction → List Winner → Result (Option Solution)
unfolding candidates_of auction_number
composed o auction ws =
    if o.compose && ltb 1 (length ws)
    then elim o.edge [
      | none ↦ ok none
      | some merge ↦ do number ← auction_number auction.id; merge (candidates_of auction ws) number
    ]
    else ok none

-- `SolverOrchestrator.solve`
unfoldable pub solve : Orchestrator → Auction → Attempts → Result (Outcome × Attempts)
unfolding run_strategies composable composed after_compose
solve o auction attempts = elim auction.id [
  | none ↦ err (other_error "orchestrator must not run for quote-only auctions")
  | some _ ↦
      let (records, winners) = run_strategies o.run_all auction o.strategies in
      do
        merged ← composed o auction (composable winners)
        ok (after_compose o auction (attempts ++ records) (composable winners) merged)
]
