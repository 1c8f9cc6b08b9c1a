-- ===== src/Service.antt =====
-- The handler of /solve and the salvage of a cancelled solve, of src/main.py. Pydantic, the clock and
-- `asyncio.wait_for` are arguments; a time is in milliseconds, and a budget that is spent is 0.
pub mod Served
use cow_solver_skeleton.Prelude.{
  take, ℕ, ◌-◌, leb, ◌==◌, ◌=ₛ◌, String, Option, none, some, List, [], ◌∷◌, if◌then◌else◌, Result,
  ok, err,
}
use cow_solver_skeleton.Dict.{Dict, get, put}
use cow_solver_skeleton.Model.{Auction, Solution, Outcome, solution, no_solution}
use cow_solver_skeleton.Solver.Orchestrator.{
  Status, solved, timeout, error, AttemptRecord, Attempts, run_strategies, Orchestrator, solve,
}

-- The body of a request, as `request.json()` and `Auction.model_validate` leave it.
pub data Request : Type 0 where
  not_json : Request
  not_auction : Request
  auction : Auction → Request

pub data Reply : Type 0 where
  http_error : ℕ → String → Reply
  solutions : List Solution → Reply

-- `parse_deadline` gives the time left until a deadline, none where the text cannot be read.
-- `cancelled` gives the number of attempts that were recorded where the solve exceeds a timeout.
-- `model_validate` reads the dump of a solution back.
pub record Server : Type 0 where
  pub orchestrator : Orchestrator
  pub solve_timeout : ℕ
  pub deadline_margin : ℕ
  pub parse_deadline : String → Option ℕ
  pub cancelled : Auction → ℕ → Option ℕ
  pub model_validate : Solution → Option Solution

unfoldable pub deadline_budget : Server → Option String → Option ℕ
deadline_budget s none = none
deadline_budget s (some deadline) = if deadline =ₛ "" then none else s.parse_deadline deadline

-- The timeout of the solve; none where the deadline has passed.
unfoldable pub solve_budget : Server → Auction → Option ℕ
unfolding deadline_budget
solve_budget s a = elim (deadline_budget s a.deadline) [
  | none ↦ some s.solve_timeout
  | some budget ↦
      let left = budget - s.deadline_margin in
      let limit = if leb s.solve_timeout left then s.solve_timeout else left in
      if limit == 0 then none else some limit
]

abbrev pub salvage_order : List String
salvage_order = "router-v2" ∷ "cow-matching-bipartite" ∷ "cow-matching-multi-party" ∷ []

-- The solution of an attempt that solved.
unfoldable pub completed : AttemptRecord → Option Solution
completed a = elim a.status [ solved ↦ a.solution | _ ↦ none ]

unfoldable pub by_strategy : Dict Solution → Attempts → Dict Solution
unfolding completed
by_strategy acc [] = acc
by_strategy acc (a ∷ attempts) = elim (completed a) [
  | none ↦ by_strategy acc attempts
  | some sol ↦ by_strategy (put acc a.strategy sol) attempts
]

unfoldable pub first_valid :
    (Solution → Option Solution) → Dict Solution → List String → Option Solution
first_valid model_validate found [] = none
first_valid model_validate found (name ∷ names) = elim (get found name) [
  | none ↦ first_valid model_validate found names
  | some raw ↦ elim (model_validate raw) [
    | none ↦ first_valid model_validate found names
    | some sol ↦ some sol
  ]
]

unfoldable pub best_completed_solution : Server → Attempts → Option Solution
unfolding first_valid by_strategy
best_completed_solution s attempts =
    first_valid s.model_validate (by_strategy [] attempts) salvage_order

unfoldable pub salvaged : Server → Attempts → Reply
unfolding best_completed_solution
salvaged s attempts = elim (best_completed_solution s attempts) [
  | none ↦ solutions []
  | some sol ↦ solutions (sol ∷ [])
]

-- The reply to what the orchestrator ends with.
unfoldable pub reply_of : Result (Outcome × Attempts) → Reply
reply_of (err e) = solutions []
reply_of (ok (no_solution, attempts)) = solutions []
reply_of (ok (solution sol, attempts)) = solutions (sol ∷ [])

-- The attempts that the orchestrator records, in their order.
unfoldable pub attempts_of : Orchestrator → Auction → Attempts
unfolding solve run_strategies
attempts_of o a = elim (solve o a []) [
  | err e ↦ (run_strategies o.run_all a o.strategies).0
  | ok (out, attempts) ↦ attempts
]

unfoldable pub run_within : Server → Auction → ℕ → Reply
unfolding solve salvaged reply_of attempts_of
run_within s a limit = elim (s.cancelled a limit) [
  | some made ↦ salvaged s (take made (attempts_of s.orchestrator a))
  | none ↦ reply_of (solve s.orchestrator a [])
]

unfoldable pub answer : Server → Auction → Reply
unfolding solve_budget run_within
answer s a = elim a.id [
  | none ↦ solutions []
  | some id ↦ elim (solve_budget s a) [ none ↦ solutions [] | some limit ↦ run_within s a limit ]
]

unfoldable pub serve : Server → Request → Reply
unfolding answer
serve s not_json = http_error 400 "invalid JSON body"
serve s not_auction = http_error 422 "auction failed schema validation"
serve s (auction a) = answer s a
