-- ===== src/Shadow/Feasibility/Simulated.antt =====
-- About the verdicts of `validate_solution` and the solutions that the gate lets through.
use cow_solver_skeleton.Prelude.{
  String, Bool, true, false, ◌≡◌, refl, ap, Option, none, some, List, filter, length, ◌==◌,
  Bool-cases, inl, inr, Result, ok, err, ◌>>=◌, >>=-eq-ok, map_m, err-ne-ok,
}
use cow_solver_skeleton.Model.{Auction, Solution, solution}
use cow_solver_skeleton.Encoder.Bytes.{Bytes, to_hex}
use cow_solver_skeleton.Encoder.Settle.{SettleTrade, Call, encode_settle}
use cow_solver_skeleton.Solver.Orchestrator.{Orchestrator, Attempts, Verdict, verdict, solve}
use cow_solver_skeleton.Solver.Orchestrator.Gates.{solve-feasible}
use cow_solver_skeleton.Shadow.Feasibility.Orders.{Cache}
use cow_solver_skeleton.Shadow.Feasibility.Rows.{Step, known, unknown, sorted_tokens, settle_trades}
use cow_solver_skeleton.Shadow.Feasibility.{
  RawSolution, is_fulfillment, intra_call, of_answer, Deps, clearing_prices_of, simulate,
  verdict_of, judge_rows, validate_solution, model_dump, check,
}
use Prim.Native.String.{◌++◌ as ◌++ₛ◌}

-- The node answered `succeeded` to the call of `settle` that settles the trades of the solution.
pub record Simulated (deps : Deps) (block : String) (cache : Cache) (sol : RawSolution)
    (succeeded : Bool) : Type 0 where
  pub rows : List SettleTrade
  pub intra : List Call
  pub calldata : Bytes
  pub payload : String
  pub settles :
      (settle_trades deps.api (sorted_tokens sol.prices) cache (filter is_fulfillment sol.trades)).1
      ≡ ok (known rows)
  pub interacts : map_m intra_call sol.interactions ≡ ok intra
  pub encodes :
      encode_settle deps.abi
        (sorted_tokens sol.prices)
        (clearing_prices_of sol.prices (sorted_tokens sol.prices))
        rows
        intra
      ≡ ok calldata
  pub answers :
      deps.rpc deps.settlement_addr ("0x" ++ₛ to_hex calldata) deps.solver_addr block
      ≡ ok (succeeded, payload)

verdict-ne :
    {b : Bool} {r s : Option String} {A : Type 0}
    → Path Verdict (verdict none r) (verdict (some b) s)
    → A
verdict-ne h = cc

of_answer-inv :
    (a : Bool × String) (b : Bool) (reason : Option String)
    → of_answer a ≡ verdict (some b) reason
    → (payload : String) × (a ≡ (b, payload))
unfolding of_answer
of_answer-inv (true, payload) b reason h = (payload, cc)
of_answer-inv (false, payload) b reason h = (payload, cc)

verdict_of-inv :
    (r : Result (Bool × String)) (b : Bool) (reason : Option String)
    → verdict_of r ≡ verdict (some b) reason
    → (payload : String) × (r ≡ ok (b, payload))
unfolding verdict_of
verdict_of-inv (ok a) b reason h =
    let (payload, e) = of_answer-inv a b reason h in (payload, ap ok e)
verdict_of-inv (err e) b reason h = verdict-ne h

module _ (deps : Deps) (block : String) (sol : RawSolution) where
  judge_rows-inv :
      (r : Result (Step (List SettleTrade))) (b : Bool) (reason : Option String)
      → judge_rows deps block sol (sorted_tokens sol.prices) r ≡ verdict (some b) reason
      → (rows : List SettleTrade) × (payload : String) × (r ≡ ok (known rows))
        × (simulate deps block sol (sorted_tokens sol.prices) rows ≡ ok (b, payload))
  unfolding judge_rows
  judge_rows-inv (ok (known rows)) b reason h =
      let (payload, e) = verdict_of-inv _ b reason h in (rows, payload, refl, e)
  judge_rows-inv (ok (unknown text)) b reason h = verdict-ne h
  judge_rows-inv (err e) b reason h =
      let (payload, f) = verdict_of-inv (err e) b reason h in absurd (err-ne-ok f)

  simulate-Simulated :
      (cache : Cache) (b : Bool) (rows : List SettleTrade) (payload : String)
      → (settle_trades deps.api
          (sorted_tokens sol.prices)
          cache
          (filter is_fulfillment sol.trades)).1
        ≡ ok (known rows)
      → simulate deps block sol (sorted_tokens sol.prices) rows ≡ ok (b, payload)
      → Simulated deps block cache sol b
  unfolding simulate
  simulate-Simulated cache b rows payload settles h =
      let tokens = sorted_tokens sol.prices in
      let send = λ (calldata : Bytes).
        deps.rpc deps.settlement_addr ("0x" ++ₛ to_hex calldata) deps.solver_addr block in
      let call = λ (intra : List Call).
        encode_settle deps.abi tokens (clearing_prices_of sol.prices tokens) rows intra in
      let (intra, interacts, rest) =
        >>=-eq-ok (map_m intra_call sol.interactions) (λ intra. call intra >>= send) h in
      let (calldata, encodes, answers) = >>=-eq-ok (call intra) send rest in
      record {
        rows = rows;
        intra = intra;
        calldata = calldata;
        payload = payload;
        settles = settles;
        interacts = interacts;
        encodes = encodes;
        answers = answers;
      }

  -- A verdict True or False of `validate_solution` is the node's answer to the settle call that is
  -- encoded from the rows of the solution's trades, its clearing prices and its interactions.
  pub validate_solution-Simulated :
      (cache : Cache) (b : Bool) (reason : Option String)
      → (validate_solution deps block cache sol).1 ≡ verdict (some b) reason
      → Simulated deps block cache sol b
  unfolding validate_solution
  validate_solution-Simulated cache b reason h =
      elim (Bool-cases (length (filter is_fulfillment sol.trades) == 0)) [
        | inl e ↦ verdict-ne (rw (e, validate_solution) at h)
        | inr e ↦ elim (Bool-cases (length (sorted_tokens sol.prices) == length sol.prices)) [
          | inl f ↦
              let (rows, payload, settles, answered) =
                judge_rows-inv _ b reason (rw (e, f, validate_solution) at h) in
              simulate-Simulated cache b rows payload settles answered
          | inr f ↦ verdict-ne (rw (e, f, validate_solution) at h)
        ]
      ]

-- Where the feasibility gate is the check of `FeasibilityGate`, the trades of a solution that
-- leaves `SolverOrchestrator.solve` have rows, and the node answered that the settle call encoded
-- from these rows, its clearing prices and its interactions succeeds.
pub solve-Simulated :
    (o : Orchestrator) (auction : Auction) (attempts : Attempts) (sol : Solution) (after : Attempts)
    (deps : Deps) (cache : Cache)
    → solve o auction attempts ≡ ok (solution sol, after)
    → o.feasibility_gate ≡ some (check deps cache)
    → Simulated deps "latest" cache (model_dump sol) true
unfolding check
solve-Simulated o auction attempts sol after deps cache solved gate =
    let (reason, passed) =
      solve-feasible o auction attempts (solution sol) after solved sol (check deps cache) refl
        gate in
    validate_solution-Simulated deps "latest" (model_dump sol) cache true reason passed
