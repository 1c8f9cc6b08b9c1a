-- ===== src/Solver/Orchestrator/Live.antt =====
-- About the solutions that `SolverOrchestrator.solve` does not hold back.
use cow_solver_skeleton.Prelude.{
  String, ◌≡◌, inl, inr, sym, ap, ◌∙◌, subst, none, some, none-ne-some, List, [], ◌∷◌, ◌++◌, In, ok,
  ◌>>=◌, Option-cases,
}
use cow_solver_skeleton.Model.{Auction, Solution, solution}
use cow_solver_skeleton.Solver.Orchestrator.{
  Orchestrator, Attempts, Winner, run_strategies, composable, rejected_by, first_accepted,
  after_compose, solve,
}
use cow_solver_skeleton.Solver.Orchestrator.Gates.{composed-none, on_id}

module _ (o : Orchestrator) (auction : Auction) where
  -- A chain with a candidate that no gate rejects ends with a solution.
  first_accepted-solution :
      (ws : List Winner) (attempts : Attempts) (w : Winner)
      → In w ws
      → rejected_by o auction w.1 ≡ none
      → (sol : Solution) × ((first_accepted o auction attempts ws).0 ≡ solution sol)
  unfolding first_accepted
  first_accepted-solution [] attempts w m clear = absurd m
  first_accepted-solution (v ∷ ws) attempts w m clear =
      elim (Option-cases (rejected_by o auction v.1)) [
        | inl e ↦ (v.1, rw (e, first_accepted))
        | inr (r, e) ↦ elim m [
          | inl same ↦
              absurd
                (none-ne-some (sym (subst (λ x. rejected_by o auction x.1 ≡ none) same clear) ∙ e))
          | inr later ↦
              let (sol, accepted) = first_accepted-solution ws (attempts ++ r ∷ []) w later clear in
              (sol, rw (e, first_accepted) accepted)
        ]
      ]

-- Where the auction has an id and no composer is present, an accepted answer of a strategy,
-- neither naive nor rejected by a gate, makes `SolverOrchestrator.solve` return a solution.
pub solve-releases :
    (o : Orchestrator) (auction : Auction) (attempts : Attempts) (id : String) (w : Winner)
    → auction.id ≡ some id
    → o.edge ≡ none
    → In w (composable (run_strategies o.run_all auction o.strategies).1)
    → rejected_by o auction w.1 ≡ none
    → (sol : Solution) × (after : Attempts) × (solve o auction attempts ≡ ok (solution sol, after))
unfolding solve after_compose
solve-releases o auction attempts id w known edge won clear =
    let records = (run_strategies o.run_all auction o.strategies).0 in
    let ws = composable (run_strategies o.run_all auction o.strategies).1 in
    let (sol, accepted) = first_accepted-solution o auction ws (attempts ++ records) w won clear in
    (
      sol,
      (first_accepted o auction (attempts ++ records) ws).1,
      on_id auction.id id known _ _
          ∙ ap (λ merged. merged >>= λ m. ok (after_compose o auction (attempts ++ records) ws m))
              (composed-none o auction ws edge)
          ∙ ap (λ out. ok (out, (first_accepted o auction (attempts ++ records) ws).1)) accepted,
    )
