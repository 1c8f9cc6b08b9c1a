-- ===== src/Examples/Served.antt =====
-- A solve that is cancelled after the naive strategy and the router.
use cow_solver_skeleton.Prelude.{true, String, ◌≡◌, refl, inl, none, some, [], ◌∷◌}
use cow_solver_skeleton.Dict.{get, put}
use cow_solver_skeleton.Model.{solution}
use cow_solver_skeleton.Solver.Orchestrator as Orchestrator
use cow_solver_skeleton.Solver.Orchestrator.{
  Strategy, answered, Orchestrator, run_strategies, composable, composed, first_accepted,
  rejected_by,
}
use cow_solver_skeleton.Service.{
  auction, solutions, Server, completed, by_strategy, first_valid, best_completed_solution,
  salvaged, attempts_of, run_within, solve_budget, deadline_budget, answer, serve,
}
use cow_solver_skeleton.Service.Served.{Origin, serve-Origin}
use cow_solver_skeleton.Examples.Solves.{one_sale, published}

abbrev answering : String → Strategy
answering name = record {
  name = name;
  run = λ a. answered (solution published);
  latency_ms = λ a. 5;
}

abbrev two_strategies : Orchestrator
two_strategies = record {
  strategies = answering "naive" ∷ answering "router-v2" ∷ [];
  run_all = true;
  compose = true;
  edge = none;
  ebbo = none;
  ebbo_tolerance_bps = 50;
  feasibility_gate = none;
}

abbrev server : Server
server = record {
  orchestrator = two_strategies;
  solve_timeout = 5000;
  deadline_margin = 300;
  parse_deadline = λ text. some 4000;
  cancelled = λ a limit. some 2;
  model_validate = λ sol. some sol;
}

replies : serve server (auction one_sale) ≡ solutions (published ∷ [])
unfolding serve answer run_within solve_budget deadline_budget salvaged best_completed_solution
    first_valid by_strategy completed get put attempts_of Orchestrator.solve run_strategies
    composable composed first_accepted rejected_by
replies = refl

serve-Origin_example : Origin server one_sale published
serve-Origin_example = serve-Origin server one_sale (published ∷ []) published replies (inl refl)
