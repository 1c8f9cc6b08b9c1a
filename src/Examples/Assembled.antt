-- ===== src/Examples/Assembled.antt =====
-- The orchestrator of the public clone on a small auction.
use cow_solver_skeleton.Prelude.{◌≡◌, refl, false, none, some, [], ◌∷◌, ok, arith, map_m}
use cow_solver_skeleton.Dict.{get, put}
use cow_solver_skeleton.Model.{solution}
use cow_solver_skeleton.Encoder.Bytes.{from_hex, int_of_text}
use cow_solver_skeleton.Encoder.Interaction.{make_interaction, to_gpv2_dict, encode_approve}
use cow_solver_skeleton.Encoder.V3.{encode_exact_input_single, encode_v3_swap}
use cow_solver_skeleton.Routing.Multicall.{aggregate_resilient}
use cow_solver_skeleton.Routing.V3Batched.{batched_v3_quote}
use cow_solver_skeleton.Routing.V4Quoter.{batched_v4_quote}
use cow_solver_skeleton.Routing.CurveQuoter.{batched_curve_quote}
use cow_solver_skeleton.Solver.Quotes.{select_best_quote_per_order}
use cow_solver_skeleton.Solver.OrderValidity.{decode_uint, index_by_uid, filter_valid_orders}
use cow_solver_skeleton.Solver.Prices.{register_prices}
use cow_solver_skeleton.Solver.Ranking.{rank}
use cow_solver_skeleton.Solver.Route.{encode_path_interaction}
use cow_solver_skeleton.Solver.Router.Candidates.{build_v3_candidate_paths}
use cow_solver_skeleton.Solver.Router.Draft.{emit, fill_orders}
use cow_solver_skeleton.Solver.Router.Batched as Router
use cow_solver_skeleton.Solver.Router.Batched.{gather_quotes, publish}
use cow_solver_skeleton.Solver.Naive as Naive
use cow_solver_skeleton.Solver.Orchestrator as Orchestrator
use cow_solver_skeleton.Solver.Orchestrator.{
  Attempts, Status, solved, nothing, run_strategies, composable, composed, first_accepted,
  rejected_by,
}
use cow_solver_skeleton.Solver.Assembly.{Settings, Parts, load_orchestrator}
use cow_solver_skeleton.Solver.Assembly.Released.{Fulfils, load_orchestrator-Fulfils}
use cow_solver_skeleton.Examples.Fixtures.{router, joint, toy_encode, toy_decode}
use cow_solver_skeleton.Examples.Solves.{one_sale, published, two_tokens, market}

abbrev settings : Settings
settings = record {
  long_tail_enabled = false;
  joint_clearing_enabled = false;
  ebbo_enabled = false;
  ebbo_tolerance_bps = 50;
  feasibility_gate_enabled = false;
}

abbrev parts : Parts
parts = record {
  now = 0;
  refine = none;
  router = router;
  joint = joint;
  timeout = λ name auction. none;
  latency_ms = λ name auction. 5;
  market = market;
  gate = none;
}

abbrev records : Attempts
records =
    record {
      strategy = "router-v2";
      status = solved;
      latency_ms = some 5;
      solution = some published;
      error = none;
    }
    ∷ record {
      strategy = "naive";
      status = nothing;
      latency_ms = some 5;
      solution = none;
      error = none;
    }
    ∷ []

releases :
    Orchestrator.solve (load_orchestrator parts settings none) one_sale []
    ≡ ok (solution published, records)
unfolding get put aggregate_resilient batched_curve_quote batched_v3_quote batched_v4_quote
    Router.solve encode_path_interaction select_best_quote_per_order decode_uint index_by_uid
    filter_valid_orders register_prices rank gather_quotes publish emit fill_orders
    build_v3_candidate_paths toy_encode toy_decode map_m make_interaction to_gpv2_dict
    encode_approve encode_exact_input_single encode_v3_swap from_hex int_of_text load_orchestrator
    Orchestrator.solve run_strategies composable composed first_accepted rejected_by Naive.solve
releases = refl

load_orchestrator-Fulfils_example : Fulfils one_sale published
load_orchestrator-Fulfils_example =
    load_orchestrator-Fulfils parts settings one_sale published records
      ((two_tokens, omega arith), tt) releases
