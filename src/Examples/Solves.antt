-- ===== src/Examples/Solves.antt =====
-- The solvers on a small auction.
use text.Mathlib.TextEquality.{eq_iff}
use cow_solver_skeleton.Prelude.{
  All, ◌+◌, ◌-◌, ◌*◌, ◌/◌, ◌≤◌, String, ◌≡◌, ◌≢◌, refl, inl, true, false, Option, none, some, [],
  ◌∷◌, ok, ceil_div, lower, arith, false-ne-true, map_m,
}
use cow_solver_skeleton.Shadow.Scoring.Routed.{DistinctKeys, Valid, Short, solve-Valid, solve-Short}
use cow_solver_skeleton.Dict.{get, put}
use cow_solver_skeleton.Model.{sell, buy, Order, Auction, solution, Solution, fulfillment}
use cow_solver_skeleton.Encoder.Bytes.{take_text, str, from_hex, int_of_text}
use cow_solver_skeleton.Encoder.Interaction.{make_interaction, to_gpv2_dict, encode_approve}
use cow_solver_skeleton.Encoder.V3.{encode_exact_input_single, encode_v3_swap}
use cow_solver_skeleton.Routing.Multicall.{aggregate_resilient}
use cow_solver_skeleton.Routing.V3Batched.{batched_v3_quote}
use cow_solver_skeleton.Routing.V4Quoter.{batched_v4_quote}
use cow_solver_skeleton.Routing.CurveQuoter.{batched_curve_quote}
use cow_solver_skeleton.Solver.Quotes.{select_best_quote_per_order}
use cow_solver_skeleton.Solver.OrderValidity.{decode_uint, index_by_uid, filter_valid_orders}
use cow_solver_skeleton.Solver.Prices.{register_prices}
use cow_solver_skeleton.Solver.Ranking.{rank, expected_surplus_sort_key}
use cow_solver_skeleton.Solver.Route.{encode_path_interaction}
use cow_solver_skeleton.Solver.Router.Candidates.{build_v3_candidate_paths}
use cow_solver_skeleton.Solver.Router.Draft.{emit, fill_orders}
use cow_solver_skeleton.Solver.Router.Batched as Router
use cow_solver_skeleton.Solver.Router.Batched.{gather_quotes, publish}
use cow_solver_skeleton.Solver.Router.Batched.Settles.{solve-Settled, OutcomeSettled}
use cow_solver_skeleton.Solver.Router.Batched.Funded.{dropped_of, solve-funded}
use cow_solver_skeleton.Solver.Ebbo.{Market, validate_solution_ebbo}
use cow_solver_skeleton.Solver.Ebbo.Accounts.{validate-sale, validate-purchase}
use cow_solver_skeleton.Solver.Orchestrator as Orchestrator
use cow_solver_skeleton.Solver.Orchestrator.{
  Orchestrator, answered, solved, Verdict, verdict, Attempts, run_strategies, composable, composed,
  first_accepted, rejected_by,
}
use cow_solver_skeleton.Solver.Orchestrator.Gates.{
  Released, solve-Released, solve-feasible, solve-ebbo,
}
use cow_solver_skeleton.Solver.JointClearing as Joint
use cow_solver_skeleton.Solver.JointClearing.{
  settle_groups, settle_singles, best_joint_quote, add_trades,
}
use cow_solver_skeleton.Solver.JointClearing.Groups.{
  add_to_group, group_orders, joint_pairs, is_group_path, build_group_paths,
}
use cow_solver_skeleton.Solver.JointClearing.Limits.{all_limits_satisfied, received}
use cow_solver_skeleton.Solver.JointClearing.Settled.{AllPaid}
use cow_solver_skeleton.Solver.JointClearing.Solved.{solve-Paid}
use cow_solver_skeleton.Examples.Fixtures.{
  sale, second_sale, order_of, auction, router, joint, token_a, token_b, token_c, toy_encode,
  toy_decode,
}

abbrev pub one_sale : Auction
one_sale = auction (sale ∷ [])

abbrev pub published : Solution
published = record {
  id = 7;
  prices = (token_a, 1000) ∷ (token_b, 2000) ∷ [];
  trades = record { kind = fulfillment; order_uid = "0x01"; executed_amount = 2000 } ∷ [];
  interactions =
      record {
        kind = "custom";
        target = token_a;
        value = "0";
        call_data = "0x01020304";
        inputs = [];
        outputs = [];
      }
      ∷ record {
        kind = "custom";
        target = token_c;
        value = "0";
        call_data = "0x01020304";
        inputs = (token_a, "2000") ∷ [];
        outputs = (token_b, "1000") ∷ [];
      }
      ∷ [];
}

pub publishes : Router.solve router 0 one_sale ≡ ok (solution published)
unfolding get put aggregate_resilient batched_curve_quote batched_v3_quote batched_v4_quote
    Router.solve encode_path_interaction select_best_quote_per_order decode_uint index_by_uid
    filter_valid_orders register_prices rank gather_quotes publish emit fill_orders
    build_v3_candidate_paths toy_encode toy_decode map_m make_interaction to_gpv2_dict
    encode_approve encode_exact_input_single encode_v3_swap from_hex int_of_text
publishes = refl

sale_distinct : token_a ≢ token_b
sale_distinct h = false-ne-true ((eq_iff token_a token_b).1 h)

solve-Settled_example : OutcomeSettled (sale ∷ []) (solution published)
solve-Settled_example =
    solve-Settled router 0 one_sale (solution published) (sale_distinct, tt) publishes

lower_distinct : lower token_b ≢ lower token_a
unfolding lower
lower_distinct h = false-ne-true ((eq_iff (lower token_b) (lower token_a)).1 h)

distinct_keys : DistinctKeys published.prices
unfolding DistinctKeys
distinct_keys = ((lower_distinct, tt), (tt, tt))

solve-Valid_example : All (Valid (sale ∷ []) published) published.trades
solve-Valid_example =
    solve-Valid router 0 one_sale published (sale_distinct, tt)
      ((omega arith, omega arith, refl), tt) distinct_keys publishes

solve-Short_example : All (Short (sale ∷ []) published) published.trades
solve-Short_example =
    solve-Short router 0 one_sale published (sale_distinct, tt) (omega arith, tt) distinct_keys
      publishes

solve-funded_example : dropped_of router one_sale published ≡ []
solve-funded_example = solve-funded router one_sale 0 published refl publishes

-- A market that charges a little more than the router.
abbrev pub market : Market
market = record {
  best_exact_input = λ sell_token buy_token amount. ok (some 1004);
  best_exact_output = λ sell_token buy_token amount. ok (some 1990);
}

validate-sale_example : 1004 * (10_000 - 50) / 10_000 ≤ ceil_div (2000 * 1000) 2000
unfolding validate_solution_ebbo get put index_by_uid
validate-sale_example =
    validate-sale market 50 published one_sale refl
      (record { kind = fulfillment; order_uid = "0x01"; executed_amount = 2000 }) sale 1000 2000
      1004 (inl refl) refl refl refl (omega arith) (omega arith) (omega arith) refl refl

abbrev purchase : Order
purchase = order_of "0x05" buy token_a token_b 2000 900 false

abbrev one_purchase : Auction
one_purchase = auction (purchase ∷ [])

abbrev bought : Solution
bought = record {
  id = 7;
  prices = (token_a, 900) ∷ (token_b, 1995) ∷ [];
  trades = record { kind = fulfillment; order_uid = "0x05"; executed_amount = 900 } ∷ [];
  interactions = [];
}

validate-purchase_example : 900 * 1995 / 900 ≤ 1990 * (10_000 + 50) / 10_000
unfolding validate_solution_ebbo get put index_by_uid
validate-purchase_example =
    validate-purchase market 50 bought one_purchase refl
      (record { kind = fulfillment; order_uid = "0x05"; executed_amount = 900 }) purchase 900 1995
      1990 (inl refl) refl refl refl (omega arith) (omega arith) (omega arith) refl refl

pub check_of : Solution → Verdict
check_of sol = verdict (some true) none

abbrev pub orchestrator : Orchestrator
orchestrator = record {
  strategies =
      record { name = "naive"; run = λ a. answered (solution bought); latency_ms = λ a. 3 }
      ∷ record { name = "router"; run = λ a. answered (solution published); latency_ms = λ a. 5 }
      ∷ [];
  run_all = true;
  compose = true;
  edge = none;
  ebbo = some market;
  ebbo_tolerance_bps = 50;
  feasibility_gate = some (check_of);
}

abbrev records : Attempts
records =
    record {
      strategy = "naive";
      status = solved;
      latency_ms = some 3;
      solution = some bought;
      error = none;
    }
    ∷ record {
      strategy = "router";
      status = solved;
      latency_ms = some 5;
      solution = some published;
      error = none;
    }
    ∷ []

releases : Orchestrator.solve orchestrator one_sale [] ≡ ok (solution published, records)
unfolding Orchestrator.solve run_strategies composable composed first_accepted rejected_by
    validate_solution_ebbo get put index_by_uid check_of
releases = refl

solve-Released_example : Released orchestrator one_sale published
solve-Released_example =
    solve-Released orchestrator one_sale [] (solution published) records releases published refl

solve-feasible_example :
    (reason : Option String) × (check_of published ≡ verdict (some true) reason)
solve-feasible_example =
    solve-feasible orchestrator one_sale [] (solution published) records releases published check_of
      refl refl

solve-ebbo_example : (validate_solution_ebbo market 50 published one_sale).passes ≡ true
solve-ebbo_example =
    solve-ebbo orchestrator one_sale [] (solution published) records releases published market refl
      refl

abbrev modest_sale : Order
modest_sale = order_of "0x01" sell token_a token_b 2000 600 false

abbrev two_sales : Auction
two_sales = auction (modest_sale ∷ second_sale ∷ [])

abbrev cleared : Solution
cleared = record {
  id = 7;
  prices = (token_a, 1000) ∷ (token_b, 3000) ∷ [];
  trades =
      record { kind = fulfillment; order_uid = "0x01"; executed_amount = 2000 }
      ∷ record { kind = fulfillment; order_uid = "0x02"; executed_amount = 1000 }
      ∷ [];
  interactions =
      record {
        kind = "custom";
        target = token_a;
        value = "0";
        call_data = "0x01020304";
        inputs = [];
        outputs = [];
      }
      ∷ record {
        kind = "custom";
        target = token_c;
        value = "0";
        call_data = "0x01020304";
        inputs = (token_a, "3000") ∷ [];
        outputs = (token_b, "1000") ∷ [];
      }
      ∷ [];
}

clears_jointly : Joint.solve joint 0 two_sales ≡ ok (solution cleared)
unfolding Joint.solve Router.without_ghosts expected_surplus_sort_key settle_groups settle_singles
    best_joint_quote add_trades add_to_group group_orders joint_pairs is_group_path
    build_group_paths all_limits_satisfied received take_text str get put aggregate_resilient
    batched_curve_quote batched_v3_quote batched_v4_quote encode_path_interaction
    select_best_quote_per_order decode_uint index_by_uid filter_valid_orders register_prices rank
    gather_quotes publish emit fill_orders build_v3_candidate_paths toy_encode toy_decode map_m
    make_interaction to_gpv2_dict encode_approve encode_exact_input_single encode_v3_swap from_hex
    int_of_text
clears_jointly = refl

pub two_tokens : lower token_a ≢ lower token_b
unfolding lower
two_tokens h = sale_distinct h

solve-Paid_example : AllPaid (modest_sale ∷ second_sale ∷ []) cleared.prices cleared.trades
solve-Paid_example =
    solve-Paid joint 0 two_sales (solution cleared)
      ((two_tokens, omega arith), ((two_tokens, omega arith), tt)) clears_jointly
