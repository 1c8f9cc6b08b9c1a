-- ===== src/Solver/Route.antt =====
-- `RouterSolver._encode_path_interaction` of src/solver/router.py: the calls that execute a route.
use cow_solver_skeleton.Prelude.{ℕ, String, List, [], ◌∷◌, if◌then◌else◌, Result, ok, ◌>>=◌}
use cow_solver_skeleton.Encoder.Abi.{Abi}
use cow_solver_skeleton.Encoder.Interaction.{Interaction, make_interaction, encode_approve}
use cow_solver_skeleton.Encoder.Slippage.{apply_slippage_down, apply_slippage_up}
use cow_solver_skeleton.Encoder.V3.{encode_v3_swap}
use cow_solver_skeleton.Encoder.V4.{encode_v4_swap_interactions}
use cow_solver_skeleton.Encoder.Curve.{encode_curve_swap_interactions}
use cow_solver_skeleton.Routing.V3Batched.{V3Path}
use cow_solver_skeleton.Solver.Quotes.{RoutePath, v3, v4, curve}

-- The addresses and the slippage that `RouterSolver.__init__` keeps.
pub record Settlement : Type 0 where
  pub abi : Abi
  pub slippage_bps : ℕ
  pub gpv2_settlement : String
  pub v3_router_address : String
  pub v4_universal_router : String
  pub v4_permit2 : String

-- What the V3 router may pull: the exact input, or the padded maximum of an exact output.
unfoldable pub approve_amount : Settlement → V3Path → ℕ → ℕ
approve_amount s p executed_sell =
    if p.exact_output then apply_slippage_up executed_sell s.slippage_bps else executed_sell

unfoldable pub encode_path_interaction :
    Settlement → RoutePath → ℕ → ℕ → ℕ → Result (List Interaction)
unfolding approve_amount
encode_path_interaction s (curve p) executed_sell executed_buy deadline =
    encode_curve_swap_interactions s.abi (record {
      pool_address = p.pool.address;
      i = p.i;
      j = p.j;
      amount_in = executed_sell;
      min_amount_out = apply_slippage_down executed_buy s.slippage_bps;
      sell_token = p.token_in;
      buy_token = p.token_out;
      executed_buy = executed_buy;
    })
encode_path_interaction s (v4 p) executed_sell executed_buy deadline =
    encode_v4_swap_interactions s.abi (record {
      sell_token = p.token_in;
      buy_token = p.token_out;
      fee = p.fee;
      tick_spacing = p.tick_spacing;
      amount_in = executed_sell;
      amount_out_minimum = apply_slippage_down executed_buy s.slippage_bps;
      executed_buy = executed_buy;
      deadline = deadline;
      universal_router = s.v4_universal_router;
      permit2 = s.v4_permit2;
    })
encode_path_interaction s (v3 p) executed_sell executed_buy deadline = do
  approve_data ← encode_approve s.abi s.v3_router_address (approve_amount s p executed_sell)
  approve ← make_interaction (record {
    target = p.token_in;
    value = 0;
    call_data = approve_data;
    inputs = [];
    outputs = [];
  })
  swap ← encode_v3_swap s.abi (record {
    token_in = p.token_in;
    token_out = p.token_out;
    fee_in = p.fee_tier_in;
    intermediate = p.intermediate;
    fee_out = p.fee_tier_out;
    exact_output = p.exact_output;
    executed_sell = executed_sell;
    executed_buy = executed_buy;
    recipient = s.gpv2_settlement;
    deadline = deadline;
    slippage_bps = s.slippage_bps;
    router_address = s.v3_router_address;
  })
  ok (approve ∷ swap ∷ [])
