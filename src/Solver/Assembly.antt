-- ===== src/Solver/Assembly.antt =====
-- `load_default_orchestrator` of src/solver/orchestrator.py: the strategies in their order, and the
-- gates. The strategies of the private submodule are an argument, none where it is missing. The
-- feasibility gate is what `_build_feasibility_gate` returns: none where its construction fails.
pub mod Released
use cow_solver_skeleton.Prelude.{
  ℕ, String, Bool, true, Option, none, some, List, [], ◌∷◌, ◌++◌, if◌then◌else◌, Result, ok, err,
}
use cow_solver_skeleton.Model.{Order, Auction, Solution, Outcome}
use cow_solver_skeleton.Routing.Multicall.{message}
use cow_solver_skeleton.Solver.Naive.{Refiner}
use cow_solver_skeleton.Solver.Router.Batched.{Router}
use cow_solver_skeleton.Solver.JointClearing.{JointClearing}
use cow_solver_skeleton.Solver.Ebbo.{Market}
use cow_solver_skeleton.Solver.Orchestrator.{
  Orchestrator, Strategy, Answer, answered, timed_out, raised, Candidate, Verdict,
}
use cow_solver_skeleton.Solver.Naive
use cow_solver_skeleton.Solver.Router.Batched
use cow_solver_skeleton.Solver.JointClearing

-- The settings that the construction reads.
pub record Settings : Type 0 where
  pub long_tail_enabled : Bool
  pub joint_clearing_enabled : Bool
  pub ebbo_enabled : Bool
  pub ebbo_tolerance_bps : ℕ
  pub feasibility_gate_enabled : Bool

-- The strategies of the private submodule, and its ghost detector.
pub record Edge : Type 0 where
  pub bipartite : Strategy
  pub multi_party : Strategy
  pub long_tail : Strategy
  pub is_ghost : Order → Result Bool
  pub compose : List Candidate → ℕ → Result (Option Solution)

-- What the strategies and the gates are built from. `timeout` is the text of the exception where a
-- strategy runs out of its time on the auction.
pub record Parts : Type 0 where
  pub now : ℕ
  pub refine : Option Refiner
  pub router : Router
  pub joint : JointClearing
  pub timeout : String → Auction → Option String
  pub latency_ms : String → Auction → ℕ
  pub market : Market
  pub gate : Option (Solution → Verdict)

unfoldable pub answer_of : Result Outcome → Answer
answer_of (ok out) = answered out
answer_of (err e) = raised (message e)

module _ (parts : Parts) where
  unfoldable pub strategy_of : String → (Auction → Result Outcome) → Strategy
  unfolding answer_of
  strategy_of name solve = record {
    name = name;
    run = λ auction. elim (parts.timeout name auction) [
      | none ↦ answer_of (solve auction)
      | some text ↦ timed_out text
    ];
    latency_ms = parts.latency_ms name;
  }

  abbrev pub router_with : Option (Order → Result Bool) → Router
  router_with is_ghost = record parts.router { is_ghost = is_ghost }

  abbrev pub joint_with : Option (Order → Result Bool) → JointClearing
  joint_with is_ghost = record parts.joint { is_ghost = is_ghost }

  abbrev pub naive_strategy : Strategy
  naive_strategy = strategy_of "naive" (Naive.solve parts.refine)

  abbrev pub router_strategy : Option (Order → Result Bool) → Strategy
  router_strategy is_ghost =
      strategy_of "router-v2" (Batched.solve (router_with is_ghost) parts.now)

  abbrev pub joint_strategy : Option (Order → Result Bool) → Strategy
  joint_strategy is_ghost =
      strategy_of "joint-clearing" (JointClearing.solve (joint_with is_ghost) parts.now)

  abbrev detector : Option Edge → Option (Order → Result Bool)
  detector none = none
  detector (some e) = some e.is_ghost

  abbrev edge_strategies : Settings → Option Edge → List Strategy
  edge_strategies settings none = []
  edge_strategies settings (some e) =
      e.bipartite ∷ e.multi_party ∷ (if settings.long_tail_enabled then e.long_tail ∷ [] else [])

  -- `_load_default_strategies_with_multicall`
  unfoldable pub load_strategies : Settings → Option Edge → List Strategy
  unfolding strategy_of
  load_strategies settings edge =
      router_strategy (detector edge) ∷ naive_strategy ∷ edge_strategies settings edge
      ++ (if settings.joint_clearing_enabled then joint_strategy (detector edge) ∷ [] else [])

  composer : Option Edge → Option (List Candidate → ℕ → Result (Option Solution))
  composer none = none
  composer (some e) = some e.compose

  -- `load_default_orchestrator`
  unfoldable pub load_orchestrator : Settings → Option Edge → Orchestrator
  unfolding load_strategies composer
  load_orchestrator settings edge = record {
    strategies = load_strategies settings edge;
    run_all = true;
    compose = true;
    edge = composer edge;
    ebbo = if settings.ebbo_enabled then some parts.market else none;
    ebbo_tolerance_bps = settings.ebbo_tolerance_bps;
    feasibility_gate = if settings.feasibility_gate_enabled then parts.gate else none;
  }
