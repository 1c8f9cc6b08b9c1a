-- ===== src/Shadow/Feasibility.antt =====
-- src/shadow/feasibility.py and src/shadow/order_cache.py: a solution is encoded as a call of
-- `settle`, with the signatures of the orderbook, and simulated at a node. Redis is a dict without
-- expiry; the orderbook's API and the node are parameters. A number in a JSON object is its text.
pub mod Orders
pub mod Rows
pub mod Framing
pub mod Cached
pub mod Simulated
pub mod Tokens
use Prim.Native.Char.{code}
use Prim.Native.String.{◌++◌ as ◌++ₛ◌}
use cow_solver_skeleton.Prelude.{
  ℕ, zero, suc, String, Bool, true, false, Option, none, some, List, [], ◌∷◌, ◌++◌, map, filter,
  length, lower, ltb, ◌&&◌, ◌==◌, ◌=ₛ◌, if◌then◌else◌, Error, value_error, zero_division,
  other_error, Result, ok, err, ◌>>=◌, map_m,
}
use cow_solver_skeleton.Dict.{Dict, get}
use cow_solver_skeleton.Model.{Solution, Trade, TradeKind, WireInteraction, fulfillment, jit}
use cow_solver_skeleton.Encoder.Bytes.{
  Bytes, starts_0x, drop_text, take_text, from_hex, to_hex, str,
}
use cow_solver_skeleton.Encoder.Abi.{Abi}
use cow_solver_skeleton.Encoder.Settle.{SettleTrade, Call, encode_settle, encode_trade_flags}
use cow_solver_skeleton.Solver.Orchestrator.{Verdict, verdict}
use cow_solver_skeleton.Routing.Multicall.{strip_0x, message}
use Orders.{or_else, to_int, Orderbook, Cache}
use Rows.{RawTrade, Step, unknown, known, sorted_tokens, price_under, settle_trades}

-- The JSON object of a solution.
pub record RawInteraction : Type 0 where
  pub target : String
  pub value : Option String
  pub call_data : Option String

pub record RawSolution : Type 0 where
  pub trades : List RawTrade
  pub prices : Dict (Option String)
  pub interactions : List RawInteraction

unfoldable pub is_fulfillment : RawTrade → Bool
is_fulfillment t = elim t.kind [ none ↦ false | some k ↦ k =ₛ "fulfillment" ]

unfoldable pub intra_call : RawInteraction → Result Call
unfolding or_else to_int from_hex
intra_call ix = do
  bytes ← from_hex (strip_0x (or_else ix.call_data "0x"))
  ok (ix.target, to_int ix.value, bytes)

-- The node's answer to a simulated call: whether it succeeded, and its payload.
abbrev pub Capture : Type 0
Capture = String → String → String → String → Result (Bool × String)

-- `Verdict`, as the orchestrator reads it, of an answer of the node
unfoldable pub of_answer : Bool × String → Verdict
unfolding take_text
of_answer (true, payload) = verdict (some true) none
of_answer (false, payload) = verdict (some false) (some (take_text 500 payload))

-- The dependencies of `FeasibilityGate`.
pub record Deps : Type 0 where
  pub abi : Abi
  pub api : Orderbook
  pub rpc : Capture
  pub settlement_addr : String
  pub solver_addr : String

-- The clearing price of each token.
unfoldable pub clearing_prices_of : Dict (Option String) → List String → List ℕ
unfolding price_under to_int
clearing_prices_of prices = map (λ tok. to_int (price_under prices tok))

-- From the rows to the node's answer.
unfoldable pub simulate :
    Deps → String → RawSolution → List String → List SettleTrade → Result (Bool × String)
unfolding map_m intra_call encode_settle to_hex clearing_prices_of
simulate deps block sol tokens rows = do
  intra ← map_m intra_call sol.interactions
  calldata ← encode_settle deps.abi tokens (clearing_prices_of sol.prices tokens) rows intra
  deps.rpc deps.settlement_addr ("0x" ++ₛ to_hex calldata) deps.solver_addr block

unfoldable pub verdict_of : Result (Bool × String) → Verdict
unfolding of_answer
verdict_of (ok answer) = of_answer answer
verdict_of (err e) = verdict none (some ("validation error: " ++ₛ message e))

-- The rows, or the reason why there are none.
unfoldable pub judge_rows :
    Deps → String → RawSolution → List String → Result (Step (List SettleTrade)) → Verdict
unfolding simulate verdict_of
judge_rows deps block sol tokens (ok (known rows)) =
    verdict_of (simulate deps block sol tokens rows)
judge_rows deps block sol tokens (ok (unknown reason)) = verdict none (some reason)
judge_rows deps block sol tokens (err e) = verdict_of (err e)

-- `validate_solution`: the cache behind it, and its verdict. It never raises.
unfoldable pub validate_solution : Deps → String → Cache → RawSolution → Cache × Verdict
unfolding is_fulfillment sorted_tokens settle_trades judge_rows
validate_solution deps block cache sol =
    let trades = filter is_fulfillment sol.trades in
    let tokens = sorted_tokens sol.prices in
    let (cache', rows) = settle_trades deps.api tokens cache trades in
    if length trades == 0
    then (cache, verdict none (some "no fulfillment trades"))
    else if length tokens == length sol.prices
    then (cache', judge_rows deps block sol tokens rows)
    else (cache, verdict none (some "duplicate token keys (case-insensitive)"))

-- `solution.model_dump(mode="json", by_alias=True)`
kind_text : TradeKind → String
kind_text fulfillment = "fulfillment"
kind_text jit = "jit"

dump_trade : Trade → RawTrade
unfolding kind_text str
dump_trade t = record {
  kind = some (kind_text t.kind);
  order = some t.order_uid;
  executed_amount = some (str t.executed_amount);
}

dump_interaction : WireInteraction → RawInteraction
dump_interaction ix = record {
  target = ix.target;
  value = some ix.value;
  call_data = some ix.call_data;
}

unfoldable pub model_dump : Solution → RawSolution
unfolding dump_trade dump_interaction str
model_dump sol = record {
  trades = map dump_trade sol.trades;
  prices = map (λ p. (p.0, some (str p.1))) sol.prices;
  interactions = map dump_interaction sol.interactions;
}

-- `FeasibilityGate.check` on the cache that it finds
unfoldable pub check : Deps → Cache → Solution → Verdict
unfolding validate_solution model_dump
check deps cache sol = (validate_solution deps "latest" cache (model_dump sol)).1
