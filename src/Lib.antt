-- ===== src/Lib.antt =====
-- A model of the solver: of an auction's orders it picks those that it can settle through on-chain
-- pools, and answers trades, one clearing price for each token, and the calls that execute them.
--
-- Parts, and the files that model them (paths from the repository's root):
--   Model               src/models: orders, auctions, solutions; amounts are natural numbers
--   Encoder             src/encoder: the calls of a swap (V2, V3, V4, Curve), the slippage bounds, and
--                       Settle, the settle call with its decoding and the flags of a trade (settle.py)
--   Routing             src/routing: multicall.py (with its bisection on a gas overflow), the batched
--                       quoters v3_batched.py, v4_quoter.py, curve_quoter.py, and the path search of
--                       amm_v2.py, amm_v3.py and multihop.py; Rpc, the calls of rpc.py with retries
--   Liquidity           src/liquidity: base.py, aggregator.py, v2.py and v3.py
--   Solver              src/solver: OrderValidity (order_validity.py), Ranking, Quotes, Prices, Route
--                       and Router (router.py), JointClearing (joint_clearing.py), Ebbo (ebbo.py),
--                       Naive (naive.py), PriceRefiner (price_refiner.py), Orchestrator
--                       (orchestrator.py) and Assembly (load_default_orchestrator, same file)
--   Shadow.Scoring      src/shadow/scoring.py
--   Shadow.Feasibility  src/shadow/feasibility.py and order_cache.py
--   Service             src/main.py: the handler of /solve, with the salvage of a cancelled solve
--   Prelude, Dict       shared helpers; Examples holds the tests
-- A solver ranks and filters the orders, quotes their candidate paths over the multicall, and fills
-- them one after the other into a draft; the orchestrator runs the solvers and gates their answers,
-- by the external quotes (Ebbo) and by a simulated settlement (Feasibility, over Encoder.Settle).
-- Functions keep the names of the source without a leading underscore.
--
-- Python's exceptions are values of Result; how a strategy or a gate ends, with an exception or a
-- timeout, is a value of its own type. Loops are structural recursion. The fuel of the bisection
-- (aggregate_resilient) is the number of calls, and that of the chunks (batched_quote) as well: each
-- round takes at least one call.
--
-- Parameters: eth_abi and eth_utils (Abi), the node (eth_call), the orderbook's API, the clock, the
-- timeouts that cut a strategy, a source or the whole solve short, pydantic's parsing, the ghost
-- detector, the composer and the strategies of the private submodule, and the quotes of paths that the
-- legacy mode and the refiner ask for. The cache of orders, in Redis, is a dict without expiry.
--
-- Not modelled: the routes of the HTTP service but /solve, its counters, its watchdog and what it
-- persists in the background; its clients but for the retries of rpc.py; persistence, configuration
-- and scripts, which are input and output; log lines; the allowances and health checks of the
-- liquidity sources, which no solve calls.
mod Prelude
mod Examples
pub mod Dict
pub mod Model
pub mod Encoder
pub mod Routing
pub mod Liquidity
pub mod Solver
pub mod Shadow
pub mod Service
