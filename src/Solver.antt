-- ===== src/Solver.antt =====
-- src/solver: the strategies, what they share, and the orchestrator.
pub mod Prices
pub mod Quotes
pub mod Ranking
pub mod Route
pub mod OrderValidity
pub mod Router
pub mod JointClearing
pub mod Ebbo
pub mod Orchestrator
pub mod Naive
pub mod PriceRefiner
pub mod Assembly
