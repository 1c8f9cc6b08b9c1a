-- ===== src/Solver/Router.antt =====
-- `RouterSolver` of src/solver/router.py: the candidate paths, the batched solve and its guards.
pub mod Candidates
pub mod Draft
pub mod Batched
pub mod Fallback
pub mod Legacy
