-- ===== src/Shadow.antt =====
-- src/shadow: what observes the solver. The scoring and the feasibility check are modelled.
pub mod Scoring
pub mod Feasibility
