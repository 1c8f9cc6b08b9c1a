-- ===== src/Liquidity.antt =====
-- src/liquidity: the contract of a liquidity source, and the aggregator over several of them.
pub mod Source
pub mod Aggregator
pub mod V2
pub mod V3
