-- ===== src/Routing.antt =====
-- src/routing: quoting swaps on chain through batched calls.
pub mod Multicall
pub mod Batch
pub mod V3Batched
pub mod V4Quoter
pub mod CurveQuoter
pub mod AmmV2
pub mod AmmV3
pub mod Multihop
pub mod Rpc
