-- ===== src/Encoder.antt =====
-- src/encoder: from a quoted route to the interactions of a settlement.
pub mod Bytes
pub mod Abi
pub mod Interaction
pub mod Slippage
pub mod V3
pub mod V4
pub mod Curve
pub mod Settle
pub mod V2
