-- ===== src/Examples.antt =====
-- Tests: the theorems applied to small concrete auctions.
mod Fixtures
mod Solves
mod Checks
mod Settlement
mod Markets
mod Assembled
mod Node
mod Served
