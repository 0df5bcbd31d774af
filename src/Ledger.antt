-- ===== src/Ledger.antt =====
-- The ledger: commands, the validators of proposals and of chains, the simulator between them.
pub mod Execution
pub mod Validation
pub mod Stateful
pub mod Chain
pub mod Simulator
pub mod Stateless
pub mod Tests
