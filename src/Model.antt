-- ===== src/Model.antt =====
-- The model (libs/common/types.hpp, irohad/model): amounts, accounts, commands, transactions.
pub mod Amount
pub mod Types
pub mod Command
pub mod Operators
pub mod Hash
pub mod Tests
