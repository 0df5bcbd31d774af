-- ===== src/Torii.antt =====
-- irohad/torii: the services that the clients call, and the processors behind them.
pub mod Handlers
pub mod Commands
pub mod Queries
pub mod Tests
