-- ===== src/Store.antt =====
-- The block store of irohad/ametsuchi.
pub mod FlatFile
pub mod Storage
pub mod Tests
