-- ===== src/Wsv.antt =====
-- The world state view (irohad/ametsuchi): its tables, statements, queries and transactions.
pub mod Table
pub mod Permissions
pub mod Tables
pub mod Command
pub mod Query
