-- ===== src/Wire.antt =====
-- The messages of the protocol (schema/*.proto) and how the model goes into them and comes out
-- (irohad/model/converters/impl/pb_*.cpp, irohad/consensus/yac/impl/network_impl.cpp).
pub mod Bytes
pub mod Messages
pub mod Commands
pub mod Transactions
pub mod Blocks
pub mod Votes
pub mod Queries
pub mod Responses
pub mod Tests
