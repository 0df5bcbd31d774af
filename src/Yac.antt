-- ===== src/Yac.antt =====
-- The YAC consensus (irohad/consensus/yac): votes, their storages, the round, the gate.
pub mod Messages
pub mod Supermajority
pub mod StorageResult
pub mod Slots
pub mod BlockStorage
pub mod ProposalStorage
pub mod VoteStorage
pub mod ClusterOrdering
pub mod Round
pub mod Gate
pub mod Tests
