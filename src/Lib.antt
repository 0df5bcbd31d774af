-- ===== src/Lib.antt =====
-- The core of Iroha, a permissioned ledger of C++: how peers agree on a block by the consensus YAC,
-- what the commands of a block do to the world state view in the database, how proposals are
-- ordered, filtered and made into blocks, how chains of blocks are accepted and kept, how clients
-- are answered, and how all of it goes over the wire and into files.
--
-- The parts, as a transaction meets them:
-- * Torii (irohad/torii): Commands takes the transactions of clients, checks and propagates them;
--   Queries answers queries, by Query (irohad/model/impl/query_execution.cpp); Handlers is the map
--   from hashes to the responses of clients that both have.
-- * Ordering (irohad/ordering/impl/ordering_service_impl.cpp): the queue of transactions, and the
--   proposals that it becomes. The peer query is asked at each step, so its answer is an argument.
-- * Ledger/Simulator (irohad/simulator/impl/simulator.cpp): a proposal is checked and made into a
--   block on top of the last one. The block query and the hash of a block are parameters.
-- * Ledger/Stateful (irohad/validation/impl/stateful_validator_impl.cpp, with `apply` of
--   irohad/ametsuchi/impl/temporary_wsv_impl.cpp): the transactions of a proposal that are kept.
-- * Ledger/Stateless (irohad/validation/impl/stateless_validator_impl.cpp): signatures and times.
-- * Ledger/Validation (irohad/model/impl/stateful_command_validation.cpp) and Ledger/Execution
--   (irohad/model/impl/command_execution.cpp): may a command be done, and what it does.
-- * Yac (irohad/consensus/yac): Supermajority, BlockStorage, ProposalStorage and VoteStorage are the
--   files of storage/impl; Slots is the search that two of them share; ClusterOrdering, Round and
--   Messages are impl/cluster_order.cpp, impl/yac.cpp (with impl/timer_impl.cpp) and messages.hpp;
--   Gate is impl/yac_gate_impl.cpp, where blocks go into a round and come out of a commit.
-- * Ledger/Chain (irohad/validation/impl/chain_validator_impl.cpp, with `apply` of
--   irohad/ametsuchi/impl/mutable_storage_impl.cpp): which blocks are accepted, and the tables then.
-- * Wsv (irohad/ametsuchi/impl/postgres_wsv_command.cpp, postgres_wsv_query.cpp and the schema in
--   storage_impl.hpp): the tables, the statements and the queries; Table is what SQL does to one
--   table, Permissions the text that the permissions of an account are kept in.
-- * Sync (irohad/synchronizer/impl/synchronizer_impl.cpp): a commit of the consensus goes into the
--   storage, or the missing blocks are loaded; Insertion (irohad/main/impl/raw_block_insertion.cpp)
--   puts blocks in without validation.
-- * Store/FlatFile (irohad/ametsuchi/impl/flat_file/flat_file.cpp), a file for each block, and
--   Store/Storage (irohad/ametsuchi/impl/storage_impl.cpp), the block store with the tables.
-- * Wire (schema/*.proto, irohad/model/converters/impl/pb_*.cpp,
--   irohad/consensus/yac/impl/network_impl.cpp): the messages, and what goes into and out of them.
--   Ordering/Gate (irohad/ordering/impl/ordering_gate_impl.cpp) is between proposals and messages.
-- * Json (irohad/model/converters/impl/json_*.cpp): the documents that blocks are kept as. Its
--   `json_format` is a `BlockFormat`, by which Storage writes and reads blocks.
-- * MapQueue (libs/map_queue/map_queue.hpp): a queue that knows its greatest key.
-- * Bootstrap (iroha-cli/bootstrap_network.cpp): the genesis block, and how it goes to the peers.
-- * Model (irohad/model, libs/common/types.hpp): accounts, commands, blocks, the arithmetic of
--   amounts; Operators (irohad/model/impl/model_operators.cpp) is `==`, and Hash
--   (irohad/model/model_hash_provider_impl.cpp) is what is hashed.
-- Prelude holds the names that all of them share. The modules called Tests hold small inputs.
--
-- State is passed: a handler or a statement takes the state and gives the state after it, with what
-- it returns. What is sent or notified is a list in the state. A statement of the database that
-- breaks a constraint gives false and the tables as they were.
--
-- Numbers are ℕ, with the wrap of uint64_t and uint32_t written out. `ipow` works on an int: its
-- bits are kept mod 2^32, where C++ leaves the overflow undefined. Fuel: 32 rounds for `ipow` (an int
-- is 0 after 31 halvings) and 20 for the digits of a uint64_t. The tests for a supermajority divide by
-- 3.0; they are read over the rationals.
--
-- Not modelled: gRPC, protobuf's and rapidjson's own encodings, the crypto (SHA-3 and what verifies
-- signatures are parameters), the connection to the database and its failures, Redis, configuration
-- and the command line. Left out too: the peer service, the block loader, the loop of gRPC calls in
-- Torii, and how the daemon is put together.
pub mod Prelude
pub mod MapQueue
pub mod Model
pub mod Wsv
pub mod Wire
pub mod Query
pub mod Json
pub mod Store
pub mod Ledger
pub mod Torii
pub mod Sync
pub mod Bootstrap
pub mod Ordering
pub mod Yac
