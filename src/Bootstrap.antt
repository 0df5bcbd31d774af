-- ===== src/Bootstrap.antt =====
-- iroha-cli/bootstrap_network.cpp: the genesis block, and how it goes to the trusted peers. What a
-- peer answers is a parameter. A block that is declared and not written has arbitrary bytes and
-- numbers in the fields that are left.
pub mod Delivery
use iroha.Prelude.{
  ℕ, ◌%◌, ◌^◌, Bool, true, false, List, [], ◌∷◌, ◌++◌, map, Option, none, some, Blob, length,
  if◌then◌else◌, ◌>>=◌,
}
use iroha.Model.Types.{Peer}
use iroha.Model.Command.{Transaction, Block, Command, add_peer}
use iroha.Model.Hash.{Kind, hash_block}
use iroha.Ledger.Simulator.{zeros}
use iroha.Json.{Json, array_at}
use iroha.Json.Blocks.{deserialize_transaction}

module _ (sha3_256 : Blob → Blob) (vtable : Kind → Blob) where
  -- The transactions are those of the document; the value of an optional that has none throws.
  unfoldable pub parse_genesis_block : (Blob → ℕ) → (ℕ → Blob) → ℕ → Json → Option Block
  unfolding hash_block
  parse_genesis_block strtol uninit created_ts doc = do
    txs ← array_at (deserialize_transaction strtol uninit) "transactions" doc
    let block : Block = record {
      hash = uninit 32;
      sigs = [];
      created_ts = created_ts;
      height = 1;
      prev_hash = zeros 32;
      txs_number = length txs % 2 ^ 16;
      merkle_root = uninit 32;
      transactions = txs;
    }
    some (record block { hash = hash_block sha3_256 vtable block })

  -- `add_peers_tx` has the fields of `tx`, which the source leaves as they are, and the commands.
  unfoldable pub merge_tx_add_trusted_peers : Transaction → Block → List Peer → Block
  unfolding hash_block
  merge_tx_add_trusted_peers tx block trusted_peers =
      let add_peers_tx : Transaction = record tx {
        commands = map (λ peer. add_peer peer.pubkey peer.address) trusted_peers;
      } in
      let ret : Block = record block {
        transactions = add_peers_tx ∷ block.transactions;
        txs_number = length (add_peers_tx ∷ block.transactions) % 2 ^ 16;
      } in
      record ret { hash = hash_block sha3_256 vtable ret }

-- What goes to an address.
pub data Sent : Type 0 where
  genesis_block : (address : Blob) (block : Block) → Sent
  abort_genesis_block : (address : Blob) (block : Block) → Sent

unfoldable pub abort_network : List Peer → Block → List Sent
abort_network trusted_peers block =
    map (λ peer. abort_genesis_block peer.address block) trusted_peers

module _ (applies : Peer → Bool) where
  -- The loop over the peers that are left, `false` where the assertion fails.
  unfoldable pub send_to : List Peer → Block → List Peer → List Sent × Bool
  unfolding abort_network
  send_to trusted_peers block [] = ([], true)
  send_to trusted_peers block (peer ∷ peers) =
      let rest = send_to trusted_peers block peers in
      if applies peer
      then (genesis_block peer.address block ∷ rest.0, rest.1)
      else (genesis_block peer.address block ∷ abort_network trusted_peers block, false)

  unfoldable pub run_network : List Peer → Block → List Sent × Bool
  unfolding send_to
  run_network trusted_peers block = send_to trusted_peers block trusted_peers
