-- ===== src/Ledger/Tests/Blocks.antt =====
-- Proposals and blocks on the small ledger.
use iroha.Prelude.{
  ◌≡◌, refl, ℕ, Bool, true, false, List, [], ◌∷◌, ◌++◌, some, Blob, blob_discrete, arith, ◌↔◌,
}
use mathlib.Core.List.{Sublist}
use iroha.Model.Amount.{get_frac_number, get_joint_amount}
use iroha.Model.Types.{Signature}
use iroha.Model.Command.{Command, Transaction, Proposal, Block, transfer_asset, create_domain}
use iroha.Wsv.Tables.{Wsv, asset_key_discrete}
use iroha.Wsv.Table.{select, fetch, has_key, upsert}
use iroha.Wsv.Permissions.{read_permissions, write_permissions}
use iroha.Wsv.Command.{upsert_account_asset}
use iroha.Wsv.Query.{get_peers, get_signatories, get_account, get_asset, get_account_asset}
use iroha.Ledger.Execution.{execute, execute_add_asset_quantity, execute_transfer_asset}
use iroha.Ledger.Execution.Refusals.{zero_precision-refused}
use iroha.Ledger.Validation
use iroha.Ledger.Stateful.{validate_proposal, filter_step}
use iroha.Ledger.Stateful.Replay.{Selects, validate_proposal-Selects, validate_proposal-replays}
use iroha.Ledger.Chain.{MutableStorage, execute_transactions, validate_block, validate_chain}
use iroha.Ledger.Chain.Links.{IsChain, validate_chain_iff}
use iroha.Ledger.Chain.Stops.{Stops, validate_chain-Stops}
use iroha.Ledger.Simulator.{on_proposal, empty_block, process_proposal, process_verified_proposal}
use iroha.Ledger.Simulator.Acceptance.{simulated_block-accepted}
use iroha.Ledger.Tests.{alice, bob, coin, key, domain, some_coins, world}

abbrev signed : Signature
signed = record { signature = 3 ∷ []; pubkey = key }

abbrev transaction : List Command → Transaction
transaction commands = record {
  signatures = signed ∷ [];
  created_ts = 1;
  creator_account_id = alice;
  tx_counter = 1;
  tx_hash = [];
  commands = commands;
}

-- A transfer, and a domain that the creator may not make.
abbrev proposal : Proposal
proposal = record {
  transactions =
      transaction (transfer_asset alice bob coin some_coins ∷ [])
      ∷ transaction (transfer_asset alice bob coin some_coins ∷ create_domain domain ∷ [])
      ∷ [];
  height = 2;
}

abbrev top : Block
top = record empty_block { hash = 9 ∷ []; height = 1 }

abbrev blocks : ℕ → ℕ → List Block
blocks from to = top ∷ []

abbrev hash_of : Block → Blob
hash_of b = 5 ∷ []

abbrev accept_all : Block → Bool
accept_all b = true

abbrev storage : MutableStorage
storage = record { wsv = world 500 20; top_hash = 9 ∷ []; block_store = [] }

abbrev block : Block
block = record empty_block {
  hash = 5 ∷ [];
  sigs = signed ∷ [];
  height = 2;
  prev_hash = 9 ∷ [];
  transactions = transaction (transfer_asset alice bob coin some_coins ∷ []) ∷ [];
  txs_number = 1;
}

validate_proposal-Selects_example :
    Selects
      (world 500 20)
      proposal.transactions
      (validate_proposal proposal (world 500 20)).1.transactions
      (validate_proposal proposal (world 500 20)).0
    × ((validate_proposal proposal (world 500 20)).1.height ≡ 2)
validate_proposal-Selects_example = validate_proposal-Selects proposal (world 500 20)

validate_proposal-replays_example :
    Sublist (validate_proposal proposal (world 500 20)).1.transactions proposal.transactions
    × (execute_transactions
          (validate_proposal proposal (world 500 20)).1.transactions
          (world 500 20)
        ≡ ((validate_proposal proposal (world 500 20)).0, true))
validate_proposal-replays_example = validate_proposal-replays proposal (world 500 20)

-- The second transaction fails at its second command, and takes the first with it.
kept : (validate_proposal proposal (world 500 20)).1.transactions ≡ block.transactions
unfolding validate_proposal filter_step get_account blob_discrete fetch get_signatories get_asset
    get_account_asset asset_key_discrete get_frac_number get_joint_amount execute
    upsert_account_asset has_key upsert read_permissions write_permissions select
    Validation.validate
kept = refl

validate_chain_iff_example : ((validate_chain accept_all (block ∷ []) storage).1 ≡ true) ↔ (
    (w' : Wsv) × (last_hash : Blob) × IsChain accept_all
      (world 500 20)
      (9 ∷ [])
      (block ∷ [])
      w'
      last_hash)
validate_chain_iff_example = validate_chain_iff accept_all (block ∷ []) storage

-- The block is accepted.
accepted : (validate_chain accept_all (block ∷ []) storage).1 ≡ true
unfolding validate_chain get_peers blob_discrete execute get_account_asset fetch asset_key_discrete
    get_asset get_frac_number upsert_account_asset get_joint_amount has_key
accepted = refl

-- The second block is the first one again, which cannot come after itself.
validate_chain-Stops_example :
    let (t, accepted) = validate_chain accept_all (block ∷ block ∷ []) storage in
    (before : List Block) × (after : List Block) × (block ∷ block ∷ [] ≡ before ++ after)
    × IsChain accept_all (world 500 20) (9 ∷ []) before t.wsv t.top_hash
    × Stops accept_all t after accepted
validate_chain-Stops_example = validate_chain-Stops accept_all (block ∷ block ∷ []) storage

abbrev made : Block
made =
    process_verified_proposal blocks hash_of (validate_proposal proposal (world 500 20)).1
      (record { last_block = top })

makes :
    on_proposal blocks hash_of (world 500 20) proposal (record { last_block = empty_block })
    ≡ (record { last_block = top }, some made)
unfolding on_proposal process_proposal
makes = refl

simulated_block-accepted_example :
    ((validate_block accept_all (record made { sigs = signed ∷ [] }) storage).1 ≡ true)
    × ((validate_block accept_all (record made { sigs = signed ∷ [] }) storage).0.wsv
        ≡ (validate_proposal proposal (world 500 20)).0)
    × (made.height ≡ 2)
simulated_block-accepted_example =
    simulated_block-accepted blocks hash_of accept_all storage proposal
      (record { last_block = empty_block }) (record { last_block = top }) made (signed ∷ []) makes
      refl (omega arith) refl

abbrev whole_world : Wsv
whole_world = record (world 500 20) {
  asset = record { asset_id = coin; domain_id = domain; precision = 0 } ∷ [];
}

found :
    get_asset whole_world coin
    ≡ some (record { asset_id = coin; domain_id = domain; precision = 0 })
unfolding get_asset fetch blob_discrete
found = refl

zero_precision-refused_example :
    (execute_add_asset_quantity whole_world bob coin some_coins ≡ (whole_world, false))
    × (execute_transfer_asset whole_world alice bob coin some_coins ≡ (whole_world, false))
zero_precision-refused_example =
    zero_precision-refused whole_world
      (record { asset_id = coin; domain_id = domain; precision = 0 }) alice bob coin some_coins
      found refl
