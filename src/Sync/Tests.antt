-- ===== src/Sync/Tests.antt =====
-- A run of the synchronizer on the small ledger.
use iroha.Prelude.{◌≡◌, refl, ℕ, Bool, true, List, [], ◌∷◌, none, some, Blob, blob_discrete, arith}
use iroha.Model.Amount.{get_frac_number, get_joint_amount}
use iroha.Model.Types.{Signature}
use iroha.Model.Command.{Block, transfer_asset}
use iroha.Wsv.Table.{fetch, has_key}
use iroha.Wsv.Tables.{asset_key_discrete}
use iroha.Wsv.Command.{upsert_account_asset}
use iroha.Wsv.Query.{get_peers, get_asset, get_account_asset}
use iroha.Ledger.Execution.{execute}
use iroha.Ledger.Simulator.{empty_block}
use iroha.Ledger.Chain.{MutableStorage, validate_block}
use iroha.Ledger.Tests.{alice, bob, coin, key, some_coins, world}
use iroha.Store.FlatFile.{get, id_to_name, digits}
use iroha.Store.Storage.{BlockFormat, Storage, top_hash_of, create_mutable_storage}
use iroha.Sync.{process_commit}
use iroha.Sync.Outcome.{Outcome, IsOrigin, process_commit-Outcome, process_commit_continues}

abbrev signed : Signature
signed = record { signature = 3 ∷ []; pubkey = key }

abbrev top : Block
top = record empty_block { hash = 9 ∷ []; height = 1 }

abbrev block : Block
block = record empty_block {
  hash = 5 ∷ [];
  sigs = signed ∷ [];
  height = 2;
  prev_hash = 9 ∷ [];
  transactions =
      record {
        signatures = signed ∷ [];
        created_ts = 1;
        creator_account_id = alice;
        tx_counter = 1;
        tx_hash = [];
        commands = transfer_asset alice bob coin some_coins ∷ [];
      }
      ∷ [];
  txs_number = 1;
}

-- A format of these two blocks only: their hashes.
abbrev format : BlockFormat
format = record {
  to_bytes = λ b. b.hash;
  from_bytes = λ s. elim s [ [] ↦ none | c ∷ _ ↦ some (record empty_block { hash = c ∷ [] }) ];
}

abbrev in_order : List (ℕ × Block) → List (ℕ × Block)
in_order bs = bs

abbrev accept_all : Block → Bool
accept_all b = true

abbrev nobody : Blob → List Block
nobody _ = []

abbrev before : Storage
before = record {
  block_store = record { current_id = 1; files = (id_to_name 1, 9 ∷ []) ∷ [] };
  wsv = world 500 20;
}

abbrev start : MutableStorage
start = record { wsv = world 500 20; top_hash = 9 ∷ []; block_store = [] }

started : create_mutable_storage format true before ≡ some start
unfolding create_mutable_storage top_hash_of get blob_discrete digits
started = refl

accepted : (validate_block accept_all block start).1 ≡ true
unfolding validate_block get_peers blob_discrete execute get_account_asset fetch asset_key_discrete
    get_asset get_frac_number upsert_account_asset get_joint_amount has_key
accepted = refl

fresh : get 2 before.block_store ≡ none
unfolding get blob_discrete digits
fresh = refl

process_commit-Outcome_example :
    Outcome format in_order true accept_all nobody
      (IsOrigin format in_order true accept_all nobody block)
      before
      (process_commit format in_order true accept_all nobody block before)
process_commit-Outcome_example =
    process_commit-Outcome format in_order true accept_all nobody block before

process_commit_continues_example :
    ((process_commit format in_order true accept_all nobody block before).1 ≡ (block ∷ []) ∷ [])
    × (create_mutable_storage format true
          (process_commit format in_order true accept_all nobody block before).0
        ≡ some (record {
          wsv = (validate_block accept_all block start).0.wsv;
          top_hash = 5 ∷ [];
          block_store = [];
        }))
process_commit_continues_example =
    process_commit_continues format in_order true accept_all nobody block
      (record empty_block { hash = 5 ∷ [] }) before start refl refl started accepted
      (λ e. absurd (omega (arith, e))) (omega arith) fresh refl refl
