-- ===== src/Torii/Tests.antt =====
-- Two clients.
use iroha.Prelude.{◌≡◌, refl, ℕ, Bool, true, [], ◌∷◌, some, Blob, traverse, blob_discrete, arith}
use iroha.Model.Command.{Transaction, create_domain}
use iroha.Model.Hash.{kind}
use iroha.Ledger.Simulator.{zeros}
use iroha.Ledger.Stateless.{validate}
use iroha.Ledger.Tests.{alice, bob, coin, world}
use iroha.Query.{Query, Request, get_account, get_account_assets}
use iroha.Wsv.Query
use iroha.Wsv.Table.{fetch}
use iroha.Wsv.Tables.{asset_key_discrete}
use iroha.Wsv.Permissions.{read_permissions, write_permissions}
use iroha.Query.Execution.{execute}
use iroha.Query.Tests.{no_transactions}
use iroha.Wire.Messages.{PbTransaction, pb_create_domain}
use iroha.Wire.Transactions.{deserialize_transaction}
use iroha.Wire.Queries.{
  PbQuery, PbRequest, pb_get_account, pb_get_account_assets, deserialize_query,
}
use iroha.Wire.Responses.{
  PbAccountAsset, pb_account_assets_response, response_not_set, serialize_answer,
  serialize_response,
}
use iroha.Wire.Tests.{sha3_256, vtable}
use iroha.Torii.Handlers.{find, insert, write}
use iroha.Torii.Commands.{
  CommandService, stateless_validation_failed, stateless_validation_success, transaction_handle,
  notify, take_transaction, torii_async,
}
use iroha.Torii.Commands.Answers.{IsOutcome, take_transaction-IsOutcome, torii_async_collides}
use iroha.Torii.Queries.{QueryService, take_query, query_handle, find_async}
use iroha.Torii.Queries.Answers.{find_async_collides}

abbrev accept_all : {A : Type 0} → A → Bool
accept_all a = true

abbrev pb_transaction : Blob → ℕ → PbTransaction
pb_transaction domain tx_counter = record {
  created_time = 900;
  signatures = [];
  creator_account_id = alice;
  tx_counter = tx_counter;
  commands = pb_create_domain domain ∷ [];
}

abbrev transaction : Blob → ℕ → Transaction
transaction domain tx_counter = record {
  signatures = [];
  created_ts = 900;
  creator_account_id = alice;
  tx_counter = tx_counter;
  tx_hash = zeros 32;
  commands = create_domain domain ∷ [];
}

abbrev idle : CommandService
idle = record { handler_map = []; responses = λ r. stateless_validation_failed; propagated = [] }

take_transaction-IsOutcome_example :
    (service : CommandService) × ((take_transaction accept_all 1000 (transaction (1 ∷ []) 1) 0 idle
        ≡ some service)
      × IsOutcome accept_all 1000 (transaction (1 ∷ []) 1) 0 idle service)
take_transaction-IsOutcome_example =
    take_transaction-IsOutcome accept_all 1000 (transaction (1 ∷ []) 1) 0 idle (omega arith)
      (omega arith)

read :
    (domain : Blob) (n : ℕ)
    → deserialize_transaction sha3_256 vtable zeros (pb_transaction domain n)
      ≡ some (transaction domain n)
unfolding deserialize_transaction traverse
read domain n = refl

abbrev busy : CommandService
busy = record {
  handler_map = (zeros 32, 0) ∷ [];
  responses = write 0 stateless_validation_success (λ r. stateless_validation_failed);
  propagated = transaction (1 ∷ []) 1 ∷ [];
}

taken :
    torii_async accept_all 1000 sha3_256 vtable zeros (pb_transaction (1 ∷ []) 1) 0 idle ≡ some busy
unfolding torii_async deserialize_transaction traverse take_transaction find notify insert
    blob_discrete transaction_handle validate zeros
taken = refl

torii_async_collides_example :
    torii_async accept_all 1000 sha3_256 vtable zeros (pb_transaction (2 ∷ []) 257) 1 busy
    ≡ some (record busy { responses = write 1 stateless_validation_failed busy.responses })
unfolding kind
torii_async_collides_example =
    torii_async_collides accept_all 1000 sha3_256 vtable zeros (pb_transaction (1 ∷ []) 1)
      (pb_transaction (2 ∷ []) 257) (transaction (1 ∷ []) 1) (transaction (2 ∷ []) 257) 0 1 idle
      busy (read (1 ∷ []) 1) (read (2 ∷ []) 257) refl refl refl taken

abbrev pb_query : PbRequest → ℕ → PbQuery
pb_query request query_counter = record {
  created_time = 900;
  signature = record { pubkey = zeros 32; signature = zeros 64 };
  creator_account_id = alice;
  query_counter = query_counter;
  request = request;
}

abbrev query : Request → ℕ → Query
query request query_counter = record {
  signature = record { signature = zeros 64; pubkey = zeros 32 };
  creator_account_id = alice;
  created_ts = 900;
  query_hash = zeros 32;
  query_counter = query_counter;
  request = request;
}

abbrev silent : QueryService
silent = record { handler_map = []; responses = λ r. response_not_set }

abbrev own_balance : PbAccountAsset
own_balance = record { asset_id = coin; account_id = alice; balance = 500 }

abbrev answered : QueryService
answered = record {
  handler_map = (zeros 32, 0) ∷ [];
  responses = write 0 (pb_account_assets_response own_balance) (λ r. response_not_set);
}

read_balance :
    deserialize_query sha3_256 zeros (pb_query (pb_get_account_assets alice coin) 1)
    ≡ some (some (query (get_account_assets alice coin) 1))
unfolding deserialize_query zeros
read_balance = refl

read_account :
    deserialize_query sha3_256 zeros (pb_query (pb_get_account bob) 257)
    ≡ some (some (query (get_account bob) 257))
unfolding deserialize_query zeros
read_account = refl

first_answer :
    find_async accept_all 1000 no_transactions
      (world 500 20)
      sha3_256
      zeros
      (pb_query (pb_get_account_assets alice coin) 1)
      0
      silent
    ≡ some answered
unfolding find_async deserialize_query take_query zeros iroha.Torii.Queries.notify find insert
    blob_discrete query_handle validate execute serialize_answer Query.get_account fetch
    read_permissions write_permissions Query.get_account_asset asset_key_discrete
first_answer = refl

find_async_collides_example :
    (second : QueryService) × ((find_async accept_all 1000 no_transactions
          (world 500 20)
          sha3_256
          zeros
          (pb_query (pb_get_account bob) 257)
          1
          answered
        ≡ some second)
      × (second.responses 1 ≡ response_not_set)
      × (serialize_response (
            query_handle accept_all 1000 no_transactions
              (world 500 20)
              (query (get_account bob) 257))
          ≡ some (second.responses 0)))
unfolding find
find_async_collides_example =
    find_async_collides accept_all 1000 no_transactions (world 500 20) sha3_256 zeros
      (pb_query (pb_get_account_assets alice coin) 1) (pb_query (pb_get_account bob) 257)
      (query (get_account_assets alice coin) 1) (query (get_account bob) 257) 0 1 silent answered
      read_balance read_account refl refl (λ e. absurd (omega (arith, e))) first_answer
