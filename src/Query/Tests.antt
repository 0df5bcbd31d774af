-- ===== src/Query/Tests.antt =====
-- Queries on the small ledger.
use iroha.Prelude.{◌≡◌, refl, List, [], ◌∷◌, Blob, blob_discrete}
use iroha.Model.Command.{Transaction}
use iroha.Query.{
  Query, Request, get_account_assets, get_account, error_response, stateful_invalid,
  account_asset_response,
}
use iroha.Wsv.Table.{fetch}
use iroha.Wsv.Tables.{asset_key_discrete}
use iroha.Wsv.Permissions.{read_permissions, write_permissions}
use iroha.Wsv.Query
use iroha.Query.Execution.{execute}
use iroha.Ledger.Tests.{alice, bob, coin, key, world}

abbrev pub no_transactions : Blob → List Transaction
no_transactions account_id = []

abbrev pub ask : Request → Query
ask request = record {
  signature = record { signature = []; pubkey = key };
  creator_account_id = alice;
  created_ts = 900;
  query_hash = 4 ∷ [];
  query_counter = 1;
  request = request;
}

-- The own balance is told, and another one is not.
told :
    (execute no_transactions (world 500 20) (ask (get_account_assets alice coin))).answer
    ≡ account_asset_response (record { asset_id = coin; account_id = alice; balance = 500 })
unfolding execute Query.get_account fetch blob_discrete read_permissions write_permissions
    Query.get_account_asset asset_key_discrete
told = refl

refused :
    (execute no_transactions (world 500 20) (ask (get_account bob))).answer
    ≡ error_response stateful_invalid
unfolding execute Query.get_account fetch blob_discrete read_permissions write_permissions
refused = refl
