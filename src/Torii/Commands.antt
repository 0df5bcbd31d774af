-- ===== src/Torii/Commands.antt =====
-- irohad/torii/impl/command_service.cpp and
-- irohad/torii/processor/impl/transaction_processor_impl.cpp. The subscriber of the service hears
-- of a transaction while it is handled. What verifies the signatures, and the time, are parameters.
pub mod Answers
use iroha.Prelude.{
  ℕ, Bool, true, false, List, [], ◌∷◌, ◌++◌, Option, none, some, Blob, is_some, if◌then◌else◌,
  ◌>>=◌,
}
use iroha.Model.Command.{Transaction}
use iroha.Model.Hash.{Kind}
use iroha.Ledger.Stateless.{validate}
use iroha.Wire.Messages.{PbTransaction}
use iroha.Wire.Transactions.{deserialize_transaction}
use iroha.Torii.Handlers.{HandlerMap, Responses, find, insert, write}

pub data StatelessValidation : Type 0 where
  stateless_validation_failed : StatelessValidation
  stateless_validation_success : StatelessValidation

pub record TransactionStatelessResponse : Type 0 where
  pub transaction : Transaction
  pub passed : Bool

-- `propagated`: what went to the peers, the first one first.
pub record CommandService : Type 0 where
  pub handler_map : HandlerMap
  pub responses : Responses StatelessValidation
  pub propagated : List Transaction

module _ (verify : Transaction → Bool) (now : ℕ) where
  -- What the subscribers hear, and what is propagated.
  unfoldable pub transaction_handle : Transaction → TransactionStatelessResponse × List Transaction
  transaction_handle transaction =
      if validate (verify transaction) now transaction.created_ts
      then (record { transaction = transaction; passed = true }, transaction ∷ [])
      else (record { transaction = transaction; passed = false }, [])

  -- `res->second` where there is no entry is undefined: `none`.
  unfoldable pub notify : TransactionStatelessResponse → CommandService → Option CommandService
  notify resp service = do
    response ← find resp.transaction.tx_hash service.handler_map
    some (record service {
      responses =
          write response
            (if resp.passed then stateless_validation_success else stateless_validation_failed)
            service.responses;
    })

  unfoldable pub take_transaction : Transaction → ℕ → CommandService → Option CommandService
  take_transaction iroha_tx response service =
      if is_some (find iroha_tx.tx_hash service.handler_map)
      then some (record service {
        responses = write response stateless_validation_failed service.responses;
      })
      else notify (transaction_handle iroha_tx).0 (record service {
        handler_map = insert iroha_tx.tx_hash response service.handler_map;
        propagated = service.propagated ++ (transaction_handle iroha_tx).1;
      })

  unfoldable pub torii_async :
      (Blob → Blob)
      → (Kind → Blob)
      → (ℕ → Blob)
      → PbTransaction
      → ℕ
      → CommandService
      → Option CommandService
  torii_async sha3_256 vtable uninit request response service = do
    iroha_tx ← deserialize_transaction sha3_256 vtable uninit request
    take_transaction iroha_tx response service
