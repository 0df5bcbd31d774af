-- ===== src/Torii/Queries.antt =====
-- irohad/torii/impl/query_service.cpp and irohad/torii/processor/impl/query_processor_impl.cpp.
pub mod Answers
use iroha.Prelude.{
  ℕ, Bool, true, false, not, List, [], ◌∷◌, Option, none, some, Blob, if◌then◌else◌, ◌>>=◌,
}
use iroha.Model.Command.{Transaction}
use iroha.Wsv.Tables.{Wsv}
use iroha.Query.{Query, QueryResponse, error_response, stateless_invalid}
use iroha.Query.Execution.{execute}
use iroha.Ledger.Stateless.{validate}
use iroha.Wire.Queries.{PbQuery, deserialize_query}
use iroha.Wire.Responses.{PbQueryResponse, serialize_answer, serialize_response}
use iroha.Torii.Handlers.{HandlerMap, Responses, find, insert, write}

pub record QueryService : Type 0 where
  pub handler_map : HandlerMap
  pub responses : Responses PbQueryResponse

module _ (verify : Query → Bool) (now : ℕ) (account_transactions : Blob → List Transaction)
    (w : Wsv) where
  -- The response that the subscribers hear of.
  unfoldable pub query_handle : Query → QueryResponse
  query_handle query =
      if not (validate (verify query) now query.created_ts)
      then record { query_hash = query.query_hash; answer = error_response stateless_invalid }
      else execute account_transactions w query

  unfoldable pub notify : QueryResponse → QueryService → Option QueryService
  notify iroha_response service = do
    response ← find iroha_response.query_hash service.handler_map
    value ← serialize_response iroha_response
    some (record service { responses = write response value service.responses })

  unfoldable pub take_query : Query → ℕ → QueryService → Option QueryService
  take_query query response service =
      notify (query_handle query)
        (record service { handler_map = insert query.query_hash response service.handler_map })

  -- The hash is read through the pointer to the query: a null pointer is `none`.
  unfoldable pub find_async :
      (Blob → Blob) → (ℕ → Blob) → PbQuery → ℕ → QueryService → Option QueryService
  find_async sha3_256 uninit request response service = do
    pointer ← deserialize_query sha3_256 uninit request
    query ← pointer
    take_query query response service
