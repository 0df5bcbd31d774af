-- ===== src/Torii/Queries/Answers.antt =====
-- Who hears the answer to a query.
use iroha.Prelude.{
  ◌≡◌, ◌≢◌, refl, sym, ap, subst, ◌∙◌, ℕ, ◌%◌, Bool, List, [], ◌∷◌, none, some, Blob, bind_inv,
  some_inj, arith, Bool-cases, Option-cases, inl, inr,
}
use iroha.Model.Command.{Transaction}
use iroha.Model.Hash.{hash_query}
use iroha.Wsv.Tables.{Wsv}
use iroha.Query.{
  Answer, error_response, account_response, account_asset_response, signatories_response,
  transactions_response, Query,
}
use iroha.Query.Execution.{execute}
use iroha.Ledger.Stateless.{validate}
use iroha.Wire.Queries.{PbQuery, deserialize_query, deserialize_request}
use iroha.Wire.Responses.{PbQueryResponse, serialize_answer, serialize_response}
use iroha.Wire.Transactions.{deserialize_signature}
use iroha.Torii.Handlers.{HandlerMap, find, insert, write, find-insert, write_same, write_other}
use iroha.Torii.Queries.{QueryService, query_handle, notify, take_query, find_async}

serialized : (a : Answer) → (value : PbQueryResponse) × (serialize_answer a ≡ some value)
unfolding serialize_answer
serialized (error_response reason) = (_, refl)
serialized (account_response account) = (_, refl)
serialized (account_asset_response acct_asset) = (_, refl)
serialized (signatories_response keys) = (_, refl)
serialized (transactions_response transactions) = (_, refl)

-- The first client that asked with the hash, else this one.
abbrev pub recipient : Blob → ℕ → HandlerMap → ℕ
recipient hash response handlers = elim (find hash handlers) [
  | none ↦ response
  | some first ↦ first
]

recipient_new :
    (hash : Blob) (response : ℕ) (handlers : HandlerMap)
    → find hash handlers ≡ none
    → recipient hash response handlers ≡ response
recipient_new hash response handlers e = ground (arith, e)

recipient_first :
    (hash : Blob) (response first : ℕ) (handlers : HandlerMap)
    → find hash handlers ≡ some first
    → recipient hash response handlers ≡ first
recipient_first hash response first handlers e = ground (arith, e)

find-insert-recipient :
    (hash : Blob) (response : ℕ) (handlers : HandlerMap)
    → find hash (insert hash response handlers) ≡ some (recipient hash response handlers)
find-insert-recipient hash response handlers = elim (Option-cases (find hash handlers)) [
  | inl n ↦ ground (arith, n, find-insert hash response handlers)
  | inr (first, e) ↦ ground (arith, e, find-insert hash response handlers)
]

module _ (verify : Query → Bool) (now : ℕ) (account_transactions : Blob → List Transaction)
    (w : Wsv) where
  query_handle-hash :
      (query : Query)
      → (query_handle verify now account_transactions w query).query_hash ≡ query.query_hash
  unfolding query_handle execute
  query_handle-hash query = elim (Bool-cases (validate (verify query) now query.created_ts)) [
    | inl v ↦ rw v refl
    | inr v ↦ rw v refl
  ]

  abbrev after_query : Query → ℕ → QueryService → PbQueryResponse → QueryService
  after_query query response service value = record {
    handler_map = insert query.query_hash response service.handler_map;
    responses =
        write (recipient query.query_hash response service.handler_map) value service.responses;
  }

  -- The answer to a query is written to the response of the first client that asked with the same
  -- hash, and to no other.
  take_query_eq :
      (query : Query) (response : ℕ) (service : QueryService)
      → (value : PbQueryResponse) × ((serialize_response
              (query_handle verify now account_transactions w query)
            ≡ some value)
          × (take_query verify now account_transactions w query response service
              ≡ some (after_query query response service value)))
  unfolding take_query notify
  take_query_eq query response service =
      let answer = serialized (query_handle verify now account_transactions w query).answer in
      (
        answer.0,
        (
          answer.1,
          rw
              (
                query_handle-hash query,
                find-insert-recipient query.query_hash response service.handler_map,
                answer.1,
              )
              refl,
        ),
      )

  module _ (sha3_256 : Blob → Blob) (uninit : ℕ → Blob) where
    deserialize_query-hash :
        (pb_query : PbQuery) (query : Query)
        → deserialize_query sha3_256 uninit pb_query ≡ some (some query)
        → query.query_hash ≡ hash_query sha3_256 pb_query.query_counter
    unfolding deserialize_query
    deserialize_query-hash pb_query query e =
        elim (Option-cases (deserialize_request pb_query.request)) [
          | inl n ↦ absurd (ground (arith, n))
          | inr (request, r) ↦
              let sign =
                bind_inv (deserialize_signature (uninit 32) (uninit 64) pb_query.signature) _ _
                  (rw (r, deserialize_query) at e) in
              let same = some_inj _ query (some_inj _ (some query) sign.1.1) in
              subst (λ (x : Query). x.query_hash ≡ hash_query sha3_256 pb_query.query_counter) same
                refl
        ]

    -- When two clients ask, one after the other, with counters that agree mod 256, whoever they are
    -- and whatever they ask, and no earlier query had that hash, the second client's response stays
    -- as it was, and the first client's is overwritten with the answer to the second query.
    pub find_async_collides :
        (pb_first pb_second : PbQuery) (query_1 query_2 : Query) (r_1 r_2 : ℕ)
        (before first : QueryService)
        → deserialize_query sha3_256 uninit pb_first ≡ some (some query_1)
        → deserialize_query sha3_256 uninit pb_second ≡ some (some query_2)
        → pb_first.query_counter % 256 ≡ pb_second.query_counter % 256
        → find query_1.query_hash before.handler_map ≡ none
        → r_2 ≢ r_1
        → find_async verify now account_transactions w sha3_256 uninit pb_first r_1 before
          ≡ some first
        → (second : QueryService) × ((find_async verify now account_transactions w sha3_256 uninit
                pb_second r_2 first
              ≡ some second)
            × (second.responses r_2 ≡ before.responses r_2)
            × (serialize_response (query_handle verify now account_transactions w query_2)
                ≡ some (second.responses r_1)))
    unfolding find_async hash_query
    find_async_collides pb_first pb_second query_1 query_2 r_1 r_2 before first d_1 d_2 n fresh
          other e =
        let a_1 = take_query_eq query_1 r_1 before in
        let a_2 = take_query_eq query_2 r_2 first in
        let after = some_inj _ first (sym a_1.1.1 ∙ (rw d_1 at e)) in
        let same : query_1.query_hash ≡ query_2.query_hash =
          deserialize_query-hash pb_first query_1 d_1
          ∙ ap (λ m. sha3_256 (m ∷ [])) n
          ∙ sym (deserialize_query-hash pb_second query_2 d_2) in
        let own = recipient_new query_1.query_hash r_1 before.handler_map fresh in
        let taken : find query_1.query_hash first.handler_map ≡ some r_1 =
          rw (← after, find-insert-recipient query_1.query_hash r_1 before.handler_map, own) refl in
        let untouched : first.responses r_2 ≡ before.responses r_2 =
          rw (← after, own) (write_other r_1 r_2 a_1.0 before.responses other) in
        let to_first : recipient query_2.query_hash r_2 first.handler_map ≡ r_1 =
          recipient_first query_2.query_hash r_2 r_1 first.handler_map (rw same at taken) in
        (
          after_query query_2 r_2 first a_2.0,
          (
            rw d_2 a_2.1.1,
            rw to_first (write_other r_1 r_2 a_2.0 first.responses other ∙ untouched),
            rw (to_first, write_same r_1 a_2.0 first.responses) a_2.1.0,
          ),
        )
