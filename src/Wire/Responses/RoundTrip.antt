-- ===== src/Wire/Responses/RoundTrip.antt =====
-- What a client reads of an answer.
use iroha.Prelude.{
  ◌≡◌, refl, sym, ◌∙◌, ℕ, List, map-id, All, Option, none, some, Blob, length, ◌>>=◌, traverse-map,
}
use iroha.Model.Types.{Account, AccountAsset}
use iroha.Query.{Answer, account_response, account_asset_response, signatories_response}
use iroha.Wire.Bytes.{copy, copy-all}
use iroha.Wire.Responses.{
  PbQueryResponse, pb_account_response, pb_account_assets_response, pb_signatories_response,
  serialize_answer, deserialize_account, deserialize_account_asset, deserialize_signatories,
}

module _ (uninit : ℕ → Blob) where
  -- What `deserializeAccountResponse`, `deserializeAccountAssetResponse` and
  -- `deserializeSignatoriesResponse` make of the message.
  abbrev pub client_reads : PbQueryResponse → Option Answer
  client_reads (pb_account_response account) = do
    a ← deserialize_account uninit account
    some (account_response a)
  client_reads (pb_account_assets_response account_asset) =
      some (account_asset_response (deserialize_account_asset account_asset))
  client_reads (pb_signatories_response keys) = do
    ks ← deserialize_signatories uninit keys
    some (signatories_response ks)
  client_reads _ = none

  module _ (sized : (n : ℕ) → length (uninit n) ≡ n) where
    -- A client reads the account, with all of its permissions, the balance and the keys that were
    -- sent, where the keys are of 32 bytes.
    pub answers_round_trip :
        (account : Account) (acct_asset : AccountAsset) (keys : List Blob)
        → length account.master_key ≡ 32
        → All (λ k. length k ≡ 32) keys
        → ((serialize_answer (account_response account) >>= client_reads)
            ≡ some (account_response account))
          × ((serialize_answer (account_asset_response acct_asset) >>= client_reads)
              ≡ some (account_asset_response acct_asset))
          × ((serialize_answer (signatories_response keys) >>= client_reads)
              ≡ some (signatories_response keys))
    unfolding serialize_answer deserialize_account deserialize_account_asset deserialize_signatories
    answers_round_trip account acct_asset keys m h =
        let written =
          traverse-map (λ (k : Blob). length k ≡ 32) (λ key. copy key (uninit 32)) (λ k. k) (λ k. k)
            (λ k e. copy-all k (uninit 32) (e ∙ sym (sized 32))) keys h in
        let read : deserialize_signatories uninit keys ≡ some keys = rw (map-id keys) at written in
        (rw (copy-all account.master_key (uninit 32) (m ∙ sym (sized 32))) refl, refl, rw read refl)
