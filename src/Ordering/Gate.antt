-- ===== src/Ordering/Gate.antt =====
-- irohad/ordering/impl/ordering_gate_impl.cpp, and what `SendTransaction` and `publishProposal` of
-- ordering_service_impl.cpp read and write, with the messages of schema/ordering.proto.
use iroha.Prelude.{
  ◌≡◌, refl, ℕ, List, map, All, Option, some, Blob, length, ◌>>=◌, traverse, traverse-map,
}
use iroha.Model.Command.{Transaction, Proposal}
use iroha.Model.Hash.{Kind}
use iroha.Wire.Messages.{PbTransaction}
use iroha.Wire.Transactions.{serialize_transaction, deserialize_transaction}
use iroha.Wire.Blocks.RoundTrip.{IsTransaction, received_transaction, transaction_round_trip}

pub record PbProposal : Type 0 where
  pub height : ℕ
  pub transactions : List PbTransaction

unfoldable pub write_proposal : Proposal → PbProposal
unfolding serialize_transaction
write_proposal proposal = record {
  height = proposal.height;
  transactions = map serialize_transaction proposal.transactions;
}

-- What the gate sends to the ordering service.
unfoldable pub propagate_transaction : Transaction → PbTransaction
unfolding serialize_transaction
propagate_transaction transaction = serialize_transaction transaction

module _ (sha3_256 : Blob → Blob) (vtable : Kind → Blob) (uninit : ℕ → Blob) where
  -- The proposal that the subscribers of the gate hear of.
  unfoldable pub send_proposal : PbProposal → Option Proposal
  send_proposal request = do
    transactions ← traverse (deserialize_transaction sha3_256 vtable uninit) request.transactions
    some (record { transactions = transactions; height = request.height })

  -- Each transaction of a proposal of well-sized transactions arrives as it was sent, in order, but
  -- for the changes of permissions, which lose the permission to set permissions.
  pub send_proposal-write_proposal :
      ((n : ℕ) → length (uninit n) ≡ n)
      → (proposal : Proposal) → All (IsTransaction sha3_256 vtable) proposal.transactions
      → send_proposal (write_proposal proposal)
        ≡ some (record proposal { transactions = map received_transaction proposal.transactions })
  unfolding send_proposal write_proposal
  send_proposal-write_proposal sized proposal h =
      rw
        (traverse-map (IsTransaction sha3_256 vtable)
          (deserialize_transaction sha3_256 vtable uninit) serialize_transaction
          received_transaction (transaction_round_trip sha3_256 vtable uninit sized)
          proposal.transactions h)
        refl
