-- ===== src/Wire/Blocks/RoundTrip.antt =====
-- Blocks and transactions that go over the wire.
use iroha.Prelude.{
  ◌≡◌, refl, sym, ap, ◌∙◌, ℕ, zero, suc, ◌<◌, ◌^◌, ◌%◌, List, [], ◌∷◌, map, All, some, Blob, length,
  arith, traverse-map, traverse-some, map-map, map-id,
}
use iroha.Model.Types.{Signature}
use iroha.Model.Command.{
  Command, add_asset_quantity, add_peer, add_signatory, assign_master_key, create_account,
  create_asset, create_domain, remove_signatory, set_account_permissions, set_quorum,
  transfer_asset, Transaction, Block,
}
use iroha.Model.Hash.{Kind, kind, concat, hash_transaction, hash_block}
use iroha.Ledger.Simulator.{zeros}
use iroha.Wire.Bytes.{copy-all}
use iroha.Wire.Commands.{serialize_abstract_command, deserialize_abstract_command}
use iroha.Wire.Commands.RoundTrip.{IsSized, received, deserialize-serialize}
use iroha.Wire.Transactions.{
  serialize_signature, deserialize_signature, serialize_transaction, deserialize_transaction,
}
use iroha.Wire.Blocks.{serialize_block, deserialize_block}

pub record IsSignature (s : Signature) : Type 0 where
  pub key_size : length s.pubkey ≡ 32
  pub signature_size : length s.signature ≡ 64

pub deserialize-serialize_signature :
    (k g : Blob) (s : Signature)
    → length k ≡ 32
    → length g ≡ 64
    → IsSignature s
    → deserialize_signature k g (serialize_signature s) ≡ some s
unfolding deserialize_signature
deserialize-serialize_signature k g s hk hg h =
    rw
      (
        copy-all s.pubkey k (h.key_size ∙ sym hk),
        copy-all s.signature g (h.signature_size ∙ sym hg),
      )
      refl

pub length-zeros : (n : ℕ) → length (zeros n) ≡ n
unfolding zeros
length-zeros zero = refl
length-zeros (suc n) = ap suc (length-zeros n)

kind-received : (c : Command) → kind (received c) ≡ kind c
unfolding kind received
kind-received (add_asset_quantity a s x) = refl
kind-received (add_peer k a) = refl
kind-received (add_signatory a k) = refl
kind-received (assign_master_key a k) = refl
kind-received (create_account a d k) = refl
kind-received (create_asset a d p) = refl
kind-received (create_domain d) = refl
kind-received (remove_signatory a k) = refl
kind-received (set_account_permissions a p) = refl
kind-received (set_quorum a q) = refl
kind-received (transfer_asset s d a x) = refl

concat-received :
    (vtable : Kind → Blob) (cs : List Command)
    → concat (λ c. vtable (kind c)) (map received cs) ≡ concat (λ c. vtable (kind c)) cs
unfolding concat
concat-received vtable [] = refl
concat-received vtable (c ∷ cs) = rw (kind-received c, concat-received vtable cs) refl

-- The transaction after the way over the wire.
abbrev pub received_transaction : Transaction → Transaction
received_transaction tx = record tx { commands = map received tx.commands }

module _ (sha3_256 : Blob → Blob) (vtable : Kind → Blob) where
  -- The sizes that the types fix, and the hash that belongs to the transaction.
  pub record IsTransaction (tx : Transaction) : Type 0 where
    pub signatures : All IsSignature tx.signatures
    pub commands : All IsSized tx.commands
    pub hash : tx.tx_hash ≡ hash_transaction sha3_256 vtable tx

  pub record IsBlock (b : Block) : Type 0 where
    pub sigs : All IsSignature b.sigs
    pub merkle_root : length b.merkle_root ≡ 32
    pub prev_hash : length b.prev_hash ≡ 32
    pub txs_number : b.txs_number < 2 ^ 16
    pub transactions : All IsTransaction b.transactions
    pub hash : b.hash ≡ hash_block sha3_256 vtable b

  hash-received :
      (tx : Transaction)
      → hash_transaction sha3_256 vtable (received_transaction tx)
        ≡ hash_transaction sha3_256 vtable tx
  unfolding hash_transaction
  hash-received tx = rw (concat-received vtable tx.commands) refl

  concat-hash_received :
      (txs : List Transaction)
      → concat (hash_transaction sha3_256 vtable) (map received_transaction txs)
        ≡ concat (hash_transaction sha3_256 vtable) txs
  unfolding concat
  concat-hash_received [] = refl
  concat-hash_received (tx ∷ txs) = rw (hash-received tx, concat-hash_received txs) refl

  module _ (uninit : ℕ → Blob) (sized : (n : ℕ) → length (uninit n) ≡ n) where
    pub transaction_round_trip :
        (tx : Transaction)
        → IsTransaction tx
        → deserialize_transaction sha3_256 vtable uninit (serialize_transaction tx)
          ≡ some (received_transaction tx)
    unfolding deserialize_transaction serialize_transaction
    transaction_round_trip tx h =
        let signs =
          traverse-map IsSignature (deserialize_signature (uninit 32) (uninit 64))
            serialize_signature (λ s. s)
            (λ s. deserialize-serialize_signature (uninit 32) (uninit 64) s (sized 32) (sized 64))
            tx.signatures h.signatures in
        let pointers =
          traverse-map IsSized (deserialize_abstract_command uninit) serialize_abstract_command
            (λ c. some (received c)) (deserialize-serialize uninit sized) tx.commands h.commands in
        rw
          (
            signs,
            map-id tx.signatures,
            pointers,
            sym (map-map some received tx.commands),
            traverse-some (map received tx.commands),
            concat-received vtable tx.commands,
            h.hash,
          )
          refl

    -- A block of the right sizes whose hashes belong to its contents is read back with the same
    -- hashes, headers, signatures and commands, in the same order, but for the changes of
    -- permissions, which lose the permission to set permissions.
    pub deserialize-serialize_block :
        (b : Block)
        → IsBlock b
        → deserialize_block sha3_256 vtable uninit (serialize_block b)
          ≡ some (record b { transactions = map received_transaction b.transactions })
    unfolding deserialize_block serialize_block
    deserialize-serialize_block b h =
        let signs =
          traverse-map IsSignature (deserialize_signature (zeros 32) (zeros 64)) serialize_signature
            (λ s. s)
            (λ s.
              deserialize-serialize_signature (zeros 32) (zeros 64) s (length-zeros 32)
                (length-zeros 64))
            b.sigs h.sigs in
        let txs =
          traverse-map IsTransaction (deserialize_transaction sha3_256 vtable uninit)
            serialize_transaction received_transaction transaction_round_trip b.transactions
            h.transactions in
        let number : b.txs_number % 2 ^ 16 ≡ b.txs_number = ground (arith, h.txs_number) in
        rw
          (
            signs,
            map-id b.sigs,
            copy-all b.merkle_root (uninit 32) (h.merkle_root ∙ sym (sized 32)),
            copy-all b.prev_hash (uninit 32) (h.prev_hash ∙ sym (sized 32)),
            txs,
            number,
            concat-hash_received b.transactions,
            h.hash,
          )
          refl
