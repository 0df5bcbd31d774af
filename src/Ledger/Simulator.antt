-- ===== src/Ledger/Simulator.antt =====
-- irohad/simulator/impl/simulator.cpp: from a proposal to a verified proposal to a block. The
-- blocks that the block query emits for two heights, and the hash of a block, are parameters.
pub mod Acceptance
use iroha.Prelude.{
  ◌≡◌, ℕ, zero, suc, ◌+◌, ◌-◌, ◌%◌, ◌^◌, Bool, true, false, List, [], ◌∷◌, ◌++◌, Option, none, some,
  length, if◌then◌else◌, Blob, ◌==◌,
}
use iroha.Model.Types.{Signature}
use iroha.Model.Command.{Proposal, Block}
use iroha.Wsv.Tables.{Wsv}
use iroha.Ledger.Stateful.{validate_proposal}

unfoldable pub zeros : ℕ → Blob
zeros zero = []
zeros (suc n) = 0 ∷ zeros n

-- `model::Block()`
abbrev pub empty_block : Block
empty_block = record {
  hash = zeros 32;
  sigs = [];
  created_ts = 0;
  height = 0;
  prev_hash = zeros 32;
  txs_number = 0;
  merkle_root = zeros 32;
  transactions = [];
}

pub record Simulator : Type 0 where
  pub last_block : Block

-- What the subscriber leaves in `last_block`: the last block that was emitted.
abbrev pub last : Block → List Block → Block
last b [] = b
last b (x ∷ xs) = last x xs

-- `sigs.push_back({})`
abbrev pub empty_signature : Signature
empty_signature = record { signature = zeros 64; pubkey = zeros 32 }

module _ (get_blocks : ℕ → ℕ → List Block) (get_hash : Block → Blob) where
  -- The heights are of type uint64_t, those of the query of type uint32_t.
  unfoldable pub process_proposal : Wsv → Proposal → Simulator → Simulator × Option Proposal
  process_proposal w proposal sim =
      let current_height = proposal.height in
      let blocks = get_blocks ((current_height + 2 ^ 64 - 1) % 2 ^ 32) (current_height % 2 ^ 32) in
      let last_block = last empty_block blocks in
      (
        record { last_block = last_block },
        if (last_block.height + 1) % 2 ^ 64 == proposal.height
            then some (validate_proposal proposal w).1
            else none,
      )

  unfoldable pub process_verified_proposal : Proposal → Simulator → Block
  process_verified_proposal proposal sim =
      let new_block : Block = record empty_block {
        height = proposal.height;
        prev_hash = sim.last_block.hash;
        transactions = proposal.transactions;
        txs_number = length proposal.transactions % 2 ^ 16;
      } in
      record new_block { hash = get_hash new_block; sigs = empty_signature ∷ [] }

  -- `on_proposal` to `on_block`
  unfoldable pub on_proposal : Wsv → Proposal → Simulator → Simulator × Option Block
  unfolding process_proposal process_verified_proposal
  on_proposal w proposal sim =
      let result = process_proposal w proposal sim in
      (
        result.0,
        elim result.1 [
          | none ↦ none
          | some verified ↦ some (process_verified_proposal verified result.0)
        ],
      )
