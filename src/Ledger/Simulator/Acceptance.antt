-- ===== src/Ledger/Simulator/Acceptance.antt =====
-- The block that the simulator makes of a proposal is one that the chain validator accepts.
use iroha.Prelude.{
  ◌≡◌, ℕ, ◌+◌, ◌*◌, ◌-◌, ◌%◌, ◌^◌, ◌≤◌, Bool, true, List, some, length, Blob, ◌==◌, arith,
  Bool-cases, inl, inr, ◌∙◌,
}
use iroha.Model.Types.{Signature}
use iroha.Model.Command.{Proposal, Block}
use iroha.Wsv.Tables.{Wsv}
use iroha.Ledger.Stateful.{validate_proposal}
use iroha.Ledger.Stateful.Replay.{validate_proposal-Selects, validate_proposal-replays}
use iroha.Ledger.Chain.{MutableStorage, validate_block}
use iroha.Ledger.Chain.Links.{IsNext, IsNext-validate_block}
use iroha.Ledger.Simulator.{
  Simulator, last, empty_block, process_proposal, process_verified_proposal, on_proposal,
}

module _ (get_blocks : ℕ → ℕ → List Block) (get_hash : Block → Blob) (verify : Block → Bool) where
  -- What the simulator puts into a block.
  on_proposal-makes :
      (w : Wsv) (proposal : Proposal) (sim sim' : Simulator) (block : Block)
      → on_proposal get_blocks get_hash w proposal sim ≡ (sim', some block)
      → (block.prev_hash ≡ sim'.last_block.hash)
        × (block.transactions ≡ (validate_proposal proposal w).1.transactions)
        × (block.height ≡ (validate_proposal proposal w).1.height)
  unfolding on_proposal process_proposal process_verified_proposal
  on_proposal-makes w proposal sim sim' block e =
      let new_last =
        last empty_block
          (get_blocks ((proposal.height + 2 ^ 64 - 1) % 2 ^ 32) (proposal.height % 2 ^ 32)) in
      elim (Bool-cases ((new_last.height + 1) % 2 ^ 64 == proposal.height)) [
        | inl h ↦ ground arith
        | inr h ↦ absurd (ground arith)
      ]

  -- If the simulator makes a block of a proposal, the tables and the top hash of a storage are
  -- those that the simulator used, and the block is given signatures that verify and are enough
  -- for its peers, then the chain validator accepts it, and the storage then has the tables that
  -- the stateful validator had at its end.
  pub simulated_block-accepted :
      (s : MutableStorage) (proposal : Proposal) (sim sim' : Simulator) (block : Block)
      (sigs : List Signature)
      → on_proposal get_blocks get_hash s.wsv proposal sim ≡ (sim', some block)
      → sim'.last_block.hash ≡ s.top_hash
      → 2 * length s.wsv.peer + 1 ≤ 3 * length sigs
      → verify (record block { sigs = sigs }) ≡ true
      → ((validate_block verify (record block { sigs = sigs }) s).1 ≡ true)
        × ((validate_block verify (record block { sigs = sigs }) s).0.wsv
            ≡ (validate_proposal proposal s.wsv).0)
        × (block.height ≡ proposal.height)
  simulated_block-accepted s proposal sim sim' block sigs e top enough signed =
      let m = on_proposal-makes s.wsv proposal sim sim' block e in
      let n : IsNext verify s.wsv s.top_hash (record block { sigs = sigs })
          (validate_proposal proposal s.wsv).0 =
        record {
          supermajority = enough;
          signed = signed;
          linked = m.0 ∙ top;
          executed = rw m.1 (validate_proposal-replays proposal s.wsv).1;
        } in
      let r =
        IsNext-validate_block verify (record block { sigs = sigs }) s
          (validate_proposal proposal s.wsv).0 n in
      (r.0, r.1, m.2 ∙ (validate_proposal-Selects proposal s.wsv).1)
