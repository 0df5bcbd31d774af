-- ===== src/Bootstrap/Delivery.antt =====
-- What the trusted peers get.
use iroha.Prelude.{
  ◌≡◌, refl, ap, Bool, true, false, List, [], ◌∷◌, ◌++◌, map, all, arith, Bool-cases, inl, inr, ◌⊎◌,
}
use iroha.Model.Types.{Peer}
use iroha.Model.Command.{Block}
use iroha.Bootstrap.{Sent, genesis_block, abort_network, send_to, run_network}

module _ (applies : Peer → Bool) (block : Block) where
  abbrev sent_to : List Peer → List Sent
  sent_to peers = map (λ peer. genesis_block peer.address block) peers

  send_to_cases :
      (trusted peers : List Peer)
      → ((all applies peers ≡ true) × (send_to applies trusted block peers ≡ (sent_to peers, true)))
        ⊎ ((before : List Peer) × (peer : Peer) × (after : List Peer) × (peers
              ≡ before ++ peer ∷ after)
            × (all applies before ≡ true)
            × (applies peer ≡ false)
            × (send_to applies trusted block peers
                ≡ (sent_to (before ++ peer ∷ []) ++ abort_network trusted block, false)))
  unfolding send_to
  send_to_cases trusted [] = inl (refl, refl)
  send_to_cases trusted (p ∷ peers) = elim (Bool-cases (applies p)) [
    | inl e ↦ elim (send_to_cases trusted peers) [
      | inl (a, s) ↦ inl (ground (arith, e, a), rw (e, s) refl)
      | inr (before, peer, after, split, a, n, s) ↦
          inr (
            p ∷ before,
            peer,
            after,
            ap (λ l. p ∷ l) split,
            ground (arith, e, a),
            n,
            rw (e, s) refl,
          )
    ]
    | inr e ↦ inr ([], p, peers, refl, refl, e, rw e refl)
  ]

  -- Either every trusted peer applies the genesis block, and all of them have been sent it, in their
  -- order; or some peer is the first that does not, the ones up to it have been sent the block, and
  -- then all of them are told to abort.
  pub run_network_cases :
      (trusted : List Peer)
      → ((all applies trusted ≡ true)
          × (run_network applies trusted block ≡ (sent_to trusted, true)))
        ⊎ ((before : List Peer) × (peer : Peer) × (after : List Peer) × (trusted
              ≡ before ++ peer ∷ after)
            × (all applies before ≡ true)
            × (applies peer ≡ false)
            × (run_network applies trusted block
                ≡ (sent_to (before ++ peer ∷ []) ++ abort_network trusted block, false)))
  unfolding run_network
  run_network_cases trusted = send_to_cases trusted trusted
