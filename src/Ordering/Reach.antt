-- ===== src/Ordering/Reach.antt =====
-- What the ordering service sends to one peer over any sequence of events.
use iroha.Prelude.{
  ◌≡◌, false, List, [], ◌∷◌, map, Option, none, some, Blob, ◌=ᵇ◌, blob_discrete, contains,
  if◌then◌else◌,
}
use iroha.Model.Types.{Peer}
use iroha.Model.Command.{Proposal}
use iroha.Ordering.{Sent, Event}

-- The proposals that go to an address, in their order.
pub received : Blob → List Sent → List Proposal
received address [] = []
received address (x ∷ sent) =
    let rest = received address sent in if address =ᵇ x.address then x.proposal ∷ rest else rest

-- The peer query answers, with exactly one peer at the address.
unfoldable pub Lists : Blob → Option (List Peer) → Type 0
Lists address none = ⊥
Lists address (some []) = ⊥
Lists address (some (p ∷ ps)) =
    if address =ᵇ p.address
    then contains blob_discrete address (map (λ q. q.address) ps) ≡ false
    else Lists address (some ps)

unfoldable pub AlwaysLists : Blob → List (Option (List Peer) × Event) → Type 0
AlwaysLists address [] = Unit
AlwaysLists address ((ledger_peers, e) ∷ es) = Lists address ledger_peers × AlwaysLists address es

abbrev sent_to_all : List Peer → Proposal → List Sent
sent_to_all ps proposal =
    map (λ a. record { address = a; proposal = proposal }) (map (λ p. p.address) ps)
