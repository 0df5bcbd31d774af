-- ===== src/Ordering/Tests.antt =====
-- The ordering service on two transactions and the timer.
use iroha.Prelude.{◌≡◌, refl, ℕ, List, [], ◌∷◌, Option, none, some}
use iroha.Model.Types.{Peer}
use iroha.Model.Command.{Transaction}
use iroha.Ordering.{create, Event, transaction, timer, run}
use iroha.Ordering.Delivery.{IsNumbered, run-IsNumbered}

abbrev tx : ℕ → Transaction
tx n = record {
  signatures = [];
  created_ts = 0;
  creator_account_id = [];
  tx_counter = n;
  tx_hash = [];
  commands = [];
}

abbrev peers : Option (List Peer)
peers = some (record { address = 1 ∷ []; pubkey = 2 ∷ [] } ∷ [])

abbrev events : List (Option (List Peer) × Event)
events =
    (peers, transaction (tx 1))
    ∷ (none, transaction (tx 2))
    ∷ (peers, transaction (tx 3))
    ∷ (peers, timer)
    ∷ []

abbrev listed_events : List (Option (List Peer) × Event)
listed_events =
    (peers, transaction (tx 1))
    ∷ (peers, transaction (tx 2))
    ∷ (peers, transaction (tx 3))
    ∷ (peers, timer)
    ∷ []

-- A proposal that is made while the peer query does not answer goes to nobody.
sent_to_nobody :
    (run 2 ((none, transaction (tx 1)) ∷ (none, transaction (tx 2)) ∷ []) create).2 ≡ []
unfolding run
sent_to_nobody = refl

run-IsNumbered_example : IsNumbered 2 2 (run 2 events create).1
run-IsNumbered_example = run-IsNumbered 2 events create
