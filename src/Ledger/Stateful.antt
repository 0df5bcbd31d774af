-- ===== src/Ledger/Stateful.antt =====
-- irohad/validation/impl/stateful_validator_impl.cpp, with `TemporaryWsvImpl::apply` of
-- irohad/ametsuchi/impl/temporary_wsv_impl.cpp: which transactions of a proposal are kept.
pub mod Replay
use iroha.Prelude.{
  ◌≡◌, ℕ, Bool, true, false, not, ◌||◌, List, [], ◌∷◌, ◌++◌, Option, none, some, ltb, length,
  if◌then◌else◌, Blob,
}
use iroha.Model.Types.{Account}
use iroha.Model.Command.{Command, Transaction, Proposal}
use iroha.Wsv.Tables.{Wsv}
use iroha.Wsv.Query.{get_account, get_signatories}
use iroha.Ledger.Execution.{also, require, execute}
use iroha.Ledger.Validation.{validate}

-- `std::all_of` over the commands: each is validated, then executed; the creator's account is the
-- one before the first command.
unfoldable pub verify_commands : Account → List Command → Wsv → Wsv × Bool
verify_commands account [] w = (w, true)
verify_commands account (c ∷ cs) w =
    if validate c w account then also (execute c w) (verify_commands account cs) else (w, false)

unfoldable pub checking_transaction : Transaction → Wsv → Wsv × Bool
unfolding verify_commands
checking_transaction tx w = require w (get_account w tx.creator_account_id) λ account.
    if ltb (length tx.signatures) account.quorum
    then (w, false)
    else require w (get_signatories w tx.creator_account_id)
        λ _. verify_commands account tx.commands w

-- Between a savepoint and its release; where the answer is false, back to the savepoint.
unfoldable pub apply : (Wsv → Wsv × Bool) → Wsv → Wsv × Bool
apply function w = if (function w).1 then function w else (w, false)

-- One round of `std::accumulate`.
unfoldable pub filter_step : Wsv × List Transaction → Transaction → Wsv × List Transaction
unfolding apply checking_transaction
filter_step (w, acc) tx =
    let answer = apply (checking_transaction tx) w in
    (answer.0, if answer.1 then acc ++ tx ∷ [] else acc)

unfoldable pub accumulate : Wsv × List Transaction → List Transaction → Wsv × List Transaction
accumulate s [] = s
accumulate s (tx ∷ txs) = accumulate (filter_step s tx) txs

-- The verified proposal, and the temporary world state view after it.
unfoldable pub validate_proposal : Proposal → Wsv → Wsv × Proposal
unfolding accumulate
validate_proposal proposal w =
    let s = accumulate (w, []) proposal.transactions in
    (s.0, record { transactions = s.1; height = proposal.height })
