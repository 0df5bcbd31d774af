-- ===== src/Yac/Tests.antt =====
-- A round of two peers.
use iroha.Prelude.{
  map, ◌≡◌, ◌≢◌, refl, ℕ, ◌*◌, ◌<◌, ◌≤◌, true, false, List, [], ◌∷◌, ◌++◌, none, some, length, Blob,
  blob_discrete, contains, ◌||◌, common, IsDistinct, IsWithin, arith, ◌⊎◌, if◌then◌else◌, ◌=ᵇ◌,
}
use iroha.Yac.Messages.{YacHash, VoteMessage, CommitMessage, Peer, vote_discrete, hash_discrete}
use iroha.Yac.StorageResult.{not_committed, committed, empty_result}
use iroha.Model.Command.{Block}
use iroha.Wsv.Tables
use iroha.Wsv.Tables.{Wsv}
use iroha.Wsv.Query.{get_peers}
use iroha.Ledger.Simulator.{empty_block}
use iroha.Ledger.Chain.{check_supermajority}
use iroha.Yac.BlockStorage.Sound.{IsSupermajority}
use iroha.Yac.Gate.{YacGate, make_hash, gate_vote, gate_on_commit}
use iroha.Yac.Gate.Commits.{gate_on_commit-block}
use iroha.Yac.Supermajority.{has_supermajority}
use iroha.Yac.Supermajority.Quorum.{supermajority-overlap}
use iroha.Yac.Slots.{modify_at, find_or_push}
use iroha.Yac.BlockStorage
use iroha.Yac.BlockStorage.{create, insert_votes, insert_commit, check_commit_scheme}
use iroha.Yac.BlockStorage.Invariant.{IsValid, create-IsValid, insert_commit-IsValid}
use iroha.Yac.BlockStorage.Replay.{distinct_votes, state_at, insert_votes-refines}
use iroha.Yac.BlockStorage.Scheme.{IsCommitFor}
use iroha.Yac.BlockStorage.Commits.{insert_commit_cases, insert_commit_commits}
use iroha.Yac.BlockStorage.Peers.{votes_of, votes_of_one_peer_commit}
use iroha.Yac.ProposalStorage
use iroha.Yac.ProposalStorage.{YacProposalStorage, aggregate_all}
use iroha.Yac.ProposalStorage.Agreement.{
  Message, vote, receive, signers, committed_count, agreement_of_messages,
}
use iroha.Yac.VoteStorage
use iroha.Yac.VoteStorage.Lookup.{find_proposal-store_vote}
use iroha.Yac.ClusterOrdering
use iroha.Yac.ClusterOrdering.{ClusterOrdering}
use iroha.Yac.Round
use iroha.Yac.Round.{
  Yac, CryptoProvider, Sent, Event, hash_event, vote_event, commit_event, timer_event, on_hash,
  on_commit, run, is_committed,
}
use iroha.Yac.Round.Voting.{timers, ballots, voting_asks_everyone}
use iroha.Yac.Round.Soundness.{IsSafe, run-create-IsSafe}
use iroha.Yac.Round.Repeats.{commit_answer, on_commit_notifies_again}

abbrev hash : YacHash
hash = record { proposal_hash = 1 ∷ []; block_hash = 2 ∷ [] }

abbrev vote_from : ℕ → VoteMessage
vote_from n = record { hash = hash; signature = record { signature = n ∷ []; pubkey = n ∷ [] } }

abbrev peer : ℕ → Peer
peer n = record { address = n ∷ []; pubkey = n ∷ [] }

abbrev votes : List VoteMessage
votes = vote_from 1 ∷ vote_from 2 ∷ []

abbrev commit : CommitMessage
commit = record { votes = votes }

abbrev crypto : CryptoProvider
crypto = record {
  verify_vote = λ _. true;
  verify_commit = λ _. true;
  verify_reject = λ _. true;
  get_vote = λ h. record { hash = h; signature = record { signature = 1 ∷ []; pubkey = 1 ∷ [] } };
}

abbrev order : ClusterOrdering
order = ClusterOrdering.create (peer 1 ∷ peer 2 ∷ [])

abbrev events : List Event
events =
    hash_event hash order
    ∷ vote_event (peer 1) (vote_from 1)
    ∷ vote_event (peer 2) (vote_from 2)
    ∷ commit_event (peer 2) commit
    ∷ timer_event
    ∷ []

run-create-IsSafe_example : IsSafe 2 (run crypto (Round.create order) events)
run-create-IsSafe_example =
    run-create-IsSafe crypto order events (omega arith) (omega arith)
      (refl, (tt, (tt, (tt, (tt, tt)))))

abbrev keys : List Blob
keys = (1 ∷ []) ∷ (2 ∷ []) ∷ []

keys-IsDistinct : IsDistinct blob_discrete keys
unfolding contains blob_discrete
keys-IsDistinct = (refl, (refl, tt))

keys-IsWithin : IsWithin blob_discrete keys keys
unfolding contains blob_discrete
keys-IsWithin = ground arith

both_agree : has_supermajority 2 2 ≡ true
unfolding has_supermajority
both_agree = refl

supermajority-overlap_example :
    IsDistinct blob_discrete (common blob_discrete keys keys)
    × (4 ≤ 3 * length (common blob_discrete keys keys))
    × (0 < length (common blob_discrete keys keys))
supermajority-overlap_example =
    supermajority-overlap keys keys keys 0 (omega arith) (omega arith) keys-IsDistinct
      keys-IsDistinct keys-IsWithin keys-IsWithin both_agree both_agree (omega arith)

abbrev messages : List Message
messages = vote (vote_from 1) ∷ vote (vote_from 2) ∷ []

abbrev two_votes : YacProposalStorage
two_votes = receive 2 (ProposalStorage.create (1 ∷ []) 2) messages

signers-keys : signers two_votes ≡ keys
unfolding aggregate_all ProposalStorage.insert blob_discrete ProposalStorage.create modify_at
    find_or_push BlockStorage.insert contains create vote_discrete receive
signers-keys = refl

signers-IsDistinct : IsDistinct blob_discrete (signers two_votes)
signers-IsDistinct = rw signers-keys keys-IsDistinct

signers-IsWithin : IsWithin blob_discrete (signers two_votes) keys
signers-IsWithin = rw signers-keys keys-IsWithin

agreement_of_messages_example : committed_count two_votes.block_votes ≤ 1
agreement_of_messages_example =
    agreement_of_messages (1 ∷ []) keys messages (omega arith) (omega arith) (tt, (tt, tt))
      signers-IsDistinct signers-IsWithin

-- The block of the two votes has committed.
one_commit : committed_count two_votes.block_votes ≡ 1
unfolding committed_count ProposalStorage.insert blob_discrete ProposalStorage.create modify_at
    find_or_push BlockStorage.insert contains create vote_discrete has_supermajority receive
one_commit = refl

insert_votes-refines_example :
    ((insert_votes (create hash 2) votes).votes ≡ distinct_votes [] votes)
    × ((insert_votes (create hash 2) votes).current_state.state
        ≡ state_at 2 (length (distinct_votes [] votes)))
insert_votes-refines_example = insert_votes-refines hash 2 votes (omega arith) (omega arith)

insert_commit-IsValid_example : IsValid (insert_commit (create hash 2) commit).0
insert_commit-IsValid_example =
    insert_commit-IsValid (create hash 2) commit (create-IsValid hash 2 (omega arith) (omega arith))

insert_commit_cases_example :
    let (t, r) = insert_commit (create hash 2) commit in
    (¬ IsCommitFor (create hash 2) commit × (t ≡ create hash 2) × (r ≡ empty_result))
    ⊎ (IsCommitFor (create hash 2) commit
        × ((w : VoteMessage)
            → contains vote_discrete w t.votes
              ≡ (contains vote_discrete w (create hash 2).votes || contains vote_discrete w votes))
        × (t.hash ≡ (create hash 2).hash)
        × (t.peers_in_round ≡ (create hash 2).peers_in_round)
        × (r ≡ t.current_state))
insert_commit_cases_example = insert_commit_cases (create hash 2) commit

scheme : check_commit_scheme (create hash 2) commit ≡ true
unfolding check_commit_scheme has_supermajority create hash_discrete
scheme = refl

votes-IsDistinct : IsDistinct vote_discrete votes
unfolding contains vote_discrete
votes-IsDistinct = (refl, (refl, tt))

new_storage : (create hash 2).current_state.state ≡ not_committed
unfolding create
new_storage = refl

insert_commit_commits_example :
    let (t, r) = insert_commit (create hash 2) commit in
    (r.state ≡ committed) × (r.answer.commit ≡ some (record { votes = t.votes }))
insert_commit_commits_example =
    insert_commit_commits (create hash 2) commit (create-IsValid hash 2 (omega arith) (omega arith))
      new_storage scheme votes-IsDistinct

votes_of_one_peer_commit_example :
    (insert_votes (create hash 2) (votes_of hash (7 ∷ []) keys)).current_state.state ≢ not_committed
votes_of_one_peer_commit_example =
    votes_of_one_peer_commit hash 2 (7 ∷ []) keys (omega arith) (omega arith) keys-IsDistinct
      (omega arith)

find_proposal-store_vote_example :
    let (t, r) = VoteStorage.store_vote VoteStorage.empty (vote_from 1) 2 in
    VoteStorage.find_proposal t hash
    ≡ (if (1 ∷ []) =ᵇ (1 ∷ []) then some r else VoteStorage.find_proposal VoteStorage.empty hash)
find_proposal-store_vote_example = find_proposal-store_vote VoteStorage.empty (vote_from 1) 2 hash

open_proposal :
    is_committed (VoteStorage.find_proposal (Round.create order).vote_storage hash) ≡ false
unfolding Round.create VoteStorage.find_proposal
open_proposal = refl

voting_asks_everyone_example :
    let voted = on_hash crypto (Round.create order) hash order in
    let y' = run crypto voted (timers 2) in
    (y'.sent ≡ (Round.create order).sent ++ ballots crypto hash (peer 1 ∷ peer 2 ∷ []))
    × (y'.timer ≡ none)
    × (y'.vote_storage ≡ (Round.create order).vote_storage)
    × (y'.failed ≡ (Round.create order).failed)
voting_asks_everyone_example =
    voting_asks_everyone crypto hash (Round.create order) (peer 1) (peer 2 ∷ []) open_proposal
      (omega arith)

answered : (commit_answer (Round.create order) commit).state ≡ committed
unfolding Round.create VoteStorage.apply_commit modify_at find_or_push ProposalStorage.apply_commit
    ProposalStorage.create insert_commit has_supermajority create hash_discrete contains
    vote_discrete
answered = refl

answered_with : (commit_answer (Round.create order) commit).answer.commit ≡ some commit
unfolding Round.create VoteStorage.apply_commit modify_at find_or_push ProposalStorage.apply_commit
    ProposalStorage.create insert_commit has_supermajority create hash_discrete contains
    vote_discrete
answered_with = refl

on_commit_notifies_again_example :
    let y' = on_commit crypto (Round.create order) (peer 1) commit in
    (y'.notified ≡ (Round.create order).notified ++ commit ∷ [])
    × ((on_commit crypto y' (peer 2) commit).notified
        ≡ ((Round.create order).notified ++ commit ∷ []) ++ commit ∷ [])
on_commit_notifies_again_example =
    on_commit_notifies_again crypto (Round.create order) (peer 1) (peer 2) commit commit refl
      answered answered_with

abbrev block : Block
block = record empty_block { hash = 5 ∷ []; height = 2 }

abbrev tables : Wsv
tables = record Tables.empty { peer = peer 1 ∷ peer 2 ∷ [] }

abbrev vote_for_block : ℕ → VoteMessage
vote_for_block n = record {
  hash = record { proposal_hash = 5 ∷ []; block_hash = 5 ∷ [] };
  signature = record { signature = n ∷ []; pubkey = n ∷ [] };
}

abbrev block_commit : CommitMessage
block_commit = record { votes = vote_for_block 1 ∷ vote_for_block 2 ∷ [] }

abbrev gate : YacGate
gate = record { current_hash = hash; current_block = empty_block }

block_commit-IsSupermajority : IsSupermajority 2 (make_hash block) block_commit
unfolding contains vote_discrete make_hash
block_commit-IsSupermajority = record {
  distinct = (refl, (refl, tt));
  enough = omega arith;
  same = (refl, (refl, tt));
}

gate_on_commit-block_example :
    ((gate_on_commit block_commit (gate_vote (get_peers tables) block gate).0).1
      ≡ some (record block { sigs = map (λ v. v.signature) block_commit.votes }))
    × (check_supermajority tables 2 ≡ true)
gate_on_commit-block_example =
    gate_on_commit-block tables block gate block_commit block_commit-IsSupermajority
