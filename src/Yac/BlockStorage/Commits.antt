-- ===== src/Yac/BlockStorage/Commits.antt =====
-- What a commit message does to a block storage, also when it comes a second time.
use iroha.Prelude.{
  ◌≡◌, ◌||◌, is_yes, refl, true, List, [], ◌∷◌, some, length, contains, contains-append, arith,
  IsWithin, IsDistinct, length-le_of_within, Bool-cases, ◌⊎◌, inl, inr,
}
use iroha.Yac.Messages.{VoteMessage, CommitMessage, vote_discrete}
use iroha.Yac.Supermajority.{has_supermajority_iff}
use iroha.Yac.StorageResult.{StorageResult, not_committed, committed, empty_result}
use iroha.Yac.BlockStorage.{
  YacBlockStorage, insert, insert_votes, report_commit, check_commit_scheme, insert_commit,
}
use iroha.Yac.BlockStorage.Scheme.{IsCommitFor, check_commit_scheme_iff}
use iroha.Yac.BlockStorage.Invariant.{IsValid, insert_votes-IsValid}

-- A vote that is stored already changes nothing.
pub insert_known :
    (s : YacBlockStorage) (v : VoteMessage)
    → contains vote_discrete v s.votes ≡ true
    → insert s v ≡ (s, s.current_state)
unfolding insert
insert_known s v h = ground arith

contains-insert :
    (s : YacBlockStorage) (v w : VoteMessage)
    → contains vote_discrete w s.votes ≡ true
    → contains vote_discrete w (insert s v).0.votes ≡ true
unfolding insert
contains-insert s v w h = ground (arith, contains-append vote_discrete w s.votes (v ∷ []))

contains-insert_self :
    (s : YacBlockStorage) (v : VoteMessage) → contains vote_discrete v (insert s v).0.votes ≡ true
unfolding insert contains
contains-insert_self s v = ground (arith, contains-append vote_discrete v s.votes (v ∷ []))

-- No stored vote is lost.
pub contains-insert_votes :
    (s : YacBlockStorage) (vs : List VoteMessage) (w : VoteMessage)
    → contains vote_discrete w s.votes ≡ true
    → contains vote_discrete w (insert_votes s vs).votes ≡ true
unfolding insert_votes insert
contains-insert_votes s [] w h = h
contains-insert_votes s (v ∷ vs) w h =
    contains-insert_votes (insert s v).0 vs w (contains-insert s v w h)

-- Every vote of the list is stored.
pub insert_votes-contains :
    (s : YacBlockStorage) (vs : List VoteMessage)
    → IsWithin vote_discrete vs (insert_votes s vs).votes
unfolding insert_votes insert contains
insert_votes-contains s [] w h = ground arith
insert_votes-contains s (v ∷ vs) w h = ground (
  arith,
  insert_votes-contains (insert s v).0 vs w,
  contains-insert_votes (insert s v).0 vs v (contains-insert_self s v),
)

insert_votes_known :
    (s : YacBlockStorage) (vs : List VoteMessage)
    → IsWithin vote_discrete vs s.votes
    → insert_votes s vs ≡ s
unfolding insert_votes insert contains
insert_votes_known s [] h = refl
insert_votes_known s (v ∷ vs) h = ground (
  arith,
  insert_known s v (h v (ground arith)),
  insert_votes_known s vs (λ w m. h w (ground arith)),
)

insert_known_after :
    (s : YacBlockStorage) (r : StorageResult) (vs : List VoteMessage)
    → IsWithin vote_discrete vs s.votes
    → insert_votes (record s { current_state = r }) vs ≡ record s { current_state = r }
insert_known_after s r vs h = insert_votes_known (record s { current_state = r }) vs h

pub insert_votes-hash :
    (s : YacBlockStorage) (vs : List VoteMessage)
    → ((insert_votes s vs).hash ≡ s.hash) × ((insert_votes s vs).peers_in_round ≡ s.peers_in_round)
unfolding insert_votes insert
insert_votes-hash s [] = (refl, refl)
insert_votes-hash s (v ∷ vs) = ground (arith, insert_votes-hash (insert s v).0 vs)

-- A commit message that passes the scheme check and leaves the state committed is answered alike
-- when it is applied again: the storage does not change, and the state is once more `committed`,
-- not `committed_before`.
pub insert_commit_again :
    (s : YacBlockStorage) (c : CommitMessage)
    → check_commit_scheme s c ≡ true
    → (insert_commit s c).1.state ≡ committed
    → let (t, r) = insert_commit s c in insert_commit t c ≡ (t, r)
unfolding insert_commit check_commit_scheme report_commit
insert_commit_again s c scheme e = ground (
  arith,
  insert_votes-hash s c.votes,
  insert_known_after (insert_votes s c.votes)
      (report_commit s.current_state.state (insert_votes s c.votes).current_state) c.votes
      (insert_votes-contains s c.votes),
)

contains-insert_back :
    (s : YacBlockStorage) (v w : VoteMessage)
    → contains vote_discrete w (insert s v).0.votes ≡ true
    → (contains vote_discrete w s.votes || is_yes (vote_discrete w v)) ≡ true
unfolding insert contains
contains-insert_back s v w h = ground (arith, contains-append vote_discrete w s.votes (v ∷ []))

-- Every stored vote was stored before or is of the list.
contains-insert_votes_back :
    (s : YacBlockStorage) (vs : List VoteMessage) (w : VoteMessage)
    → contains vote_discrete w (insert_votes s vs).votes ≡ true
    → (contains vote_discrete w s.votes || contains vote_discrete w vs) ≡ true
unfolding insert_votes insert contains
contains-insert_votes_back s [] w h = ground arith
contains-insert_votes_back s (v ∷ vs) w h =
    ground (arith, contains-insert_back s v w, contains-insert_votes_back (insert s v).0 vs w h)

-- The votes that are stored after are those stored before and those of the list.
contains-insert_votes_either :
    (s : YacBlockStorage) (vs : List VoteMessage) (w : VoteMessage)
    → contains vote_discrete w (insert_votes s vs).votes
      ≡ (contains vote_discrete w s.votes || contains vote_discrete w vs)
contains-insert_votes_either s vs w = ground (
  arith,
  contains-insert_votes s vs w,
  insert_votes-contains s vs w,
  contains-insert_votes_back s vs w,
)

-- A commit message with too few votes, or with a vote for another hash than that of the storage, is
-- dropped: the storage stays as it is, and the result is empty. With any other one, a vote is
-- stored after exactly if it was before or is one of the message's, the hash and the number of
-- peers stay, and the result is the state of the storage.
pub insert_commit_cases :
    (s : YacBlockStorage) (c : CommitMessage)
    → let (t, r) = insert_commit s c in
      (¬ IsCommitFor s c × (t ≡ s) × (r ≡ empty_result))
      ⊎ (IsCommitFor s c
          × ((w : VoteMessage)
              → contains vote_discrete w t.votes
                ≡ (contains vote_discrete w s.votes || contains vote_discrete w c.votes))
          × (t.hash ≡ s.hash)
          × (t.peers_in_round ≡ s.peers_in_round)
          × (r ≡ t.current_state))
unfolding insert_commit
insert_commit_cases s c =
    let scheme = check_commit_scheme_iff s c in
    let (hash, peers) = insert_votes-hash s c.votes in
    elim (Bool-cases (check_commit_scheme s c)) [
      | inl e ↦
          rw (e, insert_commit)
            (inr (scheme.0 e, contains-insert_votes_either s c.votes, hash, peers, refl))
      | inr e ↦ rw (e, insert_commit) (inl ((λ k. absurd (ground (arith, scheme.1 k))), refl, refl))
    ]

-- In a valid storage that has not committed, a commit message that passes the scheme check and
-- whose votes are distinct is reported as a new commit, of all the votes then stored.
pub insert_commit_commits :
    (s : YacBlockStorage) (c : CommitMessage)
    → IsValid s
    → s.current_state.state ≡ not_committed
    → check_commit_scheme s c ≡ true
    → IsDistinct vote_discrete c.votes
    → let (t, r) = insert_commit s c in
      (r.state ≡ committed) × (r.answer.commit ≡ some (record { votes = t.votes }))
unfolding insert_commit check_commit_scheme report_commit
insert_commit_commits s c w open_ scheme d =
    let t = insert_votes s c.votes in
    let v = insert_votes-IsValid s c.votes w in
    ground (
      arith,
      length-le_of_within vote_discrete c.votes t.votes d (insert_votes-contains s c.votes),
      has_supermajority_iff (length c.votes) s.peers_in_round w.some_peers w.few_peers,
      insert_votes-hash s c.votes,
      v.open_below,
      v.closed_above,
    )

-- A commit message that is answered with `committed` is answered so again, and changes nothing the
-- second time.
pub insert_commit_repeats :
    (s : YacBlockStorage) (c : CommitMessage)
    → (insert_commit s c).1.state ≡ committed
    → let (t, r) = insert_commit s c in (t.hash ≡ s.hash) × (insert_commit t c ≡ (t, r))
unfolding insert_commit
insert_commit_repeats s c e = elim (Bool-cases (check_commit_scheme s c)) [
  | inl scheme ↦ (ground (arith, insert_votes-hash s c.votes), insert_commit_again s c scheme e)
  | inr dropped ↦ absurd (ground arith)
]
