-- ===== src/Yac/BlockStorage/Sound.antt =====
-- What a storage may answer: a commit only with a supermajority of votes for one hash.
use iroha.Prelude.{
  ◌≡◌, refl, true, List, [], ◌∷◌, ◌++◌, ℕ, some, none, length, arith, ◌≢◌, ◌+◌, ◌<◌, ◌≤◌, ◌*◌, ◌^◌,
  All, All-append, IsDistinct, contains, Bool-cases, inl, inr, if◌then◌else◌, ◌∙◌, subst, sym,
}
use iroha.Yac.Messages.{YacHash, VoteMessage, CommitMessage, vote_discrete}
use iroha.Yac.StorageResult.{StorageResult, not_committed, empty_result}
use iroha.Yac.BlockStorage.{
  YacBlockStorage, create, insert, insert_votes, check_commit_scheme, insert_commit, same_hash,
}
use iroha.Yac.BlockStorage.Commits.{insert_votes-hash}
use iroha.Yac.BlockStorage.Invariant.{
  IsValid, create-IsValid, insert-IsValid, insert_commit-IsValid,
}

abbrev pub AreFor : YacHash → List VoteMessage → Type 0
AreFor h = All λ v. v.hash ≡ h

-- Distinct votes for one hash, two thirds of n peers or more.
pub record IsSupermajority (n : ℕ) (h : YacHash) (c : CommitMessage) : Type 0 where
  pub distinct : IsDistinct vote_discrete c.votes
  pub enough : 2 * n + 1 ≤ 3 * length c.votes
  pub same : AreFor h c.votes

-- Never a reject; no commit while not committed; else a commit that is a supermajority.
pub record IsSound (n : ℕ) (h : YacHash) (r : StorageResult) : Type 0 where
  pub no_reject : r.answer.reject ≡ none
  pub open_none : r.state ≡ not_committed → r.answer.commit ≡ none
  pub closed_some :
      r.state ≢ not_committed
      → (c : CommitMessage) × (r.answer.commit ≡ some c) × IsSupermajority n h c

-- A valid storage of a round of n peers that holds votes for its own hash only.
pub record IsStore (n : ℕ) (s : YacBlockStorage) : Type 0 where
  pub valid : IsValid s
  pub peers : s.peers_in_round ≡ n
  pub for_hash : AreFor s.hash s.votes

pub empty_result-IsSound : (n : ℕ) (h : YacHash) → IsSound n h empty_result
empty_result-IsSound n h = record {
  no_reject = refl;
  open_none = λ _. refl;
  closed_some = λ ne. absurd (ne refl);
}

pub create-IsStore : (h : YacHash) (n : ℕ) → 0 < n → n < 2 ^ 64 → IsStore n (create h n)
unfolding create
create-IsStore h n pos small = record {
  valid = create-IsValid h n pos small;
  peers = refl;
  for_hash = tt;
}

pub current_state-IsSound :
    (n : ℕ) (s : YacBlockStorage) → IsStore n s → IsSound n s.hash s.current_state
current_state-IsSound n s w = record {
  no_reject = w.valid.no_reject;
  open_none = λ e. (w.valid.open_below e).1;
  closed_some = λ ne. (
    record { votes = s.votes },
    (w.valid.closed_above ne).1,
    record {
      distinct = w.valid.distinct;
      enough = omega (arith, w.peers, (w.valid.closed_above ne).0);
      same = w.for_hash;
    },
  );
}

insert_keeps :
    (s : YacBlockStorage) (v : VoteMessage)
    → ((insert s v).0.hash ≡ s.hash)
      × ((insert s v).0.peers_in_round ≡ s.peers_in_round)
      × ((insert s v).1 ≡ (insert s v).0.current_state)
      × ((insert s v).0.votes
          ≡ (if contains vote_discrete v s.votes then s.votes else s.votes ++ v ∷ []))
unfolding insert
insert_keeps s v = ground arith

insert-AreFor :
    (h : YacHash) (s : YacBlockStorage) (v : VoteMessage)
    → AreFor h s.votes
    → v.hash ≡ h
    → AreFor h (insert s v).0.votes
insert-AreFor h s v w e = elim (Bool-cases (contains vote_discrete v s.votes)) [
  | inl old ↦ rw ((insert_keeps s v).3, old) w
  | inr new ↦
      rw ((insert_keeps s v).3, new) (All-append (λ v. v.hash ≡ h) s.votes (v ∷ []) w (e, tt))
]

insert_votes-AreFor :
    (h : YacHash) (s : YacBlockStorage) (vs : List VoteMessage)
    → AreFor h s.votes
    → AreFor h vs
    → AreFor h (insert_votes s vs).votes
unfolding insert_votes insert
insert_votes-AreFor h s [] w e = w
insert_votes-AreFor h s (v ∷ vs) w e =
    insert_votes-AreFor h (insert s v).0 vs (insert-AreFor h s v w e.0) e.1

-- A vote for the storage's hash keeps the storage, and the answer is sound.
pub insert-IsStore :
    (n : ℕ) (s : YacBlockStorage) (v : VoteMessage)
    → IsStore n s
    → v.hash ≡ s.hash
    → IsStore n (insert s v).0 × IsSound n s.hash (insert s v).1 × ((insert s v).0.hash ≡ s.hash)
insert-IsStore n s v w e =
    let k = insert_keeps s v in
    let t : IsStore n (insert s v).0 = record {
      valid = insert-IsValid s v w.valid;
      peers = k.1 ∙ w.peers;
      for_hash =
          subst (λ h. AreFor h (insert s v).0.votes) (sym k.0)
            (insert-AreFor s.hash s v w.for_hash e);
    } in
    (
      t,
      rw (k.2) (
          subst (λ h. IsSound n h (insert s v).0.current_state) k.0
            (current_state-IsSound n (insert s v).0 t)),
      k.0,
    )

same_hash-AreFor : (h : YacHash) (vs : List VoteMessage) → same_hash h vs ≡ true → AreFor h vs
same_hash-AreFor h [] e = tt
same_hash-AreFor h (v ∷ vs) e = (ground arith, same_hash-AreFor h vs (ground arith))

check_commit_scheme-AreFor :
    (s : YacBlockStorage) (c : CommitMessage)
    → check_commit_scheme s c ≡ true
    → AreFor s.hash c.votes
unfolding check_commit_scheme
check_commit_scheme-AreFor s c e = go c.votes e
  where
    go :
        (vs : List VoteMessage)
        → check_commit_scheme s (record { votes = vs }) ≡ true
        → AreFor s.hash vs
    go [] e = tt
    go (v ∷ vs) e =
        let same : v.hash ≡ s.hash = ground arith in
        subst (λ h. AreFor h (v ∷ vs)) same (same_hash-AreFor v.hash (v ∷ vs) (ground arith))

insert_commit_keeps :
    (s : YacBlockStorage) (c : CommitMessage)
    → check_commit_scheme s c ≡ true
    → let (t, r) = insert_commit s c in
      (t.hash ≡ s.hash)
      × (t.peers_in_round ≡ s.peers_in_round)
      × (t.votes ≡ (insert_votes s c.votes).votes)
      × (r ≡ t.current_state)
unfolding insert_commit
insert_commit_keeps s c e = ground (arith, insert_votes-hash s c.votes)

insert_commit_accepted :
    (n : ℕ) (s : YacBlockStorage) (c : CommitMessage)
    → IsStore n s
    → check_commit_scheme s c ≡ true
    → let (t, r) = insert_commit s c in IsStore n t × IsSound n s.hash r × (t.hash ≡ s.hash)
insert_commit_accepted n s c w e =
    let (t, r) = insert_commit s c in
    let k = insert_commit_keeps s c e in
    let votes : AreFor s.hash t.votes =
      subst (AreFor s.hash) (sym k.2)
        (insert_votes-AreFor s.hash s c.votes w.for_hash (check_commit_scheme-AreFor s c e)) in
    let u : IsStore n t = record {
      valid = insert_commit-IsValid s c w.valid;
      peers = k.1 ∙ w.peers;
      for_hash = subst (λ h. AreFor h t.votes) (sym k.0) votes;
    } in
    (
      u,
      subst (IsSound n s.hash) (sym k.3)
          (subst (λ h. IsSound n h t.current_state) k.0 (current_state-IsSound n t u)),
      k.0,
    )

-- A commit message keeps the storage, and the answer is sound, whatever the message holds.
pub insert_commit-IsStore :
    (n : ℕ) (s : YacBlockStorage) (c : CommitMessage)
    → IsStore n s
    → let (t, r) = insert_commit s c in IsStore n t × IsSound n s.hash r × (t.hash ≡ s.hash)
unfolding insert_commit
insert_commit-IsStore n s c w = elim (Bool-cases (check_commit_scheme s c)) [
  | inl e ↦ insert_commit_accepted n s c w e
  | inr e ↦ rw (e, insert_commit) (w, empty_result-IsSound n s.hash, refl)
]
