-- ===== src/Yac/BlockStorage/Scheme.antt =====
-- Which commit messages pass the scheme check of a block storage.
use iroha.Prelude.{◌≡◌, ◌↔◌, sym, subst, refl, true, false, List, [], ◌∷◌, all, All, length, arith}
use iroha.Yac.Messages.{YacHash, VoteMessage, CommitMessage, ◌=ʰ◌}
use iroha.Yac.Supermajority.{has_supermajority, has_supermajority-none}
use iroha.Yac.BlockStorage.{YacBlockStorage, check_commit_scheme}

abbrev HaveHash : List VoteMessage → YacHash → Type 0
HaveHash vs hash = All (λ (v : VoteMessage). v.hash ≡ hash) vs

-- Enough votes for the peers of the round, and each of them for the hash of the storage.
pub record IsCommitFor (s : YacBlockStorage) (c : CommitMessage) : Type 0 where
  pub enough : has_supermajority (length c.votes) s.peers_in_round ≡ true
  pub same : HaveHash c.votes s.hash

all-All : (h : YacHash) (vs : List VoteMessage) → all (λ v. h =ʰ v.hash) vs ≡ true → HaveHash vs h
all-All h [] e = tt
all-All h (v ∷ vs) e = (ground arith, all-All h vs (ground arith))

All-all : (h : YacHash) (vs : List VoteMessage) → HaveHash vs h → all (λ v. h =ʰ v.hash) vs ≡ true
All-all h [] e = refl
All-all h (v ∷ vs) e = ground (arith, e.0, All-all h vs e.1)

abbrev message : List VoteMessage → CommitMessage
message vs = record { votes = vs }

check_commit_scheme_complete :
    (s : YacBlockStorage) (vs : List VoteMessage)
    → IsCommitFor s (message vs)
    → check_commit_scheme s (message vs) ≡ true
unfolding check_commit_scheme
check_commit_scheme_complete s [] h = absurd (
    let none_is_enough : has_supermajority 0 s.peers_in_round ≡ false =
      has_supermajority-none s.peers_in_round in
    ground (arith, h.enough, none_is_enough))
check_commit_scheme_complete s (v ∷ vs) h =
    let first : v.hash ≡ s.hash = h.same.0 in
    let same = All-all v.hash (v ∷ vs) (subst (HaveHash (v ∷ vs)) (sym first) h.same) in
    ground (arith, h.enough, first, same)

check_commit_scheme-IsCommitFor :
    (s : YacBlockStorage) (vs : List VoteMessage)
    → check_commit_scheme s (message vs) ≡ true
    → IsCommitFor s (message vs)
unfolding check_commit_scheme
check_commit_scheme-IsCommitFor s [] h = absurd (ground arith)
check_commit_scheme-IsCommitFor s (v ∷ vs) h =
    let first : v.hash ≡ s.hash = ground arith in
    record {
      enough = ground arith;
      same = subst (HaveHash (v ∷ vs)) first (all-All v.hash (v ∷ vs) (ground arith));
    }

-- The scheme check is that of a commit for the storage.
pub check_commit_scheme_iff :
    (s : YacBlockStorage) (c : CommitMessage) → (check_commit_scheme s c ≡ true) ↔ IsCommitFor s c
check_commit_scheme_iff s c =
    (check_commit_scheme-IsCommitFor s c.votes, check_commit_scheme_complete s c.votes)
