-- ===== src/Yac/Messages.antt =====
-- irohad/consensus/yac/messages.hpp and `YacHash` of yac_hash_provider.hpp: what the peers send one
-- another.
pub use iroha.Model.Types.{Signature, Peer}
use iroha.Prelude.{List, is_yes, Bool, Blob, blob_discrete}

pub record YacHash : Type 0 where
  pub proposal_hash : Blob
  pub block_hash : Blob

pub record VoteMessage : Type 0 where
  pub hash : YacHash
  pub signature : Signature

pub record CommitMessage : Type 0 where
  pub votes : List VoteMessage

pub record RejectMessage : Type 0 where
  pub votes : List VoteMessage

-- `operator==` of YacHash compares both hashes.
unfoldable pub hash_discrete : Discrete YacHash
unfolding blob_discrete
hash_discrete = hlevel blob_discrete

unfoldable pub signature_discrete : Discrete Signature
unfolding blob_discrete
signature_discrete = hlevel blob_discrete

-- `operator==` of VoteMessage compares the hash and the signature.
unfoldable pub vote_discrete : Discrete VoteMessage
unfolding hash_discrete signature_discrete
vote_discrete = hlevel (hash_discrete, signature_discrete)

infix 50 ◌=ʰ◌
abbrev pub ◌=ʰ◌ : YacHash → YacHash → Bool
a =ʰ b = is_yes (hash_discrete a b)
