-- ===== src/Yac/StorageResult.antt =====
-- irohad/consensus/yac/storage/storage_result.hpp: what a storage answers.
use iroha.Prelude.{Option, none}
use iroha.Yac.Messages.{CommitMessage, RejectMessage}

pub data CommitState : Type 0 where
  not_committed committed committed_before : CommitState

pub record Answer : Type 0 where
  pub commit : Option CommitMessage
  pub reject : Option RejectMessage

-- `StorageResult`; the default constructor is `empty_result`.
pub record StorageResult : Type 0 where
  pub answer : Answer
  pub state : CommitState

abbrev pub empty_answer : Answer
empty_answer = record { commit = none; reject = none }

abbrev pub empty_result : StorageResult
empty_result = record { answer = empty_answer; state = CommitState.not_committed }
