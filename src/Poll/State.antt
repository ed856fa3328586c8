-- ===== src/Poll/State.antt =====
-- internal/signal/poll_state.go, and the head of ReducePoll: what a client knows of a poll.
use go_signal.Base.{ℕ, Bool, false, Option, none, List, [], Bytes, codes}
use go_signal.Types.{Recipient, Chat, Poll}

pub record PollReference : Type 0 where
  pub chat : Chat
  pub author : Recipient
  pub timestamp : ℕ

-- PollStateVote
pub record StateVote : Type 0 where
  pub voter : Recipient
  pub option_indexes : List ℕ
  pub vote_count : ℕ
  pub timestamp : ℕ

-- An absent tally is `none`.
pub record PollState : Type 0 where
  pub source : Bytes
  pub observations : ℕ
  pub chat : Chat
  pub author : Recipient
  pub timestamp : ℕ
  pub creation : Option Poll
  pub votes : List StateVote
  pub tally : Option (List ℕ)
  pub closure_observed : Bool
  pub closed_at : ℕ
  pub deleted : Bool
  pub completeness : Bytes
  pub scanned : ℕ
  pub first_entry_id : ℕ
  pub last_entry_id : ℕ
  pub truncated : Bool
  pub ignored_invalid : ℕ
  pub conflicts : ℕ

unfoldable pub init : PollReference → PollState
init ref = record {
  source = codes "";
  observations = 0;
  chat = ref.chat;
  author = ref.author;
  timestamp = ref.timestamp;
  creation = none;
  votes = [];
  tally = none;
  closure_observed = false;
  closed_at = 0;
  deleted = false;
  completeness = codes "unknown";
  scanned = 0;
  first_entry_id = 0;
  last_entry_id = 0;
  truncated = false;
  ignored_invalid = 0;
  conflicts = 0;
}

-- The reference of the poll that a state describes.
abbrev pub reference : PollState → PollReference
reference s = record { chat = s.chat; author = s.author; timestamp = s.timestamp }
