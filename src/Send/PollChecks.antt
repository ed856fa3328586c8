-- ===== src/Send/PollChecks.antt =====
-- internal/app/polls.go and poll_types.go: the requests about polls, and their checks.
use go_signal.Base.{
  ℕ, max, Bool, true, false, not, ◌&&◌, ◌||◌, Option, none, some, is_some, List, ◌++◌, Bytes, codes,
  is_empty, str_eq, eq_bool, leb, ◌==◌, Outcome, returns, fails, if◌then◌else◌,
}
use go_signal.Std.Decimal.{format}
use go_signal.Uuid.{UuidLib}
use go_signal.Types.{Recipient, chat_key, of_aci, Poll, OutgoingPollVote}
use go_signal.Policy.Targets.{Target, to_group}
use go_signal.Policy.Arguments.{parse_recipient, check_poll_group, parse_message_ref}
use go_signal.Counters.{CounterRow, Reservation}
use go_signal.Counters.Own.{PollVoteCounterRequest}
use go_signal.Request.PollCheck.{check_poll, check_vote, check_close}
use go_signal.Request.Content.{invalid_poll}
use go_signal.Send.Content.{AppError, invalid_arguments, invalid_payload, exhausted_counter}

pub record PollCreateRequest : Type 0 where
  pub group_id : Bytes
  pub recipient : Bytes
  pub question : Bytes
  pub options : List Bytes
  pub single_choice : Bool

pub record PollVoteRequest : Type 0 where
  pub group_id : Bytes
  pub recipient : Bytes
  pub target : Bytes
  pub option_indexes : List ℕ
  pub vote_count : ℕ
  pub clear : Bool

pub record PollCloseRequest : Type 0 where
  pub group_id : Bytes
  pub recipient : Bytes
  pub target : ℕ

pub record PollShowRequest : Type 0 where
  pub durable : Bool
  pub group_id : Bytes
  pub recipient : Bytes
  pub target : Bytes
  -- An int: whether it is negative, and its magnitude.
  pub scan_limit_negative : Bool
  pub scan_limit : ℕ

-- MaxPollScanLimit
abbrev pub max_poll_scan_limit : ℕ
max_poll_scan_limit = 10000

abbrev some_author : Recipient
some_author = of_aci (codes "00000000-0000-0000-0000-000000000001")

-- The poll of a request.
abbrev pub request_poll : PollCreateRequest → Poll
request_poll req = record {
  question = req.question;
  options = req.options;
  allow_multiple = not req.single_choice;
}

abbrev unless_invalid : {A : Type 0} → Bool → Option A → Option AppError
unless_invalid true none = none
unless_invalid true (some e) = some (invalid_payload invalid_poll)
unless_invalid false e = some invalid_arguments

-- What PollVote reports of its own: the author and the counter.
pub record Voted : Type 0 where
  pub author : Recipient
  pub count : ℕ

-- The row that the client reserves.
abbrev pub reservation_of : PollVoteCounterRequest → Reservation
reservation_of req = record {
  chat = chat_key req.chat;
  author = req.author.aci;
  timestamp = req.timestamp;
  explicit = req.explicit;
}

unfoldable pub reserved : List CounterRow × Option ℕ → List CounterRow × Outcome AppError ℕ
reserved (after, none) = (after, fails exhausted_counter)
reserved (after, some n) = (after, returns n)

module _ ⦃u : UuidLib⦄ where
  abbrev is_nil_aci : Bytes → Bool
  is_nil_aci aci = str_eq aci (u.to_string u.nil)

  abbrev direct : Bytes → Option Target → Option Bytes
  direct recipient none = none
  direct recipient (some t) =
      if to_group t || is_nil_aci t.recipient.aci then none else some recipient

  -- pollRecipient; `none` is its error.
  unfoldable pub poll_recipient : Bytes → Bytes → Option Bytes
  unfolding check_poll_group
  poll_recipient group_id recipient =
      if eq_bool (is_empty group_id) (is_empty recipient)
      then none
      else if is_empty group_id
      then direct recipient (parse_recipient recipient)
      else if check_poll_group group_id
      then some (codes "group:" ++ group_id)
      else none

  -- PollCreateRequest.Check
  unfoldable pub check_create_args : PollCreateRequest → Option AppError
  check_create_args req =
      unless_invalid (is_some (poll_recipient req.group_id req.recipient))
        (check_poll (request_poll req))

  unfoldable pub vote_of : PollVoteRequest → ℕ → OutgoingPollVote
  vote_of req timestamp = record {
    target_author = some_author;
    target_timestamp = timestamp;
    option_indexes = req.option_indexes;
    vote_count = max req.vote_count 1;
  }

  unfoldable pub check_vote_target : PollVoteRequest → Option (Target × ℕ) → Option AppError
  unfolding vote_of
  check_vote_target req none = some invalid_arguments
  check_vote_target req (some (author, timestamp)) =
      if is_nil_aci author.recipient.aci
      then some (invalid_payload invalid_poll)
      else if eq_bool req.clear (not (is_empty req.option_indexes))
      then some (invalid_payload invalid_poll)
      else unless_invalid true (check_vote (vote_of req timestamp))

  -- PollVoteRequest.Check
  unfoldable pub check_vote_args : PollVoteRequest → Option AppError
  unfolding check_vote_target
  check_vote_args req =
      if is_some (poll_recipient req.group_id req.recipient)
      then check_vote_target req (parse_message_ref req.target)
      else some invalid_arguments

  -- PollCloseRequest.Check
  unfoldable pub check_close_args : PollCloseRequest → Option AppError
  check_close_args req =
      unless_invalid (is_some (poll_recipient req.group_id req.recipient))
        (check_close (record { target_timestamp = req.target }))

  abbrev canonical_chat : Bytes → Option Target → Bool
  canonical_chat recipient none = false
  canonical_chat recipient (some t) =
      not (is_empty t.recipient.aci) && str_eq t.recipient.aci recipient

  -- PollShowRequest.checkChat, nil or not
  unfoldable pub check_show_chat : PollShowRequest → Bool
  check_show_chat req =
      is_some (poll_recipient req.group_id req.recipient)
      && (is_empty req.recipient || canonical_chat req.recipient (parse_recipient req.recipient))

  -- PollShowRequest.checkScan, nil or not
  unfoldable pub check_show_scan : PollShowRequest → Bool
  check_show_scan req =
      not (req.durable && not (req.scan_limit == 0))
      && not req.scan_limit_negative
      && leb req.scan_limit max_poll_scan_limit

  abbrev canonical_target : Bytes → Option (Target × ℕ) → Bool
  canonical_target target none = false
  canonical_target target (some (author, timestamp)) =
      not author.self
      && not (is_empty author.recipient.aci)
      && not (is_nil_aci author.recipient.aci)
      && str_eq target (author.recipient.aci ++ codes ":" ++ format timestamp)

  -- PollShowRequest.Check, nil or not
  unfoldable pub check_show_args : PollShowRequest → Bool
  unfolding check_show_chat check_show_scan
  check_show_args req =
      check_show_chat req
      && canonical_target req.target (parse_message_ref req.target)
      && check_show_scan req
