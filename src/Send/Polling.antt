-- ===== src/Send/Polling.antt =====
-- internal/app/polls.go: the creation, the votes and the closure of a poll.
use go_signal.Send.PollChecks.{
  poll_recipient, check_vote_args, check_create_args, check_close_args, PollCreateRequest,
  PollVoteRequest, PollCloseRequest, request_poll, Voted, reservation_of, reserved,
}
use go_signal.Base.{
  ℕ, Option, none, some, is_some, List, [], ◌∷◌, Bytes, Outcome, returns, fails, if◌then◌else◌,
}
use go_signal.Uuid.{UuidLib}
use go_signal.Types.{Recipient, of_aci}
use go_signal.Policy.Targets.{Target, Account, Result, ok, err, resolve_users}
use go_signal.Policy.Allowlist.{Allowlist}
use go_signal.Policy.Arguments.{parse_message_ref}
use go_signal.Counters.{CounterRow, reserve}
use go_signal.Counters.Own.{PollVoteCounterRequest, check_counter}
use go_signal.Request.Content.{invalid_poll}
use go_signal.Send.Content.{
  Client, SendState, AppError, invalid_arguments, invalid_payload, no_account, unresolved_target,
  Content, no_content,
}
use go_signal.Send.Deliver.{Sent, send_prepared}

module _ ⦃u : UuidLib⦄ where
  -- The client's ReservePollVote, on its own table.
  unfoldable pub reserve_vote :
      List CounterRow → PollVoteCounterRequest → List CounterRow × Outcome AppError ℕ
  unfolding reserved
  reserve_vote rows req =
      if is_some (check_counter req)
      then (rows, fails (invalid_payload invalid_poll))
      else reserved (reserve rows (reservation_of req))

  module _ (client : Client) (allow : Option Allowlist) (now : ℕ) where
    -- What is sent for the own account: its ACI is the author of the poll.
    unfoldable pub own_content : Content → Result Account → Outcome AppError (Recipient × Content)
    own_content msg (ok own) = returns (of_aci own.aci, msg)
    own_content msg (err e) = fails no_account

    unfoldable pub own_poll :
        Content → SendState → Option Bytes → SendState × Outcome AppError (Sent Recipient)
    unfolding own_content
    own_poll msg s none = (s, fails invalid_arguments)
    own_poll msg s (some destination) =
        send_prepared client allow now
          (λ state targets. (state, own_content msg client.directory.account)) s (destination ∷ [])

    abbrev unless_refused :
        {A : Type 0}
        → Option AppError
        → SendState
        → SendState × Outcome AppError (Sent A)
        → SendState × Outcome AppError (Sent A)
    unless_refused (some e) s rest = (s, fails e)
    unless_refused none s rest = rest

    -- App.PollCreate
    unfoldable pub poll_create :
        SendState → PollCreateRequest → SendState × Outcome AppError (Sent Recipient)
    unfolding own_poll
    poll_create s req = unless_refused (check_create_args req) s (
        own_poll (record no_content { poll_create = some (request_poll req) }) s
          (poll_recipient req.group_id req.recipient))

    -- App.PollClose
    unfoldable pub poll_close :
        SendState → PollCloseRequest → SendState × Outcome AppError (Sent Recipient)
    unfolding own_poll
    poll_close s req = unless_refused (check_close_args req) s (
        own_poll
          (record no_content { poll_close = some (record { target_timestamp = req.target }) }) s
          (poll_recipient req.group_id req.recipient))

    unfoldable pub vote_content :
        PollVoteRequest
        → ℕ
        → Recipient
        → SendState
        → List CounterRow × Outcome AppError ℕ
        → SendState × Outcome AppError (Voted × Content)
    vote_content req timestamp author s (rows, fails e) = (record s { counters = rows }, fails e)
    vote_content req timestamp author s (rows, returns n) = (
      record s { counters = rows },
      returns (
        record { author = author; count = n },
        record no_content {
          poll_vote = some (record {
            target_author = author;
            target_timestamp = timestamp;
            option_indexes = req.option_indexes;
            vote_count = n;
          });
        },
      ),
    )

    unfoldable pub vote_build :
        PollVoteRequest
        → ℕ
        → SendState
        → List Target
        → Result (List Target)
        → SendState × Outcome AppError (Voted × Content)
    unfolding vote_content reserve_vote
    vote_build req timestamp s (t ∷ ts) (ok (author ∷ rest)) =
        vote_content req timestamp author.recipient s (
          reserve_vote s.counters (record {
            chat = record { group_id = t.group_id; recipient = t.recipient };
            author = author.recipient;
            timestamp = timestamp;
            explicit = req.vote_count;
          }))
    vote_build req timestamp s targets (err e) = (s, fails (unresolved_target e))
    vote_build req timestamp s targets _ = (s, fails invalid_arguments)

    unfoldable pub vote_sent :
        PollVoteRequest
        → SendState
        → Option Bytes
        → Option (Target × ℕ)
        → SendState × Outcome AppError (Sent Voted)
    unfolding vote_build
    vote_sent req s (some destination) (some (author, timestamp)) =
        send_prepared client allow now
          (λ state targets.
            vote_build req timestamp state targets (resolve_users client.directory (author ∷ [])))
          s (destination ∷ [])
    vote_sent req s _ _ = (s, fails invalid_arguments)

    -- App.PollVote
    unfoldable pub poll_vote :
        SendState → PollVoteRequest → SendState × Outcome AppError (Sent Voted)
    unfolding vote_sent check_vote_args
    poll_vote s req =
        unless_refused (check_vote_args req) s (
          vote_sent req s (poll_recipient req.group_id req.recipient)
            (parse_message_ref req.target))
