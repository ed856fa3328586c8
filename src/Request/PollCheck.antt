-- ===== src/Request/PollCheck.antt =====
-- internal/signal/poll_check.go: polls, votes and closures of an outgoing request.
use go_signal.Base.{
  ℕ, ◌+◌, Bool, false, not, ◌&&◌, ◌||◌, Option, none, some, List, [], ◌∷◌, Bytes, is_empty, any,
  ◌==◌, leb, ltb, is_some, length, if◌then◌else◌,
}
use go_signal.Std.Utf8.{runes, is_blank, utf16_len}
use go_signal.Uuid.{UuidLib, is_uuid, is_aci}
use go_signal.Types.{Recipient, Poll, OutgoingPollVote, OutgoingPollClose, SendRequest}
use go_signal.Request.Content.{SendError, invalid_poll, poll_has_content, valid_poll_group}

-- pollText, and validPollText of poll_reduce.go, which has the same body.
unfoldable pub poll_text : Bytes → ℕ → Bool
poll_text text limit = elim (runes text) [
  | none ↦ false
  | some rs ↦ not (is_blank text) && leb (utf16_len rs) limit
]

abbrev pub poll_text_limit : ℕ
poll_text_limit = 100

abbrev pub poll_incoming_question_limit : ℕ
poll_incoming_question_limit = 200

abbrev pub poll_max_options : ℕ
poll_max_options = 10

abbrev pub poll_min_options : ℕ
poll_min_options = 2

-- Poll.check
unfoldable pub check_poll_within : ℕ → Poll → Option SendError
check_poll_within question_limit p =
    if not (poll_text p.question question_limit)
      || ltb (length p.options) poll_min_options
      || ltb poll_max_options (length p.options)
    then some invalid_poll
    else if any (λ option. not (poll_text option poll_text_limit)) p.options
    then some invalid_poll
    else none

-- Poll.Check
unfoldable pub check_poll : Poll → Option SendError
unfolding check_poll_within
check_poll p = check_poll_within poll_text_limit p

-- The loop over the indexes: an index out of range, or one seen before, is refused.
unfoldable pub indexes_refused : List ℕ → List ℕ → Bool
indexes_refused seen [] = false
indexes_refused seen (index ∷ rest) =
    leb poll_max_options index || any (◌==◌ index) seen || indexes_refused (index ∷ seen) rest

-- OutgoingPollClose.Check
unfoldable pub check_close : OutgoingPollClose → Option SendError
check_close p = if p.target_timestamp == 0 then some invalid_poll else none

abbrev one_if : Bool → ℕ
one_if b = if b then 1 else 0

module _ ⦃u : UuidLib⦄ where
  -- OutgoingPollVote.check
  unfoldable pub check_vote_body : OutgoingPollVote → Option SendError
  unfolding is_uuid indexes_refused
  check_vote_body v =
      if not (is_uuid v.target_author.aci) || v.target_timestamp == 0
      then some invalid_poll
      else if indexes_refused [] v.option_indexes
      then some invalid_poll
      else none

  -- OutgoingPollVote.Check
  unfoldable pub check_vote : OutgoingPollVote → Option SendError
  unfolding check_vote_body
  check_vote v = if v.vote_count == 0 then some invalid_poll else check_vote_body v

  -- SendRequest.validPollChat
  unfoldable pub valid_poll_chat : SendRequest → Bool
  unfolding valid_poll_group
  valid_poll_chat r =
      if not (is_empty r.group_id)
      then is_empty r.recipients && valid_poll_group r.group_id
      else one_aci r.recipients
    where
      one_aci : List Recipient → Bool
      one_aci [] = false
      one_aci (r ∷ []) = is_aci r.aci
      one_aci (r ∷ s ∷ rest) = false

  -- The operation that checkPoll goes on to check.
  check_poll_operation :
      Option Poll → Option OutgoingPollVote → Option OutgoingPollClose → Option SendError
  check_poll_operation (some p) vote close = check_poll p
  check_poll_operation none (some v) close = check_vote v
  check_poll_operation none none (some c) = check_close c
  check_poll_operation none none none = some invalid_poll

  -- SendRequest.checkPoll
  unfoldable pub check_poll_request : SendRequest → Option SendError
  unfolding valid_poll_chat poll_has_content check_poll_operation
  check_poll_request r =
      if not (valid_poll_chat r) || poll_has_content r
      then some invalid_poll
      else if not (
          one_if (is_some r.poll_create)
            + one_if (is_some r.poll_vote)
            + one_if (is_some r.poll_close)
          == 1)
      then some invalid_poll
      else check_poll_operation r.poll_create r.poll_vote r.poll_close
