-- ===== src/Counters/Own.antt =====
-- internal/signal/poll_counters.go: the requests for a vote counter, and the counters that the
-- account's own votes on its other devices bring.
use go_signal.Base.{
  ℕ, Bool, true, false, not, ◌||◌, Option, none, some, is_some, [], ◌∷◌, Bytes, codes, str_eq,
  str_eq→eq, ◌≡◌, sym, subst, ◌<◌, refl, if◌then◌else◌, arith,
}
use go_signal.Uuid.{UuidLib, is_aci}
use go_signal.Types.{Recipient, Chat, is_group, OutgoingPollVote, SendRequest}
use go_signal.Events.{Event, PollVote, poll_vote}
use go_signal.Request.Content.{SendError, invalid_poll}
use go_signal.Request.PollCheck.{check_vote}
use go_signal.Request.Check

-- PollVoteCounterRequest
pub record PollVoteCounterRequest : Type 0 where
  pub chat : Chat
  pub author : Recipient
  pub timestamp : ℕ
  pub explicit : ℕ

-- The request that PollVoteCounterRequest.Check checks in its place.
unfoldable pub vote_request : PollVoteCounterRequest → SendRequest
vote_request req = record {
  recipients = if is_group req.chat then [] else req.chat.recipient ∷ [];
  group_id = req.chat.group_id;
  body = codes "";
  timestamp = 0;
  edit_target = 0;
  attachments = [];
  sticker = none;
  story = none;
  poll_create = none;
  poll_vote = some (record {
    target_author = req.author;
    target_timestamp = req.timestamp;
    option_indexes = [];
    vote_count = 1;
  });
  poll_close = none;
  pin = none;
  unpin = none;
  quote = none;
  mentions = [];
  styles = [];
  reaction = none;
  delete_target = 0;
}

module _ ⦃u : UuidLib⦄ where
  -- PollVoteCounterRequest.Check
  unfoldable pub check_counter : PollVoteCounterRequest → Option SendError
  unfolding vote_request
  check_counter req =
      if not (is_aci req.author.aci) then some invalid_poll else Check.check (vote_request req)

  abbrev pub counter_request : PollVote → PollVoteCounterRequest
  counter_request e = record {
    chat = e.envelope.chat;
    author = e.vote.target_author;
    timestamp = e.vote.target_timestamp;
    explicit = e.vote.vote_count;
  }

  -- OwnPollVoteCounter
  unfoldable pub own_poll_vote_counter : Event → Bytes → Option PollVoteCounterRequest
  own_poll_vote_counter (poll_vote e) own_aci =
      if not e.envelope.sync
        || not (str_eq e.envelope.sender.aci own_aci)
        || is_some (check_vote e.vote)
      then none
      else if is_some (check_counter (counter_request e))
      then none
      else some (counter_request e)
  own_poll_vote_counter _ own_aci = none

  own_vote :
      (refused wrong : Bool) (req found : PollVoteCounterRequest)
      → (if refused then none else if wrong then none else some req) ≡ some found
      → (refused ≡ false) × (wrong ≡ false) × (req ≡ found)
  own_vote true wrong req found h = cc
  own_vote false true req found h = cc
  own_vote false false req found h = (refl, refl, cc)

  or_false : (a b c : Bool) → (not a || not b || c) ≡ false → (a ≡ true) × (b ≡ true) × (c ≡ false)
  or_false true true false h = (refl, refl, refl)
  or_false true true true h = cc
  or_false true false c h = cc
  or_false false b c h = cc

  counted_vote : (v : OutgoingPollVote) → is_some (check_vote v) ≡ false → 0 < v.vote_count
  unfolding check_vote
  counted_vote v h = ground arith

  no_error : (e : Option SendError) → is_some e ≡ false → e ≡ none
  no_error none h = refl
  no_error (some e) h = cc

  -- A counter is learnt only from a vote of the account itself that another of its devices sent:
  -- the request names the poll of that vote, has its positive counter, and passes the check of the
  -- chat's and the author's identities.
  pub own_poll_vote_counter_lem :
      (evt : Event) (own_aci : Bytes) (req : PollVoteCounterRequest)
      → own_poll_vote_counter evt own_aci ≡ some req
      → (e : PollVote) × (evt ≡ poll_vote e)
        × (req ≡ counter_request e)
        × (e.envelope.sync ≡ true)
        × (e.envelope.sender.aci ≡ own_aci)
        × (0 < req.explicit)
        × (check_counter req ≡ none)
  unfolding own_poll_vote_counter
  own_poll_vote_counter_lem (poll_vote e) own_aci req h =
      let (fine, right, same) = own_vote _ _ (counter_request e) req h in
      let (sync, sender, valid) =
        or_false e.envelope.sync (str_eq e.envelope.sender.aci own_aci)
          (is_some (check_vote e.vote)) fine in
      (
        e,
        refl,
        sym same,
        sync,
        str_eq→eq e.envelope.sender.aci own_aci sender,
        subst (λ (q : PollVoteCounterRequest). 0 < q.explicit) same (counted_vote e.vote valid),
        subst (λ (q : PollVoteCounterRequest). check_counter q ≡ none) same
            (no_error (check_counter (counter_request e)) right),
      )
  own_poll_vote_counter_lem _ own_aci req h = cc
