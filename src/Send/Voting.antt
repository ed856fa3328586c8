-- ===== src/Send/Voting.antt =====
-- internal/app/polls.go and internal/store/poll_counters.go: the counter of a vote that is sent.
use go_signal.Base.{
  ℕ, Bool, true, false, Option, none, some, is_some, List, [], ◌∷◌, Bytes, Outcome, returns, fails,
  if◌then◌else◌, ◌≡◌, ◌∙◌, refl, sym, ap, subst, Option-cases, inl, inr,
}
use go_signal.Types.{chat_key, OutgoingPollVote}
use go_signal.Uuid.{UuidLib}
use go_signal.Policy.Targets.{Target, Result, ok, err, resolve_users, resolve_recipients}
use go_signal.Policy.Allowlist.{Allowlist}
use go_signal.Policy.Arguments.{parse_message_ref, parse_recipients}
use go_signal.Counters.{CounterRow, Reservation, reserve}
use go_signal.Counters.Own.{PollVoteCounterRequest, check_counter}
use go_signal.Request.Content.{invalid_poll}
use go_signal.Send.Content.{invalid_payload, Client, SendState, AppError, Content}
use go_signal.Send.Deliver.{Build, Sent, send_prepared}
use go_signal.Send.Delivery.{requests}
use go_signal.Send.Outcomes.{AfterSend, send_prepared-AfterSend}
use go_signal.Send.Refusals.{vote_build_sent}
use go_signal.Send.PollChecks.{
  PollVoteRequest, Voted, reserved, reservation_of, check_vote_args, poll_recipient,
}
use go_signal.Send.Polling.{vote_content, vote_build, vote_sent, poll_vote, reserve_vote}

-- The chat of a target, as the counter of a vote in it is kept.
abbrev pub vote_chat : Target → Bytes
vote_chat t = chat_key (record { group_id = t.group_id; recipient = t.recipient })

-- The row that a vote for a poll reserves.
abbrev pub vote_row : PollVoteRequest → Target → Bytes → ℕ → Reservation
vote_row req t author timestamp = record {
  chat = vote_chat t;
  author = author;
  timestamp = timestamp;
  explicit = req.vote_count;
}

abbrev pub vote_payload : PollVoteRequest → Voted → ℕ → OutgoingPollVote
vote_payload req v timestamp = record {
  target_author = v.author;
  target_timestamp = timestamp;
  option_indexes = req.option_indexes;
  vote_count = v.count;
}

-- What the build of a vote makes, when it succeeds: the vote's counter is reserved for its chat,
-- the author of the poll and its timestamp.
pub record Built (s : SendState) (req : PollVoteRequest) (timestamp : ℕ) (targets : List Target)
    (found : Result (List Target)) (prepared : SendState) (v : Voted) (msg : Content) : Type 0 where
  pub target : Target
  pub more : List Target
  pub one_target : targets ≡ target ∷ more
  pub author : Target
  pub others : List Target
  pub is_author : found ≡ ok (author ∷ others)
  pub tells_author : v.author ≡ author.recipient
  pub reserves :
      reserve s.counters (vote_row req target v.author.aci timestamp)
      ≡ (prepared.counters, some v.count)
  pub vote : msg.poll_vote ≡ some (vote_payload req v timestamp)

-- How a vote that is sent got its counter. Its request names the chat and the poll; the counter
-- is reserved for these, on the counters there were, it is in every request that the client is
-- given, and the reservation is kept.
pub record Counted ⦃u : UuidLib⦄ (client : Client) (s : SendState) (req : PollVoteRequest)
    (after : SendState) (out : Sent Voted) : Type 0 where
  pub destination : Bytes
  pub addressed : poll_recipient req.group_id req.recipient ≡ some destination
  pub poll_author : Target
  pub timestamp : ℕ
  pub poll_named : parse_message_ref req.target ≡ some (poll_author, timestamp)
  pub written : List Target
  pub destination_parses : parse_recipients (destination ∷ []) ≡ some written
  pub target : Target
  pub more : List Target
  pub resolves : resolve_recipients client.directory written ≡ ok (target ∷ more)
  pub author : Target
  pub others : List Target
  pub author_resolves : resolve_users client.directory (poll_author ∷ []) ≡ ok (author ∷ others)
  pub tells_author : out.built.author ≡ author.recipient
  pub reserves :
      reserve s.counters (vote_row req target out.built.author.aci timestamp)
      ≡ (after.counters, some out.built.count)
  pub msg : Content
  pub vote : msg.poll_vote ≡ some (vote_payload req out.built timestamp)
  pub requests_sent : after.sent ≡ requests msg out.result.timestamp (target ∷ more) s.sent

abbrev MaybeBuilt :
    SendState
    → PollVoteRequest
    → ℕ
    → List Target
    → Result (List Target)
    → SendState × Outcome AppError (Voted × Content)
    → Type 0
MaybeBuilt s req n targets found (prepared, returns (v, msg)) =
    Built s req n targets found prepared v msg
MaybeBuilt s req n targets found (prepared, fails e) = Unit

module _ ⦃u : UuidLib⦄ (client : Client) (allow : Option Allowlist) (now : ℕ) where
  abbrev MaybeCounted :
      SendState → PollVoteRequest → SendState × Outcome AppError (Sent Voted) → Type 0
  MaybeCounted s req (after, returns out) = Counted client s req after out
  MaybeCounted s req (after, fails e) = Unit

  -- The request for the counter of a vote.
  abbrev counter_for : PollVoteRequest → ℕ → Target → Target → PollVoteCounterRequest
  counter_for req timestamp t author = record {
    chat = record { group_id = t.group_id; recipient = t.recipient };
    author = author.recipient;
    timestamp = timestamp;
    explicit = req.vote_count;
  }

  module _ (s : SendState) (req : PollVoteRequest) (timestamp : ℕ) (t : Target) (ts : List Target)
      (author : Target) (rest : List Target) where
    abbrev Made : SendState × Outcome AppError (Voted × Content) → Type 0
    Made r = MaybeBuilt s req timestamp (t ∷ ts) (ok (author ∷ rest)) r

    reserved-Built :
        (r : List CounterRow × Option ℕ)
        → reserve s.counters (reservation_of (counter_for req timestamp t author)) ≡ r
        → Made (vote_content client allow now req timestamp author.recipient s (reserved r))
    unfolding vote_content reserved
    reserved-Built (rows, none) h = tt
    reserved-Built (rows, some n) h = record {
      target = t;
      more = ts;
      one_target = refl;
      author = author;
      others = rest;
      is_author = refl;
      tells_author = refl;
      reserves = h;
      vote = refl;
    }

    content-Built : Made (
        vote_content client allow now req timestamp author.recipient s
          (reserve_vote s.counters (counter_for req timestamp t author)))
    unfolding reserve_vote vote_content
    content-Built =
        let c = counter_for req timestamp t author in
        either (is_some (check_counter c)) (reserved (reserve s.counters (reservation_of c)))
          (reserved-Built (reserve s.counters (reservation_of c)) refl)
      where
        either :
            (b : Bool) (r : List CounterRow × Outcome AppError ℕ)
            → Made (vote_content client allow now req timestamp author.recipient s r)
            → Made (
                vote_content client allow now req timestamp author.recipient s
                  (if b then (s.counters, fails (invalid_payload invalid_poll)) else r))
        either true r h = tt
        either false r h = h

  build-Built :
      (req : PollVoteRequest) (timestamp : ℕ) (s : SendState) (targets : List Target)
      (found : Result (List Target))
      → MaybeBuilt s req timestamp targets found
          (vote_build client allow now req timestamp s targets found)
  unfolding vote_build
  build-Built req timestamp s (t ∷ ts) (ok (author ∷ rest)) =
      content-Built s req timestamp t ts author rest
  build-Built req timestamp s targets (err e) = tt
  build-Built req timestamp s _ _ = tt

  module _ (req : PollVoteRequest) (s : SendState) (destination : Bytes) (poll_author : Target)
      (timestamp : ℕ) (p : poll_recipient req.group_id req.recipient ≡ some destination)
      (q : parse_message_ref req.target ≡ some (poll_author, timestamp)) where
    abbrev found : Result (List Target)
    found = resolve_users client.directory (poll_author ∷ [])

    abbrev build : Build Voted
    build state targets = vote_build client allow now req timestamp state targets found

    quiet : (targets : List Target) → (build s targets).0.sent ≡ s.sent
    quiet targets = vote_build_sent client allow now req timestamp s targets found

    delivery-Counted :
        (r : SendState × Outcome AppError (Sent Voted))
        → AfterSend client allow now build s (destination ∷ []) r
        → MaybeCounted s req r
    delivery-Counted (after, fails e) d = tt
    delivery-Counted (after, returns out) d =
        let given = d.is_delivered in
        let b =
          subst (MaybeBuilt s req timestamp d.targets found) given.builds
            (build-Built req timestamp s d.targets found) in
        record {
          destination = destination;
          addressed = p;
          poll_author = poll_author;
          timestamp = timestamp;
          poll_named = q;
          written = d.parsed;
          destination_parses = d.args_parse;
          target = b.target;
          more = b.more;
          resolves = d.resolves ∙ ap ok b.one_target;
          author = b.author;
          others = b.others;
          author_resolves = b.is_author;
          tells_author = b.tells_author;
          reserves =
              b.reserves
              ∙ ap (λ (rows : List CounterRow). (rows, some out.built.count))
                  (sym given.counters_kept);
          msg = given.msg;
          vote = b.vote;
          requests_sent =
              given.requests_sent
              ∙ ap (λ ts. requests given.msg out.result.timestamp ts given.prepared.sent)
                  b.one_target
              ∙ ap (requests given.msg out.result.timestamp (b.target ∷ b.more))
                  (ap (λ x. x.0.sent) (sym given.builds) ∙ quiet d.targets);
        }

  sent-MaybeCounted :
      (req : PollVoteRequest) (s : SendState) (destination : Option Bytes) (t : Option (Target × ℕ))
      → poll_recipient req.group_id req.recipient ≡ destination
      → parse_message_ref req.target ≡ t
      → MaybeCounted s req (vote_sent client allow now req s destination t)
  unfolding vote_sent
  sent-MaybeCounted req s (some destination) (some (author, timestamp)) p q =
      delivery-Counted req s destination author timestamp p q
        (send_prepared client allow now (build req s destination author timestamp p q) s
          (destination ∷ []))
        (send_prepared-AfterSend client allow now (build req s destination author timestamp p q) s
          (quiet req s destination author timestamp p q) (destination ∷ []))
  sent-MaybeCounted req s _ _ p q = tt

  voted-MaybeCounted :
      (s : SendState) (req : PollVoteRequest)
      → MaybeCounted s req (poll_vote client allow now s req)
  unfolding poll_vote
  voted-MaybeCounted s req = elim (Option-cases (check_vote_args req)) [
    | inl h ↦ rw h (
        sent-MaybeCounted req s (poll_recipient req.group_id req.recipient)
          (parse_message_ref req.target) refl refl)
    | inr (e, h) ↦ rw h tt
  ]

  -- A vote that is sent carries, in every request, the counter that one reservation gave it, on the
  -- counters there were: for the chat that its destination resolves to, the resolved author and the
  -- timestamp of the poll that it names, with the counter that was asked for. The author that it
  -- reports is that one, and the counters after it are those that the reservation left.
  pub poll_vote-Counted :
      (s : SendState) (req : PollVoteRequest) (after : SendState) (out : Sent Voted)
      → poll_vote client allow now s req ≡ (after, returns out)
      → Counted client s req after out
  poll_vote-Counted s req after out h = subst (MaybeCounted s req) h (voted-MaybeCounted s req)
