-- ===== src/Send/Refusals.antt =====
-- internal/app/send.go, react.go, pins.go and polls.go: an operation that fails sends nothing.
use go_signal.Base.{
  ◌∙◌, ℕ, Bool, true, false, not, Option, none, some, List, [], ◌∷◌, Bytes, Outcome, returns, fails,
  if◌then◌else◌, ◌≡◌, refl, Option-cases, inl, inr, ◌&&◌, ◌==◌,
}
use go_signal.Std.Strings.{trim_space}
use go_signal.Uuid.{UuidLib}
use go_signal.Types.{Recipient}
use go_signal.Policy.Targets.{Target, Result, ok, err, resolve_users}
use go_signal.Policy.Allowlist.{Allowlist}
use go_signal.Policy.Arguments.{check_recipients, parse_message_ref}
use go_signal.Counters.{CounterRow}
use go_signal.Send.Content.{Client, OutgoingAttachment, SendState, AppError, Content}
use go_signal.Send.Deliver.{Build, Sent, send_prepared}
use go_signal.Send.Results.{told, send_error-told}
use go_signal.Send.Outcomes.{AfterSend, send_prepared-AfterSend}
use go_signal.Send.Prepare.{MessageRequest, Loader, prepare, check_sticker_request, check_edit}
use go_signal.Send.Message.{send_prepared_message, send_styled, send, pure_build, build_content}
use go_signal.Send.StyleArguments.{parse_styles}
use go_signal.Send.Emoji.{CharTables, check_emoji, ReactRequest, react_to, react, delete}
use go_signal.Send.Pinning.{
  PinRequest, UnpinRequest, pin_message, unpin_message, pin, unpin, check_pin_args,
  check_unpin_args,
}
use go_signal.Send.PollChecks.{
  PollCreateRequest, PollVoteRequest, PollCloseRequest, check_create_args, check_close_args,
  check_vote_args, poll_recipient,
}
use go_signal.Send.Polling.{
  own_poll, poll_create, poll_close, vote_content, vote_build, vote_sent, poll_vote, reserve_vote,
}

-- What was sent stays if the operation stops with an error, and else the failure that it returns is
-- the one that its results tell.
abbrev pub SentKept : {A : Type 0} → SendState → SendState × Outcome AppError (Sent A) → Type 0
SentKept s (after, returns out) = out.failure ≡ told out.result.results
SentKept s (after, fails e) = after.sent ≡ s.sent

module _ ⦃u : UuidLib⦄ (client : Client) (allow : Option Allowlist) (now : ℕ) where
  abbrev Step : Type 0 → Type 0
  Step A = SendState × Outcome AppError (Sent A)

  weaken :
      {A : Type 0} (build : Build A) (s : SendState) (args : List Bytes) (r : Step A)
      → AfterSend client allow now build s args r
      → SentKept s r
  weaken build s args (after, returns out) d =
      d.is_delivered.failure_told ∙ send_error-told out.result.results
  weaken build s args (after, fails e) d = d

  send_prepared-SentKept :
      {A : Type 0} (build : Build A) (s : SendState) (args : List Bytes)
      → ((targets : List Target) → (build s targets).0.sent ≡ s.sent)
      → SentKept s (send_prepared client allow now build s args)
  send_prepared-SentKept build s args quiet =
      weaken build s args (send_prepared client allow now build s args)
        (send_prepared-AfterSend client allow now build s quiet args)

  kept_if :
      {A : Type 0} (b : Bool) (s : SendState) (p q : Step A)
      → SentKept s p
      → SentKept s q
      → SentKept s (if b then p else q)
  kept_if true s p q h k = h
  kept_if false s p q h k = k

  message-SentKept :
      (s : SendState) (styles : _) (r : Outcome AppError (MessageRequest × List OutgoingAttachment))
      → SentKept s (send_prepared_message client allow now styles s r)
  unfolding send_prepared_message
  message-SentKept s styles (fails e) = refl
  message-SentKept s styles (returns (req, files)) =
      send_prepared-SentKept (pure_build (build_content client req files styles)) s req.recipients
        (λ targets. refl)

  styled-SentKept :
      (load : Loader) (s : SendState) (req : MessageRequest) (styles : Option (List _))
      → SentKept s (send_styled client load allow now s req styles)
  unfolding send_styled
  styled-SentKept load s req none = refl
  styled-SentKept load s req (some styles) = message-SentKept s styles (prepare load req)

  send-SentKept :
      (load : Loader) (s : SendState) (req : MessageRequest)
      → SentKept s (send client load allow now s req)
  unfolding send
  send-SentKept load s req = kept_if (not (check_sticker_request req)) s _ _ refl (
      kept_if (not (check_edit now req)) s _ _ refl
        (styled-SentKept load s req (parse_styles req.body req.styles)))

  reaction-SentKept :
      (s : SendState) (req : ReactRequest) (t : Option (Target × ℕ))
      → SentKept s (react_to client allow now req s t)
  unfolding react_to
  reaction-SentKept s req none = refl
  reaction-SentKept s req (some (author, timestamp)) =
      send_prepared-SentKept _ s req.recipients (λ targets. refl)

  react-SentKept :
      ⦃tables : CharTables⦄ (s : SendState) (req : ReactRequest)
      → SentKept s (react client allow now s req)
  unfolding react
  react-SentKept s req =
      kept_if (check_recipients req.recipients && check_emoji (trim_space req.emoji)) s _ _
        (reaction-SentKept s req (parse_message_ref req.target)) refl

  delete-SentKept :
      (s : SendState) (args : List Bytes) (target : ℕ)
      → SentKept s (delete client allow now s args target)
  unfolding delete
  delete-SentKept s args target =
      kept_if (check_recipients args && not (target == 0)) s _ _
        (send_prepared-SentKept _ s args (λ targets. refl)) refl

  pin_message-SentKept :
      (s : SendState) (req : PinRequest) (t : Option (Target × ℕ))
      → SentKept s (pin_message client allow now req s t)
  unfolding pin_message
  pin_message-SentKept s req none = refl
  pin_message-SentKept s req (some (author, timestamp)) =
      send_prepared-SentKept _ s req.recipients (λ targets. refl)

  unpin_message-SentKept :
      (s : SendState) (req : UnpinRequest) (t : Option (Target × ℕ))
      → SentKept s (unpin_message client allow now req s t)
  unfolding unpin_message
  unpin_message-SentKept s req none = refl
  unpin_message-SentKept s req (some (author, timestamp)) =
      send_prepared-SentKept _ s req.recipients (λ targets. refl)

  -- The checks of the arguments come first.
  pin-SentKept : (s : SendState) (req : PinRequest) → SentKept s (pin client allow now s req)
  unfolding pin
  pin-SentKept s req = elim (Option-cases (check_pin_args req)) [
    | inl h ↦ rw h (pin_message-SentKept s req (parse_message_ref req.target))
    | inr (e, h) ↦ rw h refl
  ]

  unpin-SentKept : (s : SendState) (req : UnpinRequest) → SentKept s (unpin client allow now s req)
  unfolding unpin
  unpin-SentKept s req = elim (Option-cases (check_unpin_args req)) [
    | inl h ↦ rw h (unpin_message-SentKept s req (parse_message_ref req.target))
    | inr (e, h) ↦ rw h refl
  ]

  own_poll-SentKept :
      (msg : Content) (s : SendState) (destination : Option Bytes)
      → SentKept s (own_poll client allow now msg s destination)
  unfolding own_poll
  own_poll-SentKept msg s none = refl
  own_poll-SentKept msg s (some destination) =
      send_prepared-SentKept _ s (destination ∷ []) (λ targets. refl)

  poll_create-SentKept :
      (s : SendState) (req : PollCreateRequest) → SentKept s (poll_create client allow now s req)
  unfolding poll_create
  poll_create-SentKept s req = elim (Option-cases (check_create_args req)) [
    | inl h ↦ rw h (own_poll-SentKept _ s (poll_recipient req.group_id req.recipient))
    | inr (e, h) ↦ rw h refl
  ]

  poll_close-SentKept :
      (s : SendState) (req : PollCloseRequest) → SentKept s (poll_close client allow now s req)
  unfolding poll_close
  poll_close-SentKept s req = elim (Option-cases (check_close_args req)) [
    | inl h ↦ rw h (own_poll-SentKept _ s (poll_recipient req.group_id req.recipient))
    | inr (e, h) ↦ rw h refl
  ]

  vote_content_sent :
      (req : PollVoteRequest) (timestamp : ℕ) (author : Recipient) (s : SendState)
      (r : List CounterRow × Outcome AppError ℕ)
      → (vote_content client allow now req timestamp author s r).0.sent ≡ s.sent
  unfolding vote_content
  vote_content_sent req timestamp author s (rows, fails e) = refl
  vote_content_sent req timestamp author s (rows, returns n) = refl

  pub vote_build_sent :
      (req : PollVoteRequest) (timestamp : ℕ) (s : SendState) (targets : List Target)
      (found : Result (List Target))
      → (vote_build client allow now req timestamp s targets found).0.sent ≡ s.sent
  unfolding vote_build
  vote_build_sent req timestamp s (t ∷ ts) (ok (author ∷ rest)) =
      vote_content_sent req timestamp author.recipient s (reserve_vote s.counters _)
  vote_build_sent req timestamp s targets (err e) = refl
  vote_build_sent req timestamp s _ _ = refl

  vote-SentKept :
      (req : PollVoteRequest) (s : SendState) (destination : Option Bytes) (t : Option (Target × ℕ))
      → SentKept s (vote_sent client allow now req s destination t)
  unfolding vote_sent
  vote-SentKept req s (some destination) (some (author, timestamp)) =
      send_prepared-SentKept _ s (destination ∷ []) (λ targets.
        vote_build_sent req timestamp s targets (resolve_users client.directory (author ∷ [])))
  vote-SentKept req s _ _ = refl

  poll_vote-SentKept :
      (s : SendState) (req : PollVoteRequest) → SentKept s (poll_vote client allow now s req)
  unfolding poll_vote
  poll_vote-SentKept s req = elim (Option-cases (check_vote_args req)) [
    | inl h ↦ rw h (
        vote-SentKept req s (poll_recipient req.group_id req.recipient)
          (parse_message_ref req.target))
    | inr (e, h) ↦ rw h refl
  ]

  -- An operation of the App's (a message, a reaction, a deletion, a pin, an unpin, a new poll, its
  -- closure, a vote) either stops with an error and has given the client no request, or returns
  -- results, with the error that the send failed exactly if some target did not get the message:
  -- it or a member of it has an error. That error counts these targets, of all targets.
  pub operations-SentKept :
      ⦃tables : CharTables⦄ (load : Loader) (s : SendState)
      → ((req : MessageRequest) → SentKept s (send client load allow now s req))
        × ((req : ReactRequest) → SentKept s (react client allow now s req))
        × ((args : List Bytes) (target : ℕ) → SentKept s (delete client allow now s args target))
        × ((req : PinRequest) → SentKept s (pin client allow now s req))
        × ((req : UnpinRequest) → SentKept s (unpin client allow now s req))
        × ((req : PollCreateRequest) → SentKept s (poll_create client allow now s req))
        × ((req : PollCloseRequest) → SentKept s (poll_close client allow now s req))
        × ((req : PollVoteRequest) → SentKept s (poll_vote client allow now s req))
  operations-SentKept load s = (
    send-SentKept load s,
    react-SentKept s,
    delete-SentKept s,
    pin-SentKept s,
    unpin-SentKept s,
    poll_create-SentKept s,
    poll_close-SentKept s,
    poll_vote-SentKept s,
  )
