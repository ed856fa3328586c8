-- ===== src/Poll/Evidence.antt =====
-- internal/signal/poll_projection.go: the evidence of a poll in an event. fmt's %q is a parameter.
use go_signal.Base.{
  Bool, ℕ, ◌+◌, true, false, not, ◌||◌, Option, none, some, [], ◌++◌, Bytes, codes, any, replicate,
  ◌==◌, if◌then◌else◌, ◌≡◌, refl, subst, str_eq_refl, arith,
}
use go_signal.Std.Utf8.{valid_string}
use go_signal.Uuid.{UuidLib, is_aci}
use go_signal.Types.{Recipient, of_aci, no_recipient, Chat, is_group, Poll, OutgoingPollVote}
use go_signal.Events.{Envelope, Message, Event, message, poll_vote, poll_close, delete}
use go_signal.Counters.Own.{check_counter}
use go_signal.Poll.State.{PollReference, init}
use go_signal.Poll.Creation.{sort_indexes, max_received_poll_question}
use go_signal.Poll.Observe.{poll_control_matches}
use go_signal.Request.Content.{SendError, invalid_poll}

-- Chat with only the identities that evidence keeps.
unfoldable pub evidence_chat : Chat → Chat
evidence_chat c =
    if is_group c
    then record { group_id = c.group_id; recipient = no_recipient }
    else record { group_id = c.group_id; recipient = of_aci c.recipient.aci }

unfoldable pub normalized : Envelope → Envelope
unfolding evidence_chat
normalized e = record {
  sender = of_aci e.sender.aci;
  chat = evidence_chat e.chat;
  timestamp = e.timestamp;
  server_timestamp = 0;
  sync = e.sync;
}

-- The poll itself, or one that keeps being invalid and whose text is valid UTF-8.
unfoldable pub evidence_poll : (Poll → Bytes) → Poll → Poll
evidence_poll quoted p =
    if not (valid_string p.question) || any (λ o. not (valid_string o)) p.options
    then record p { question = replicate (max_received_poll_question + 1) b' ' ++ quoted p }
    else p

abbrev evidence_message : Envelope → Poll → Message
evidence_message e p = record {
  envelope = e;
  body = codes "";
  mentions = [];
  attachments = [];
  sticker = none;
  poll = some p;
  quote = none;
  view_once = false;
  unsupported = [];
}

abbrev evidence_vote : OutgoingPollVote → OutgoingPollVote
evidence_vote v = record v {
  target_author = of_aci v.target_author.aci;
  option_indexes = sort_indexes v.option_indexes;
}

unfoldable pub reference_of : Envelope → Recipient → ℕ → PollReference
unfolding evidence_chat
reference_of e author timestamp = record {
  chat = evidence_chat e.chat;
  author = of_aci author.aci;
  timestamp = timestamp;
}

abbrev unless_error : Option SendError → PollReference → Event → Option (PollReference × Event)
unless_error (some e) ref copy = none
unless_error none ref copy = some (ref, copy)

module _ ⦃u : UuidLib⦄ where
  -- PollReference.Check
  unfoldable pub check_reference : PollReference → Option SendError
  check_reference ref =
      check_counter
        (record { chat = ref.chat; author = ref.author; timestamp = ref.timestamp; explicit = 0 })

  abbrev if_checked : PollReference → Event → Option (PollReference × Event)
  if_checked ref copy = unless_error (check_reference ref) ref copy

  module _ (quoted : Poll → Bytes) where
    unfoldable pub message_evidence : Message → Option Poll → Option (PollReference × Event)
    message_evidence e none = none
    message_evidence e (some p) =
        if_checked (reference_of e.envelope e.sender e.timestamp)
          (message (evidence_message (normalized e.envelope) (evidence_poll quoted p)))

    -- PollEvidence
    unfoldable pub poll_evidence : Event → Option (PollReference × Event)
    unfolding message_evidence
    poll_evidence (message e) = message_evidence e e.poll
    poll_evidence (poll_vote e) =
        if_checked (reference_of e.envelope e.target_author e.target_timestamp)
          (poll_vote (record { envelope = normalized e.envelope; vote = evidence_vote e.vote }))
    poll_evidence (poll_close e) =
        if_checked (reference_of e.envelope e.sender e.target_timestamp)
          (poll_close (record { envelope = normalized e.envelope; close = e.close }))
    poll_evidence (delete e) = if_checked (reference_of e.envelope e.sender e.target_timestamp) (
        delete (record { envelope = normalized e.envelope; target_timestamp = e.target_timestamp }))
    poll_evidence _ = none

-- The evidence belongs to the chat of the poll, and is its creation or a control of it.
abbrev pub BelongsTo : PollReference → Event → Type 0
BelongsTo ref (message e) =
    (e.chat ≡ ref.chat) × (e.sender.aci ≡ ref.author.aci) × (e.timestamp ≡ ref.timestamp)
BelongsTo ref (poll_vote e) =
    (e.chat ≡ ref.chat) × (poll_control_matches (poll_vote e) (init ref) ≡ true)
BelongsTo ref (poll_close e) =
    (e.chat ≡ ref.chat) × (poll_control_matches (poll_close e) (init ref) ≡ true)
BelongsTo ref (delete e) = (e.chat ≡ ref.chat) × (poll_control_matches (delete e) (init ref) ≡ true)
BelongsTo ref _ = ⊥

-- The copy is of the event's kind, and keeps its sender's ACI and its timestamp.
abbrev pub CopyOf : Event → Event → Type 0
CopyOf (message e) (message c) = (c.sender.aci ≡ e.sender.aci) × (c.timestamp ≡ e.timestamp)
CopyOf (poll_vote e) (poll_vote c) =
    (c.envelope.sender.aci ≡ e.envelope.sender.aci)
    × (c.envelope.timestamp ≡ e.envelope.timestamp)
    × (c.vote.vote_count ≡ e.vote.vote_count)
CopyOf (poll_close e) (poll_close c) =
    (c.envelope.sender.aci ≡ e.envelope.sender.aci) × (c.envelope.timestamp ≡ e.envelope.timestamp)
CopyOf (delete e) (delete c) =
    (c.envelope.sender.aci ≡ e.envelope.sender.aci) × (c.envelope.timestamp ≡ e.envelope.timestamp)
CopyOf _ _ = ⊥

module _ ⦃u : UuidLib⦄ (quoted : Poll → Bytes) where
  -- What passes the check has a canonical ACI as its author.
  author-is_aci : (ref : PollReference) → check_reference ref ≡ none → is_aci ref.author.aci ≡ true
  unfolding check_reference check_counter
  author-is_aci ref h = by_test (is_aci ref.author.aci) _ h
    where
      by_test :
          (b : Bool) (e : Option SendError)
          → (if not b then some invalid_poll else e) ≡ none
          → b ≡ true
      by_test true e k = refl
      by_test false e k = cc

  checked_evidence :
      (evt : Event) (r ref : PollReference) (c copy : Event)
      → if_checked r c ≡ some (ref, copy)
      → BelongsTo r c
      → CopyOf evt c
      → BelongsTo ref copy
        × CopyOf evt copy
        × (check_reference ref ≡ none)
        × (is_aci ref.author.aci ≡ true)
  checked_evidence evt r ref c copy h b from = by_test (check_reference r) refl h
    where
      by_test :
          (o : Option SendError)
          → check_reference r ≡ o
          → unless_error o r c ≡ some (ref, copy)
          → BelongsTo ref copy
            × CopyOf evt copy
            × (check_reference ref ≡ none)
            × (is_aci ref.author.aci ≡ true)
      by_test (some e) k q = cc
      by_test none k q =
          let same : r ≡ ref = cc in
          let same' : c ≡ copy = cc in
          let valid = subst (λ x. check_reference x ≡ none) same k in
          (
            subst (λ x. BelongsTo x copy) same (subst (λ y. BelongsTo r y) same' b),
            subst (CopyOf evt) same' from,
            valid,
            author-is_aci ref valid,
          )

  same_number : (n : ℕ) → (n == n) ≡ true
  same_number n = ground arith

  -- The evidence that an event gives of a poll names the poll canonically, and belongs to it: its
  -- creation comes from its author at its timestamp, and a vote, a closure or a deletion is a
  -- control of it, all in its chat. The reference passes its check, and its author's ACI is
  -- canonical; the evidence is of the event's kind, and keeps its sender's ACI and its timestamp.
  pub poll_evidence-BelongsTo :
      (e : Event) (ref : PollReference) (copy : Event)
      → poll_evidence quoted e ≡ some (ref, copy)
      → BelongsTo ref copy
        × CopyOf e copy
        × (check_reference ref ≡ none)
        × (is_aci ref.author.aci ≡ true)
  unfolding poll_evidence message_evidence reference_of normalized poll_control_matches init
  poll_evidence-BelongsTo (message e) ref copy h = by_poll e.poll h
    where
      by_poll :
          (o : Option Poll)
          → message_evidence quoted e o ≡ some (ref, copy)
          → BelongsTo ref copy
            × CopyOf (message e) copy
            × (check_reference ref ≡ none)
            × (is_aci ref.author.aci ≡ true)
      by_poll none k = cc
      by_poll (some p) k =
          checked_evidence (message e) _ ref _ copy k (refl, refl, refl) (refl, refl)
  poll_evidence-BelongsTo (poll_vote e) ref copy h =
      checked_evidence (poll_vote e) _ ref _ copy h
        (refl, rw (same_number e.target_timestamp, str_eq_refl e.target_author.aci) refl)
        (refl, refl, refl)
  poll_evidence-BelongsTo (poll_close e) ref copy h =
      checked_evidence (poll_close e) _ ref _ copy h (refl, same_number e.target_timestamp)
        (refl, refl)
  poll_evidence-BelongsTo (delete e) ref copy h =
      checked_evidence (delete e) _ ref _ copy h
        (refl, rw (same_number e.target_timestamp, str_eq_refl e.sender.aci) refl) (refl, refl)
  poll_evidence-BelongsTo _ ref copy h = cc
