-- ===== src/Request/Kinds.antt =====
-- What a request that passes SendRequest.Check of internal/signal/send.go can hold.
use go_signal.Base.{
  ℕ, ◌+◌, ◌≤◌, ◌≡◌, ◌⊎◌, inl, inr, Bool, true, false, not, ◌||◌, none, is_some, ◌==◌, if◌then◌else◌,
  arith, Bool-cases, Option-cases,
}
use go_signal.Uuid.{UuidLib}
use go_signal.Types.{SendRequest, OutgoingStory, OutgoingSticker}
use go_signal.Request.Content.{has_poll, has_pin, has_content, poll_has_content}
use go_signal.Request.StoryCheck.{check_story, story_only}
use go_signal.Request.PollCheck.{check_poll_request}
use go_signal.Request.PinCheck.{check_pin_request}
use go_signal.Request.MessageCheck.{check_edit, check_reaction, check_sticker}
use go_signal.Request.Check.{check, check_standalone, check_message}

abbrev pub one_if : Bool → ℕ
one_if b = if b then 1 else 0

-- How many kinds of content the request has that stand alone, an edit among them.
abbrev pub kinds : SendRequest → ℕ
kinds r =
    one_if (is_some r.story)
    + one_if (is_some r.pin || is_some r.unpin)
    + one_if (is_some r.poll_create || is_some r.poll_vote || is_some r.poll_close)
    + one_if (is_some r.sticker)
    + one_if (is_some r.reaction)
    + one_if (not (r.delete_target == 0))
    + one_if (not (r.edit_target == 0))

-- At most one kind, and beside a kind other than an edit no text, files, quote, mentions or styles.
abbrev pub OneKind : SendRequest → Type 0
OneKind r =
    (kinds r ≤ 1) × ((has_content r ≡ false) ⊎ (kinds r ≡ one_if (not (r.edit_target == 0))))

module _ ⦃u : UuidLib⦄ where
  pin-OneKind :
      (r : SendRequest) → r.story ≡ none → has_pin r ≡ true → check_pin_request r ≡ none → OneKind r
  unfolding check_pin_request poll_has_content has_poll has_pin
  pin-OneKind r s h e = ground (arith, s, h, e)

  poll-OneKind :
      (r : SendRequest)
      → r.story ≡ none
      → has_pin r ≡ false
      → has_poll r ≡ true
      → check_poll_request r ≡ none
      → OneKind r
  unfolding check_poll_request poll_has_content has_poll has_pin
  poll-OneKind r s p h e = ground (arith, s, p, h, e)

  sticker-OneKind :
      (r : SendRequest) (sticker : OutgoingSticker)
      → r.story ≡ none
      → has_pin r ≡ false
      → has_poll r ≡ false
      → check_sticker r sticker.reference ≡ none
      → OneKind r
  unfolding check_sticker has_poll has_pin
  sticker-OneKind r sticker s p q e = ground (arith, s, p, q, e)

  message-OneKind :
      (r : SendRequest)
      → r.story ≡ none
      → has_pin r ≡ false
      → has_poll r ≡ false
      → r.sticker ≡ none
      → check_message r ≡ none
      → OneKind r
  unfolding check_message check_edit check_reaction has_poll has_pin
  message-OneKind r s p q t e = elim (Option-cases r.reaction) [
    | inl n ↦ ground (arith, s, p, q, t, n, e)
    | inr (reaction, n) ↦ ground (arith, s, p, q, t, n, e)
  ]

  story-OneKind : (r : SendRequest) (s : OutgoingStory) → check_story r s ≡ none → OneKind r
  unfolding check_story story_only has_poll has_pin
  story-OneKind r s e = ground (arith, e)

  standalone-OneKind : (r : SendRequest) → r.story ≡ none → check_standalone r ≡ none → OneKind r
  unfolding check_standalone
  standalone-OneKind r s e = elim (Bool-cases (has_pin r)) [
    | inl p ↦ pin-OneKind r s p (ground (arith, p, e))
    | inr p ↦ elim (Bool-cases (has_poll r)) [
      | inl q ↦ poll-OneKind r s p q (ground (arith, p, q, e))
      | inr q ↦ elim (Option-cases r.sticker) [
        | inl t ↦ message-OneKind r s p q t (ground (arith, p, q, t, e))
        | inr (sticker, t) ↦ sticker-OneKind r sticker s p q (ground (arith, p, q, t, e))
      ]
    ]
  ]

  -- A request that passes the check holds at most one of a story, a pin or unpin, a poll operation,
  -- a sticker, a reaction, a remote delete and an edit, and beside one other than an edit neither
  -- text nor attachments, quote, mentions or styles.
  pub check-OneKind : (r : SendRequest) → check r ≡ none → OneKind r
  unfolding check
  check-OneKind r e = elim (Option-cases r.story) [
    | inl s ↦ standalone-OneKind r s (ground (arith, s, e))
    | inr (story, s) ↦ story-OneKind r story (ground (arith, s, e))
  ]
