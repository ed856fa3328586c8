-- ===== src/Send/Prepare.antt =====
-- internal/app/send.go and sticker.go: the checks of a message before the client is connected. Files
-- are read by a parameter.
use go_signal.Base.{
  ℕ, Bool, true, not, ◌&&◌, ◌||◌, Option, none, some, is_some, List, [], Bytes, codes, is_empty,
  leb, ◌==◌, Outcome, returns, fails, if◌then◌else◌,
}
use go_signal.Std.Utf8.{is_blank}
use go_signal.Uuid.{UuidLib}
use go_signal.Types.{StickerReference}
use go_signal.Policy.Arguments.{check_recipients, parse_message_ref}
use go_signal.Request.MessageCheck.{check_sticker_reference}
use go_signal.Send.Content.{
  OutgoingAttachment, AppError, empty_message, invalid_arguments, no_recipients, no_attachment,
}

-- app.SendRequest
pub record MessageRequest : Type 0 where
  pub recipients : List Bytes
  pub body : Bytes
  pub styles : List Bytes
  pub attachments : List Bytes
  pub sticker : Option StickerReference
  pub attach_dir : Bytes
  pub quote : Bytes
  pub quote_text : Bytes
  pub edit_target : ℕ

-- App.checkEdit at the time `now`, nil or not
unfoldable pub check_edit : ℕ → MessageRequest → Bool
check_edit now req =
    req.edit_target == 0 || not (leb now req.edit_target) && not (is_blank req.body)

-- checkStickerRequest, nil or not
unfoldable pub check_sticker_request : MessageRequest → Bool
check_sticker_request req = checked req.sticker
  where
    checked : Option StickerReference → Bool
    checked none = true
    checked (some reference) =
        is_empty req.body
        && is_empty req.attachments
        && is_empty req.quote
        && is_empty req.quote_text
        && req.edit_target == 0
        && is_empty req.styles
        && not (is_some (check_sticker_reference reference))

module _ ⦃u : UuidLib⦄ where
  -- checkRequest after its test of the recipients: the quote, or no text for one.
  unfoldable pub check_quote : MessageRequest → Bool
  check_quote req =
      if not (is_empty req.quote)
      then is_some (parse_message_ref req.quote)
      else is_empty req.quote_text

  -- checkRequest; the joined errors are one.
  unfoldable pub check_request : MessageRequest → Option AppError
  unfolding check_quote
  check_request req =
      if is_empty req.recipients
      then some no_recipients
      else if check_recipients req.recipients && check_quote req
      then none
      else some invalid_arguments

  -- The request without a body of only white space.
  abbrev without_blank : MessageRequest → MessageRequest
  without_blank req = if is_blank req.body then record req { body = codes "" } else req

  -- loadAttachments on a directory and paths.
  abbrev pub Loader : Type 0
  Loader = Bytes → List Bytes → Option (List OutgoingAttachment)

  unfoldable pub after_request :
      MessageRequest
      → Option AppError
      → Outcome AppError (List OutgoingAttachment)
      → Outcome AppError (MessageRequest × List OutgoingAttachment)
  after_request req (some e) files = fails e
  after_request req none (fails e) = fails e
  after_request req none (returns files) = returns (req, files)

  abbrev read : Option (List OutgoingAttachment) → Outcome AppError (List OutgoingAttachment)
  read none = fails no_attachment
  read (some files) = returns files

  -- prepare
  unfoldable pub prepare :
      Loader → MessageRequest → Outcome AppError (MessageRequest × List OutgoingAttachment)
  unfolding after_request check_request
  prepare load req =
      if is_some req.sticker
      then after_request req (check_request req) (returns [])
      else if is_blank req.body && is_empty req.attachments
      then fails empty_message
      else after_request (without_blank req) (check_request (without_blank req))
          (read (load req.attach_dir req.attachments))
