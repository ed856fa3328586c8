-- ===== src/Request/Check.antt =====
-- internal/signal/send.go: the check of an outgoing request.
use go_signal.Base.{not, ◌&&◌, Option, none, some, is_empty, ◌==◌, eq_bool, if◌then◌else◌}
use go_signal.Uuid.{UuidLib}
use go_signal.Types.{SendRequest}
use go_signal.Request.Content.{
  SendError, invalid_send_request, invalid_content, invalid_style, has_poll, has_pin, has_content,
}
use go_signal.Request.PollCheck.{check_poll_request}
use go_signal.Request.PinCheck.{check_pin_request}
use go_signal.Request.StoryCheck.{check_story}
use go_signal.Request.MessageCheck.{check_edit, check_reaction, check_sticker}
use go_signal.Request.Styles.{check_text_styles}

module _ ⦃u : UuidLib⦄ where
  -- The part of SendRequest.Check behind the standalone kinds of content.
  unfoldable pub check_message : SendRequest → Option SendError
  unfolding check_edit check_reaction has_content
  check_message r = if not (r.edit_target == 0) then check_edit r else elim r.reaction [
    | some reaction ↦ check_reaction r reaction
    | none ↦ if not (r.delete_target == 0) && has_content r then some invalid_content else none
  ]

  unfoldable pub check_standalone : SendRequest → Option SendError
  unfolding has_pin has_poll check_pin_request check_poll_request check_sticker check_message
  check_standalone r =
      if has_pin r
      then check_pin_request r
      else if has_poll r
      then check_poll_request r
      else elim r.sticker [ some s ↦ check_sticker r s.reference | none ↦ check_message r ]

  -- SendRequest.Check
  unfoldable pub check : SendRequest → Option SendError
  unfolding check_story check_standalone
  check r = elim r.story [
    | some s ↦ check_story r s
    | none ↦
        if eq_bool (is_empty r.group_id) (is_empty r.recipients)
        then some invalid_send_request
        else if not (check_text_styles r.body r.styles)
        then some invalid_style
        else check_standalone r
  ]
