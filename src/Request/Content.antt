-- ===== src/Request/Content.antt =====
-- internal/signal/send.go, poll_check.go, pin_check.go: the kinds of content of an outgoing request.
-- A check returns its error, `none` for nil.
use go_signal.Base.{
  ℕ, Bool, false, not, ◌&&◌, ◌||◌, none, some, Bytes, is_empty, ◌==◌, str_eq, is_some, length,
}
use go_signal.Std.Base64.{encode, decode}
use go_signal.Types.{SendRequest}

pub data SendError : Type 0 where
  invalid_send_request invalid_content unresolvable : SendError
  invalid_poll invalid_pin invalid_style invalid_sticker invalid_story : SendError

-- SendRequest.hasPoll, hasPin, hasContent, pollHasContent
unfoldable pub has_poll : SendRequest → Bool
has_poll r = is_some r.poll_create || is_some r.poll_vote || is_some r.poll_close

unfoldable pub has_pin : SendRequest → Bool
has_pin r = is_some r.pin || is_some r.unpin

unfoldable pub has_content : SendRequest → Bool
has_content r =
    not (is_empty r.body)
    || not (is_empty r.attachments)
    || is_some r.quote
    || not (is_empty r.mentions)
    || not (is_empty r.styles)

unfoldable pub poll_has_content : SendRequest → Bool
unfolding has_content
poll_has_content r =
    has_content r
    || is_some r.sticker
    || is_some r.reaction
    || not (r.delete_target == 0)
    || not (r.edit_target == 0)

abbrev group_id_size : ℕ
group_id_size = 32

-- validPollGroup; storyAudience has the same test.
unfoldable pub valid_poll_group : Bytes → Bool
valid_poll_group group_id = elim (decode group_id) [
  | none ↦ false
  | some raw ↦ length raw == group_id_size && str_eq (encode raw) group_id
]
