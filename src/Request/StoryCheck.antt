-- ===== src/Request/StoryCheck.antt =====
-- internal/signal/stories_send.go: stories of an outgoing request.
use go_signal.Base.{
  Bool, not, ◌&&◌, ◌||◌, Option, none, some, Bytes, codes, is_empty, all, ◌==◌, str_eq, is_some,
  length, take, if◌then◌else◌,
}
use go_signal.Std.Utf8.{is_blank}
use go_signal.Uuid.{UuidLib, is_canonical, is_aci}
use go_signal.Types.{Recipient, OutgoingStory, SendRequest}
use go_signal.Request.Content.{
  SendError, invalid_story, has_poll, has_pin, has_content, valid_poll_group,
}

abbrev has_prefix : Bytes → Bytes → Bool
has_prefix prefix s = str_eq (take (length prefix) s) prefix

-- StoryMediaType
story_media_type : Bytes → Bool
story_media_type t = has_prefix (codes "image/") t || has_prefix (codes "video/") t

-- OutgoingStory.check
check_story_content : OutgoingStory → Option SendError
unfolding story_media_type
check_story_content s = elim s.file [
  | none ↦ if is_blank s.text then some invalid_story else none
  | some file ↦
      if not (is_empty s.text) || is_empty file.id || not (story_media_type file.content_type)
      then some invalid_story
      else none
]

-- SendRequest.storyOnly
unfoldable pub story_only : SendRequest → Bool
unfolding has_content has_poll has_pin
story_only r =
    not (has_content r)
    && not (is_some r.sticker)
    && not (has_poll r)
    && not (has_pin r)
    && not (is_some r.reaction)
    && r.delete_target == 0
    && r.edit_target == 0

module _ ⦃u : UuidLib⦄ where
  -- storyRecipient
  story_recipient : Recipient → Bool
  story_recipient r = is_aci r.aci && is_empty r.pni

  -- SendRequest.storyAudience, privateStoryAudience
  unfoldable pub story_audience : SendRequest → OutgoingStory → Bool
  unfolding valid_poll_group story_recipient
  story_audience r s =
      if not (is_empty s.distribution_list_id)
      then is_canonical s.distribution_list_id
        && is_empty r.group_id
        && not (is_empty r.recipients)
        && all story_recipient r.recipients
      else valid_poll_group r.group_id && is_empty r.recipients

  -- SendRequest.checkStory
  unfoldable pub check_story : SendRequest → OutgoingStory → Option SendError
  unfolding story_audience story_only check_story_content
  check_story r s =
      if not (story_audience r s) || not (story_only r)
      then some invalid_story
      else check_story_content s
