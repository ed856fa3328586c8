-- ===== src/Request/MessageCheck.antt =====
-- internal/signal/send.go, sticker.go: edits, reactions and stickers of an outgoing request.
use go_signal.Base.{
  ℕ, Bool, not, ◌&&◌, ◌||◌, Option, none, some, is_empty, any, all, ◌==◌, leb, is_some, length,
  if◌then◌else◌,
}
use go_signal.Std.Utf8.{is_blank}
use go_signal.Types.{OutgoingReaction, StickerReference, SendRequest}
use go_signal.Request.Content.{
  SendError, invalid_content, unresolvable, invalid_sticker, has_content,
}

-- SendRequest.checkEdit
unfoldable pub check_edit : SendRequest → Option SendError
check_edit r =
    if is_some r.reaction || not (r.delete_target == 0) || is_blank r.body
    then some invalid_content
    else if not (r.timestamp == 0) && leb r.timestamp r.edit_target
    then some invalid_content
    else none

-- SendRequest.checkReaction
unfoldable pub check_reaction : SendRequest → OutgoingReaction → Option SendError
unfolding has_content
check_reaction r reaction =
    if has_content r || not (r.delete_target == 0)
    then some invalid_content
    else if is_empty reaction.emoji
    then some invalid_content
    else if reaction.target_timestamp == 0
    then some invalid_content
    else if is_empty reaction.target_author.aci
    then some unresolvable
    else none

-- The letters that hex.DecodeString reads.
is_hex : ℕ → Bool
is_hex c = leb b'0' c && leb c b'9' || leb b'a' c && leb c b'f' || leb b'A' c && leb c b'F'

-- StickerReference.Check. A text with an upper case hex letter is not its own lower case.
unfoldable pub check_sticker_reference : StickerReference → Option SendError
unfolding is_hex
check_sticker_reference r =
    if not (length r.pack_id == 32)
      || not (length r.pack_key == 32)
      || any (λ c. leb b'A' c && leb c b'Z') r.pack_id
    then some invalid_sticker
    else if all is_hex r.pack_id
    then none
    else some invalid_sticker

-- SendRequest.checkSticker
unfoldable pub check_sticker : SendRequest → StickerReference → Option SendError
unfolding has_content check_sticker_reference
check_sticker r reference =
    if has_content r || is_some r.reaction || not (r.delete_target == 0) || not (r.edit_target == 0)
    then some invalid_sticker
    else check_sticker_reference reference
