-- ===== src/Types.antt =====
-- internal/signal/types.go, poll.go, pin.go, attachment.go, sticker.go: who a message comes from
-- and goes to, and the content of an outgoing message. A Go string is its bytes; a pointer that
-- may be nil is an option; a timestamp is a uint64 in milliseconds.
use go_signal.Base.{ℕ, Bool, not, Option, List, ◌++◌, Bytes, codes, is_empty, if◌then◌else◌}

pub record Recipient : Type 0 where
  pub aci : Bytes
  pub pni : Bytes
  pub number : Bytes
  pub username : Bytes

abbrev pub no_recipient : Recipient
no_recipient = record { aci = codes ""; pni = codes ""; number = codes ""; username = codes "" }

-- A recipient of whom only the ACI is known.
abbrev pub of_aci : Bytes → Recipient
of_aci aci = record { aci = aci; pni = codes ""; number = codes ""; username = codes "" }

-- Recipient.String
unfoldable pub to_string : Recipient → Bytes
to_string r =
    if not (is_empty r.aci)
    then r.aci
    else if not (is_empty r.pni)
    then codes "PNI:" ++ r.pni
    else if not (is_empty r.number)
    then r.number
    else if not (is_empty r.username)
    then codes "@" ++ r.username
    else codes ""

pub record Chat : Type 0 where
  pub group_id : Bytes
  pub recipient : Recipient

abbrev pub no_chat : Chat
no_chat = record { group_id = codes ""; recipient = no_recipient }

-- Chat.IsGroup
abbrev pub is_group : Chat → Bool
is_group c = not (is_empty c.group_id)

-- Chat.Key
unfoldable pub chat_key : Chat → Bytes
unfolding to_string
chat_key c = if is_group c then codes "group:" ++ c.group_id else to_string c.recipient

pub record RemoteAttachment : Type 0 where
  pub cdn_number : ℕ
  pub cdn_id : ℕ
  pub cdn_key : Bytes
  pub key : Bytes
  pub digest : Bytes

pub record Attachment : Type 0 where
  pub content_type : Bytes
  pub filename : Bytes
  pub size : ℕ
  pub caption : Bytes
  pub remote : RemoteAttachment

pub record Mention : Type 0 where
  pub start : ℕ
  pub length : ℕ
  pub recipient : Recipient

pub record Quote : Type 0 where
  pub author : Recipient
  pub timestamp : ℕ
  pub text : Bytes
  pub mentions : List Mention

pub record Poll : Type 0 where
  pub question : Bytes
  pub options : List Bytes
  pub allow_multiple : Bool

pub record OutgoingPollVote : Type 0 where
  pub target_author : Recipient
  pub target_timestamp : ℕ
  pub option_indexes : List ℕ
  pub vote_count : ℕ

pub record OutgoingPollClose : Type 0 where
  pub target_timestamp : ℕ

pub record OutgoingPin : Type 0 where
  pub target_author : Recipient
  pub target_timestamp : ℕ
  pub duration_seconds : ℕ
  pub forever : Bool

pub record OutgoingUnpin : Type 0 where
  pub target_author : Recipient
  pub target_timestamp : ℕ

pub record OutgoingReaction : Type 0 where
  pub emoji : Bytes
  pub remove : Bool
  pub target_author : Recipient
  pub target_timestamp : ℕ

pub record UploadedAttachment : Type 0 where
  pub id : Bytes
  pub content_type : Bytes
  pub filename : Bytes
  pub size : ℕ

pub record StickerReference : Type 0 where
  pub pack_id : Bytes
  pub pack_key : Bytes
  pub sticker_id : ℕ

pub record OutgoingSticker : Type 0 where
  pub reference : StickerReference
  pub emoji : Bytes
  pub image : UploadedAttachment

pub record OutgoingStory : Type 0 where
  pub distribution_list_id : Bytes
  pub text : Bytes
  pub file : Option UploadedAttachment
  pub allows_replies : Bool

-- The style of a TextStyle is a string that CheckTextStyles checks.
pub record TextStyle : Type 0 where
  pub start : ℕ
  pub length : ℕ
  pub style : Bytes

pub record SendRequest : Type 0 where
  pub recipients : List Recipient
  pub group_id : Bytes
  pub body : Bytes
  pub timestamp : ℕ
  pub edit_target : ℕ
  pub attachments : List UploadedAttachment
  pub sticker : Option OutgoingSticker
  pub story : Option OutgoingStory
  pub poll_create : Option Poll
  pub poll_vote : Option OutgoingPollVote
  pub poll_close : Option OutgoingPollClose
  pub pin : Option OutgoingPin
  pub unpin : Option OutgoingUnpin
  pub quote : Option Quote
  pub mentions : List Mention
  pub styles : List TextStyle
  pub reaction : Option OutgoingReaction
  pub delete_target : ℕ
