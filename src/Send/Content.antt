-- ===== src/Send/Content.antt =====
-- internal/app/send.go and content.go: the client of a send, the content of a message, and the
-- results for its targets.
use go_signal.Base.{
  ℕ, suc, Bool, true, false, not, ◌&&◌, Option, none, some, is_some, List, [], ◌∷◌, Bytes, codes,
  ◌==◌, if◌then◌else◌,
}
use go_signal.Types.{
  Recipient, UploadedAttachment, StickerReference, OutgoingSticker, Poll, OutgoingPollVote,
  OutgoingPollClose, OutgoingPin, OutgoingUnpin, Quote, Mention, TextStyle, OutgoingReaction,
  SendRequest,
}
use go_signal.Policy.Targets.{Target, Directory, ResolveError}
use go_signal.Groups.State.{Group}
use go_signal.Counters.{CounterRow}
use go_signal.Request.Content.{SendError}

-- An error of sending to one recipient: ErrDeviceUnlinked, errNoResult or another.
pub data TargetError : Type 0 where
  device_unlinked no_result other_error : TargetError

-- signal.RecipientResult
pub record RecipientResult : Type 0 where
  pub recipient : Recipient
  pub unidentified : Bool
  pub error : Option TargetError

-- What the client's Send returns.
pub data SendReply : Type 0 where
  rejected : TargetError → SendReply
  answered : List RecipientResult → SendReply

-- What the client's Connect returns: nil, ErrAlreadyConnected, another error.
pub data ConnectReply : Type 0 where
  connected already_connected no_connection : ConnectReply

-- signal.OutgoingAttachment and signal.StickerData
pub record OutgoingAttachment : Type 0 where
  pub bytes : Bytes
  pub content_type : Bytes
  pub filename : Bytes
  pub width : ℕ
  pub height : ℕ

pub record StickerData : Type 0 where
  pub emoji : Bytes
  pub image : OutgoingAttachment

-- The client: Send may answer by what it was given before; ReservePollVote is Counters.reserve
-- on the client's own table.
pub record Client : Type 0 where
  pub connect : ConnectReply
  pub directory : Directory
  pub group : Bytes → Option Group
  pub send : List SendRequest → SendRequest → SendReply
  pub upload : List OutgoingAttachment → Option (List UploadedAttachment)
  pub fetch_sticker : StickerReference → Option StickerData
  pub send_receipt : Recipient → List ℕ → Option TargetError

-- A viewed receipt that the client was given.
pub record ViewedReceipt : Type 0 where
  pub sender : Recipient
  pub timestamps : List ℕ

-- The App's lastTimestamp, and what has reached the client: the newest request is first.
pub record SendState : Type 0 where
  pub last_timestamp : ℕ
  pub sent : List SendRequest
  pub receipts : List ViewedReceipt
  pub counters : List CounterRow

-- Why an operation sends nothing.
pub data AppError : Type 0 where
  -- The arguments are refused, with the errors that errors.Join joins.
  empty_message invalid_edit invalid_styles invalid_arguments no_recipients : AppError
  invalid_sender invalid_receipt : AppError
  no_connect no_account no_group : AppError
  unresolved_target : ResolveError → AppError
  -- ErrRecipientNotAllowed and the targets that it names.
  not_allowed : List Bytes → AppError
  invalid_payload : SendError → AppError
  not_in_group no_group_permission : AppError
  exhausted_counter : AppError
  no_attachment no_upload no_sticker : AppError
  receipt_failed : TargetError → AppError

-- content
pub record Content : Type 0 where
  pub pin : Option OutgoingPin
  pub unpin : Option OutgoingUnpin
  pub poll_create : Option Poll
  pub poll_vote : Option OutgoingPollVote
  pub poll_close : Option OutgoingPollClose
  pub sticker : Option OutgoingSticker
  pub body : Bytes
  pub quote : Option Quote
  pub mentions : List Mention
  pub styles : List TextStyle
  pub attachments : List UploadedAttachment
  pub reaction : Option OutgoingReaction
  pub delete_target : ℕ
  pub edit_target : ℕ

abbrev pub no_content : Content
no_content = record {
  pin = none;
  unpin = none;
  poll_create = none;
  poll_vote = none;
  poll_close = none;
  sticker = none;
  body = codes "";
  quote = none;
  mentions = [];
  styles = [];
  attachments = [];
  reaction = none;
  delete_target = 0;
  edit_target = 0;
}

-- content.request
unfoldable pub content_request : Content → ℕ → SendRequest
content_request msg timestamp = record {
  recipients = [];
  group_id = codes "";
  body = msg.body;
  timestamp = timestamp;
  edit_target = msg.edit_target;
  attachments = msg.attachments;
  sticker = msg.sticker;
  story = none;
  poll_create = msg.poll_create;
  poll_vote = msg.poll_vote;
  poll_close = msg.poll_close;
  pin = msg.pin;
  unpin = msg.unpin;
  quote = msg.quote;
  mentions = msg.mentions;
  styles = msg.styles;
  reaction = msg.reaction;
  delete_target = msg.delete_target;
}

-- TargetResult
pub record TargetResult : Type 0 where
  pub target : Target
  pub unidentified : Bool
  pub members : List RecipientResult
  pub error : Option TargetError

-- SendResult
pub record SendResult : Type 0 where
  pub timestamp : ℕ
  pub results : List TargetResult

-- TargetResult.FailedMembers
unfoldable pub failed_members : List RecipientResult → ℕ
failed_members [] = 0
failed_members (m ∷ ms) = let rest = failed_members ms in if is_some m.error then suc rest else rest

-- TargetResult.OK
unfoldable pub target_ok : TargetResult → Bool
unfolding failed_members
target_ok r = not (is_some r.error) && failed_members r.members == 0

-- SendResult.Failed
unfoldable pub failed : List TargetResult → ℕ
unfolding target_ok
failed [] = 0
failed (r ∷ rs) = let rest = failed rs in if target_ok r then rest else suc rest

-- ErrSendFailed with its counts, and whether it also wraps ErrDeviceUnlinked.
pub record SendFailure : Type 0 where
  pub failed_targets : ℕ
  pub all_targets : ℕ
  pub unlinked : Bool

abbrev pub is_unlinked : Option TargetError → Bool
is_unlinked (some device_unlinked) = true
is_unlinked _ = false
