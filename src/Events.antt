-- ===== src/Events.antt =====
-- internal/signal/events.go, stories.go, identity.go: the closed sum of incoming events. A time is
-- in nanoseconds since Go's zero time, which is 0; a float32 is its bits; an error is its text.
use go_signal.Base.{ℕ, Bool, Option, List, Bytes}
use go_signal.Types.{
  Recipient, Chat, Attachment, Mention, Quote, Poll, OutgoingPollVote, OutgoingPollClose,
  OutgoingPin, OutgoingUnpin,
}

pub record Envelope : Type 0 where
  pub sender : Recipient
  pub chat : Chat
  pub timestamp : ℕ
  pub server_timestamp : ℕ
  pub sync : Bool

pub record Sticker : Type 0 where
  pub pack_id : Bytes
  pub pack_key : Bytes
  pub sticker_id : ℕ
  pub emoji : Bytes
  pub image : Option Attachment

pub record Message : Type 0 where
  pub envelope : Envelope
  pub open envelope use *
  pub body : Bytes
  pub mentions : List Mention
  pub attachments : List Attachment
  pub sticker : Option Sticker
  pub poll : Option Poll
  pub quote : Option Quote
  pub view_once : Bool
  pub unsupported : List Bytes

pub record StoryGradient : Type 0 where
  pub start_color : Option ℕ
  pub end_color : Option ℕ
  pub angle : Option ℕ
  pub colors : List ℕ
  pub positions : List ℕ

pub record StoryPreview : Type 0 where
  pub url : Bytes
  pub title : Bytes
  pub description : Bytes
  pub date : ℕ
  pub image : Option Attachment

pub record StoryText : Type 0 where
  pub text : Bytes
  pub style : Bytes
  pub foreground_color : Option ℕ
  pub text_background_color : Option ℕ
  pub background_color : Option ℕ
  pub gradient : Option StoryGradient
  pub preview : Option StoryPreview

pub record Story : Type 0 where
  pub envelope : Envelope
  pub open envelope use *
  pub allows_replies : Bool
  pub file : Option Attachment
  pub text : Option StoryText
  pub mentions : List Mention

pub record PollVote : Type 0 where
  pub envelope : Envelope
  pub open envelope use *
  pub vote : OutgoingPollVote
  pub open vote use *

pub record PollClose : Type 0 where
  pub envelope : Envelope
  pub open envelope use *
  pub close : OutgoingPollClose
  pub open close use *

pub record Pin : Type 0 where
  pub envelope : Envelope
  pub open envelope use *
  pub target : OutgoingPin
  pub open target use *

pub record Unpin : Type 0 where
  pub envelope : Envelope
  pub open envelope use *
  pub target : OutgoingUnpin
  pub open target use *

pub record Edit : Type 0 where
  pub envelope : Envelope
  pub open envelope use *
  pub target_timestamp : ℕ
  pub body : Bytes
  pub mentions : List Mention

pub record Delete : Type 0 where
  pub envelope : Envelope
  pub open envelope use *
  pub target_timestamp : ℕ

pub record Reaction : Type 0 where
  pub envelope : Envelope
  pub open envelope use *
  pub emoji : Bytes
  pub remove : Bool
  pub target_author : Recipient
  pub target_timestamp : ℕ

pub record Typing : Type 0 where
  pub envelope : Envelope
  pub open envelope use *
  pub started : Bool

pub data ReceiptType : Type 0 where
  delivery_receipt read_receipt viewed_receipt : ReceiptType

pub record Receipt : Type 0 where
  pub sender : Recipient
  pub receipt_type : ReceiptType
  pub timestamps : List ℕ

pub record ReadMark : Type 0 where
  pub sender : Recipient
  pub timestamp : ℕ

pub record ReadSync : Type 0 where
  pub timestamp : ℕ
  pub messages : List ReadMark

pub record Unsupported : Type 0 where
  pub envelope : Envelope
  pub open envelope use *
  pub type : Bytes

pub record DecryptionFailure : Type 0 where
  pub sender : Recipient
  pub timestamp : ℕ
  pub cause : Option Bytes

pub record IdentityChanged : Type 0 where
  pub recipient : Recipient
  pub old_fingerprint : Bytes
  pub new_fingerprint : Bytes
  pub time : ℕ

pub data ConnectionState : Type 0 where
  connected disconnected logged_out error failed : ConnectionState

-- An error of a connection, as errors.Is and Error see it: whether it wraps ErrDeviceUnlinked and
-- ErrConnectionFailed, and its text.
pub record ConnectionError : Type 0 where
  pub is_unlinked : Bool
  pub is_failed : Bool
  pub text : Bytes

pub record Connection : Type 0 where
  pub state : ConnectionState
  pub err : Option ConnectionError

pub data Event : Type 0 where
  message : Message → Event
  story : Story → Event
  poll_vote : PollVote → Event
  poll_close : PollClose → Event
  pin : Pin → Event
  unpin : Unpin → Event
  edit : Edit → Event
  delete : Delete → Event
  reaction : Reaction → Event
  typing : Typing → Event
  receipt : Receipt → Event
  read_sync : ReadSync → Event
  unsupported : Unsupported → Event
  decryption_failure : DecryptionFailure → Event
  identity_changed : IdentityChanged → Event
  queue_empty : Event
  connection : Connection → Event
