-- ===== src/Inbox/Classify.antt =====
-- internal/app/inbox.go and receipts.go: what an event is to the inbox. A time.Time is the
-- nanoseconds since Go's zero time, so zero is IsZero, and a Signal timestamp counts milliseconds
-- since 1970.
use go_signal.Base.{
  ℕ, ◌+◌, ◌*◌, Bool, ◌||◌, ◌++◌, true, false, Option, none, some, is_some, codes, ◌==◌, ltb,
  is_empty, if◌then◌else◌,
}
use go_signal.Types.{Chat, no_chat}
use go_signal.Events.{
  Event, message, story, poll_vote, poll_close, pin, unpin, edit, delete, reaction, typing,
  unsupported, decryption_failure, identity_changed, connection, Envelope, Message, ConnectionState,
  ConnectionError, connected, disconnected, logged_out, error, failed,
}
use go_signal.Inbox.Table.{max_int64}

-- The Unix epoch, from Go's zero time.
abbrev pub epoch : ℕ
epoch = 62_135_596_800 * 1_000_000_000

-- incomingMessage
unfoldable pub incoming_message : Event → Option Message
incoming_message (message msg) =
    if msg.envelope.sync || is_empty msg.envelope.sender.aci || msg.envelope.timestamp == 0
    then none
    else some msg
incoming_message _ = none

-- isIncoming
abbrev pub is_incoming : Event → Bool
is_incoming evt = is_some (incoming_message evt)

-- envelopeOf
unfoldable pub envelope_of : Event → Option Envelope
envelope_of (story e) = some e.envelope
envelope_of (message e) = some e.envelope
envelope_of (poll_vote e) = some e.envelope
envelope_of (poll_close e) = some e.envelope
envelope_of (pin e) = some e.envelope
envelope_of (unpin e) = some e.envelope
envelope_of (edit e) = some e.envelope
envelope_of (delete e) = some e.envelope
envelope_of (reaction e) = some e.envelope
envelope_of (typing e) = some e.envelope
envelope_of (unsupported e) = some e.envelope
envelope_of _ = none

chat_of : Option Envelope → Chat
chat_of (some env) = env.chat
chat_of none = no_chat

-- eventChat
unfoldable pub event_chat : Event → Chat
unfolding envelope_of chat_of
event_chat (decryption_failure e) = record { group_id = codes ""; recipient = e.sender }
event_chat (identity_changed e) = record { group_id = codes ""; recipient = e.recipient }
event_chat evt = chat_of (envelope_of evt)

-- time.UnixMilli of a sender's timestamp, unless there is none that fits an int64.
sent_time : ℕ → ℕ → ℕ
sent_time sent received =
    if sent == 0 || ltb max_int64 sent then received else epoch + sent * 1_000_000

sent_of : Option Envelope → ℕ
sent_of (some env) = env.timestamp
sent_of none = 0

-- eventTime
unfoldable pub event_time : Event → ℕ → ℕ
unfolding envelope_of sent_time sent_of
event_time (decryption_failure e) received = sent_time e.timestamp received
event_time (identity_changed e) received = if e.time == 0 then received else e.time
event_time evt received = sent_time (sent_of (envelope_of evt)) received

-- ErrDeviceUnlinked and ErrConnectionFailed, and an error wrapped in the former.
abbrev pub device_unlinked : ConnectionError
device_unlinked = record {
  is_unlinked = true;
  is_failed = false;
  text = codes "this device was unlinked from the account";
}

abbrev pub connection_failed : ConnectionError
connection_failed = record {
  is_unlinked = false;
  is_failed = true;
  text = codes "connection to the Signal server failed";
}

unfoldable pub lost_by : ConnectionState → Option ConnectionError → Option ConnectionError
lost_by logged_out none = some device_unlinked
lost_by logged_out (some err) =
    if err.is_unlinked
    then some err
    else some (record {
      is_unlinked = true;
      is_failed = err.is_failed;
      text = device_unlinked.text ++ codes ": " ++ err.text;
    })
lost_by failed none = some connection_failed
lost_by failed (some err) = some err
lost_by connected err = none
lost_by disconnected err = none
lost_by error err = none

-- LostConnection
unfoldable pub lost_connection : Event → Option ConnectionError
unfolding lost_by
lost_connection (connection conn) = lost_by conn.state conn.err
lost_connection _ = none
