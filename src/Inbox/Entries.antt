-- ===== src/Inbox/Entries.antt =====
-- internal/app/inbox.go: which entries MarkRead selects, and Message. A client whose InboxList fails
-- is `none`.
use go_signal.Base.{
  ℕ, ◌-◌, true, false, Option, none, some, List, [], ◌∷◌, Bytes, codes, ◌==◌, is_empty,
  if◌then◌else◌,
}
use go_signal.Events.{Event, message, Message}
use go_signal.Inbox.Table.{Row, Table, InboxFilter, records}
use go_signal.Inbox.Receive.{Stored}
use go_signal.Inbox.Pages.{parse_cursor}

-- MarkReadRequest
pub record MarkReadRequest : Type 0 where
  pub chat : Bytes
  pub cursor : Bytes

pub data EntriesResult (E : Type 0) : Type 0 where
  entries_of : List (Row E) → EntriesResult E
  bad_cursor unreadable : EntriesResult E

-- The query of markReadEntries.
abbrev pub unread_query : Bytes → ℕ → InboxFilter
unread_query chat until = record {
  after = 0;
  until = until;
  chat = chat;
  since = 0;
  unread = true;
  limit = 0;
  newest = false;
}

-- The query of Message.
abbrev pub entry_query : ℕ → InboxFilter
entry_query id = record {
  after = id - 1;
  until = id;
  chat = codes "";
  since = 0;
  unread = false;
  limit = 0;
  newest = false;
}

module _ {E : Type 0} where
  unfoldable pub unread_entries : Option (Table E) → MarkReadRequest → ℕ → EntriesResult E
  unread_entries none req until = unreadable
  unread_entries (some t) req until = entries_of (records t (unread_query req.chat until))

  unfoldable pub until_entries : Option (Table E) → MarkReadRequest → Option ℕ → EntriesResult E
  unfolding unread_entries
  until_entries client req none = bad_cursor
  until_entries client req (some until) =
      if is_empty req.cursor
      then unread_entries client req until
      else if until == 0
      then entries_of []
      else unread_entries client req until

  -- Inbox.markReadEntries
  unfoldable pub mark_read_entries : Option (Table E) → MarkReadRequest → EntriesResult E
  unfolding until_entries
  mark_read_entries client req = until_entries client req (parse_cursor req.cursor)

-- What Message returns; `unknown_entry` is ErrUnknownEntry, `not_a_message` ErrNotAMessage.
pub data MessageResult : Type 0 where
  message_of : Message → MessageResult
  unknown_entry not_a_message unlisted : MessageResult

unfoldable pub as_message : Event → MessageResult
as_message (message msg) = message_of msg
as_message _ = not_a_message

unfoldable pub first_message : List (Row Stored) → MessageResult
unfolding as_message
first_message [] = unknown_entry
first_message (r ∷ rs) = as_message r.event.event

unfoldable pub found_message : Option (Table Stored) → ℕ → MessageResult
unfolding first_message
found_message none id = unlisted
found_message (some t) id = first_message (records t (entry_query id))

unfoldable pub message_at : Option (Table Stored) → Option ℕ → MessageResult
unfolding found_message
message_at client none = unknown_entry
message_at client (some id) = if id == 0 then unknown_entry else found_message client id

-- Inbox.Message
unfoldable pub find_message : Option (Table Stored) → Bytes → MessageResult
unfolding message_at
find_message client entry_id = message_at client (parse_cursor entry_id)
