-- ===== src/Inbox/Receive.antt =====
-- internal/app/inbox.go: Run, store, observe and prune, and of internal/signal/meow_inbox.go what
-- InboxAdd writes. The table holds an event and its chat in place of their encoding. Whether the
-- client's calls fail is part of each event's circumstances, and a call that fails changes nothing
-- (InboxAdd fails also when the poll of the event cannot be learnt); what is learnt of polls is no
-- part of the model. The clock stands still while one event is taken.
use go_signal.Base.{
  ℕ, ◌+◌, ◌-◌, Bool, ◌&&◌, ◌||◌, Option, none, some, List, [], ◌∷◌, Bytes, codes, ◌==◌,
  if◌then◌else◌, map,
}
use go_signal.Types.{Chat, chat_key}
use go_signal.Events.{
  Event, message, typing, receipt, read_sync, queue_empty, connection, ReadMark, ConnectionState,
  ConnectionError,
}
use go_signal.Inbox.Table.{Table, NewRecord, InboxMark, add, mark_read, prune}
use go_signal.Inbox.Classify.{is_incoming, event_chat, event_time, lost_connection}

-- The encoded event: the event and its chat.
pub record Stored : Type 0 where
  pub event : Event
  pub chat : Chat

-- InboxOptions
pub record InboxOptions : Type 0 where
  pub max_age : ℕ
  pub max_count : ℕ

-- ConnectionStatus; a state of zero is `none`.
pub record ConnectionStatus : Type 0 where
  pub state : Option ConnectionState
  pub since : ℕ
  pub err : Option ConnectionError
  pub last_event : ℕ

-- Inbox with its store. `changed` counts how often the channel was closed and replaced, and
-- `added` holds the IDs that InboxOptions.Added was called with, the newest first.
pub record Inbox : Type 0 where
  pub opts : InboxOptions
  pub conn : ConnectionStatus
  pub table : Table Stored
  pub changed : ℕ
  pub added : List ℕ

-- An event that Run takes, the time it is and the calls that fail.
pub record Arrival : Type 0 where
  pub event : Event
  pub now : ℕ
  pub add_fails : Bool
  pub mark_fails : Bool
  pub prune_fails : Bool

pub data RunError : Type 0 where
  lost : ConnectionError → RunError
  not_stored : RunError
  -- The error of the context.
  context_ended : RunError

-- What the select of Run's loop takes: an event, or that the context is done. A list of turns ends
-- with the channel of events closed.
pub data Turn : Type 0 where
  arrives : Arrival → Turn
  context_done : Turn

-- observe
unfoldable pub observe : Inbox → ℕ → Event → Inbox
observe i now (connection conn) = record i {
  conn = record { state = some conn.state; since = now; err = conn.err; last_event = now };
}
observe i now _ = record i { conn = record (i.conn) { last_event = now } }

-- Inbox.prune
unfoldable pub prune_old : Inbox → ℕ → Bool → Inbox
prune_old i now fails =
    if i.opts.max_age == 0 && i.opts.max_count == 0 || fails then i else record i {
      table =
          (prune i.table (if i.opts.max_age == 0 then 0 else now - i.opts.max_age)
            i.opts.max_count).0;
    }

sender_of : Event → Bytes
sender_of (message msg) = msg.envelope.sender.aci
sender_of _ = codes ""

timestamp_of : Event → ℕ
timestamp_of (message msg) = msg.envelope.timestamp
timestamp_of _ = 0

-- The record that store and InboxAdd make of an event.
unfoldable pub record_of : Event → ℕ → NewRecord Stored
unfolding sender_of timestamp_of
record_of evt now = record {
  received_at = now;
  time = event_time evt now;
  chat = chat_key (event_chat evt);
  sender = sender_of evt;
  timestamp = timestamp_of evt;
  unread = is_incoming evt;
  event = record { event = evt; chat = event_chat evt };
}

-- InboxMarkRead's marks.
abbrev pub store_mark : ReadMark → InboxMark
store_mark m = record { sender = m.sender.aci; timestamp = m.timestamp }

unfoldable pub store_event : Inbox → Arrival → Event → Inbox × Option RunError
store_event i a (read_sync sync) = if a.mark_fails then (i, none) else (
  record i {
    table = record (i.table) { rows = (mark_read i.table.rows (map store_mark sync.messages)).0 };
  },
  none,
)
store_event i a (typing _) = (i, none)
store_event i a (receipt _) = (i, none)
store_event i a (connection _) = (i, none)
store_event i a queue_empty = (i, none)
store_event i a evt =
    if a.add_fails
    then (i, some not_stored)
    else let stored = add i.table (record_of evt a.now) in
      let kept = prune_old (record i { table = stored.0 }) a.now a.prune_fails in
      (record kept { changed = kept.changed + 1; added = stored.1 ∷ kept.added }, none)

-- Inbox.store
abbrev pub store : Inbox → Arrival → Inbox × Option RunError
store i a = store_event i a a.event

unfoldable pub checked :
    Inbox × Option RunError → Option ConnectionError → Inbox → Inbox × Option RunError
checked stored none i = stored
checked stored (some err) i = (i, some (lost err))

-- One turn of Run's loop with an event.
unfoldable pub receive : Inbox → Arrival → Inbox × Option RunError
unfolding checked
receive i a =
    let seen = observe i a.now a.event in checked (store seen a) (lost_connection a.event) seen

-- What Run leaves: the inbox, its error, and the events it did not take.
pub record Ran : Type 0 where
  pub inbox : Inbox
  pub err : Option RunError
  pub untaken : List Turn

unfoldable pub stop_or : Ran → Inbox × Option RunError → List Turn → Ran
stop_or rest (i, none) untaken = rest
stop_or rest (i, some err) untaken = record { inbox = i; err = some err; untaken = untaken }

unfoldable pub loop : Inbox → List Turn → Ran
unfolding stop_or
loop i [] = record { inbox = i; err = none; untaken = [] }
loop i (context_done ∷ turns) = record { inbox = i; err = some context_ended; untaken = turns }
loop i (arrives a ∷ turns) =
    let taken = receive i a in let rest = loop taken.0 turns in stop_or rest taken turns

-- Inbox.Run
unfoldable pub run : Inbox → ℕ → Bool → List Turn → Ran
unfolding loop
run i now prune_fails turns = loop (prune_old i now prune_fails) turns
