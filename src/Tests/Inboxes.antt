-- ===== src/Tests/Inboxes.antt =====
-- Tests of the model of the inbox, and the theorems about it at concrete inputs.
use go_signal.Inbox.Table.{mark_read}
use go_signal.Inbox.Receipts.{send_all}
use go_signal.Base.{
  any, ◌&&◌, if◌then◌else◌, str_eq, ℕ, ◌+◌, ◌<◌, ◌≡◌, refl, Bool, true, false, none, some, All,
  List, [], ◌∷◌, codes, map, length, arith,
}
use go_signal.Events.{Event, message, queue_empty, connection, logged_out}
use go_signal.Inbox.Reading.{read_of, mark_entries_lem}
use go_signal.Inbox.Classify.{lost_connection, incoming_message}
use go_signal.Inbox.Marks.{unread, fresh, Kept, prune_lem}
use go_signal.Inbox.Order.{IsOrdered, add_fresh}
use go_signal.Inbox.Pages.{
  query_of, page, MessagesRequest, MessagesPage, page_of, parse_cursor, list,
}
use go_signal.Inbox.Paging.{IsPage, list_pages}
use go_signal.Inbox.Receipts.{
  Marked, add_pending, add_receipt, PendingReceipt, add_all, mark_entries,
}
use go_signal.Inbox.Receive.{
  prune_old, observe, store_event, receive, Inbox, Arrival, Turn, arrives, context_done,
  context_ended, Stored, run,
}
use go_signal.Inbox.Receiving.{RunsTo, run_stores}
use go_signal.Inbox.Table.{
  records, change, Row, Table, NewRecord, Change, adds, marks, prunes, add, prune, changes, chats,
}
use go_signal.Std.Decimal.{format, parse}
use go_signal.Types.{no_chat, of_aci}

abbrev row : ℕ → ℕ → Row ℕ
row n t = record {
  id = n;
  received_at = t;
  time = t;
  chat = codes "ann";
  sender = codes "ann";
  timestamp = t;
  unread = true;
  event = t;
}

-- Two rows of three that were added.
abbrev two : Table ℕ
two = record { rows = row 1 7 ∷ row 3 8 ∷ []; sequence = 3 }

two-IsOrdered : IsOrdered two
two-IsOrdered = record {
  ordered = (omega arith, (omega arith, tt));
  numbered = (omega arith, (omega arith, tt));
}

abbrev incoming : NewRecord ℕ
incoming = record {
  received_at = 9_000_000;
  time = 9_000_000;
  chat = codes "bob";
  sender = codes "bob";
  timestamp = 9;
  unread = true;
  event = 9;
}

abbrev three_changes : List (Change ℕ)
three_changes =
    adds incoming
    ∷ marks (record { sender = codes "ann"; timestamp = 7 } ∷ [])
    ∷ prunes 8_000_000 1
    ∷ []

changes_runs : changes two three_changes ≡ record {
  rows = record (row 4 9) { chat = codes "bob"; sender = codes "bob" } ∷ [];
  sequence = 4;
}
unfolding changes change str_eq
changes_runs = refl

add_fresh_example :
    ((add two incoming).1 < (add (changes (add two incoming).0 three_changes) incoming).1)
    × All
        (λ r. r.id < (add (changes (add two incoming).0 three_changes) incoming).1)
        (changes (add two incoming).0 three_changes).rows
add_fresh_example = add_fresh two incoming incoming three_changes two-IsOrdered

prune_lem_example :
    Kept 1 (fresh 0 two.rows) (prune two 0 1).0.rows
    × ((prune two 0 1).1 + length (prune two 0 1).0.rows ≡ length two.rows)
prune_lem_example = prune_lem two 0 1

chats_runs : chats two ≡ record { chat = codes "ann"; entries = 2; unread = 2; last = row 3 8 } ∷ []
unfolding chats str_eq
chats_runs = refl

-- One entry after the cursor 0.
abbrev one_entry : MessagesRequest
one_entry = record { chat = codes ""; cursor = codes "0"; since = 0; limit = 1 }

list_runs :
    list (some two) one_entry
    ≡ page_of (record { entries = row 1 7 ∷ []; cursor = codes "1"; more = true })
unfolding list parse_cursor parse page records query_of format
list_runs = refl

list_pages_example :
    (p : MessagesPage ℕ) × (list (some two) one_entry ≡ page_of p) × IsPage two one_entry 0 p
unfolding parse
list_pages_example =
    list_pages two one_entry 0 two-IsOrdered (omega arith) refl (unfold parse_cursor in refl)

abbrev from_ann : ℕ → Event
from_ann t = message (record {
  envelope = record {
    sender = of_aci (codes "ann");
    chat = no_chat;
    timestamp = t;
    server_timestamp = t;
    sync = false;
  };
  body = codes "hello";
  mentions = [];
  attachments = [];
  sticker = none;
  poll = none;
  quote = none;
  view_once = false;
  unsupported = [];
})

batch_runs :
    add_all [] (from_ann 7 ∷ queue_empty ∷ from_ann 8 ∷ from_ann 7 ∷ [])
    ≡ record { sender = of_aci (codes "ann"); timestamps = 7 ∷ 8 ∷ [] } ∷ []
unfolding add_all add_receipt incoming_message add_pending str_eq
batch_runs = refl

abbrev stored_row : ℕ → ℕ → Row Stored
stored_row n t = record {
  id = n;
  received_at = t;
  time = t;
  chat = codes "ann";
  sender = codes "ann";
  timestamp = t;
  unread = true;
  event = record { event = from_ann t; chat = no_chat };
}

abbrev stored_rows : List (Row Stored)
stored_rows = stored_row 1 7 ∷ stored_row 2 8 ∷ []

abbrev delivers_all : PendingReceipt → Bool
delivers_all p = true

-- Marking the rows' first entry as read, with a store that works.
abbrev marked_rows : Marked
marked_rows = mark_entries delivers_all false stored_rows (stored_row 1 7 ∷ [])

mark_entries_runs :
    (marked_rows.messages ≡ 1)
    × (marked_rows.senders ≡ 1)
    × ((mark_entries delivers_all true stored_rows (stored_row 1 7 ∷ [])).rows ≡ stored_rows)
unfolding mark_entries send_all add_all add_receipt incoming_message add_pending mark_read str_eq
mark_entries_runs = (refl, refl, refl)

mark_entries_lem_example :
    (marked_rows.rows ≡ (
      if false
      then stored_rows
      else map (read_of delivers_all (add_all [] (from_ann 7 ∷ []))) stored_rows))
    × (marked_rows.messages + unread marked_rows.rows ≡ unread stored_rows)
    × (marked_rows.mark_failed ≡ (false && any delivers_all (add_all [] (from_ann 7 ∷ []))))
    × (marked_rows.senders + length marked_rows.unsent ≡ length (add_all [] (from_ann 7 ∷ [])))
mark_entries_lem_example = mark_entries_lem delivers_all false stored_rows (stored_row 1 7 ∷ [])

abbrev empty_inbox : Inbox
empty_inbox = record {
  opts = record { max_age = 0; max_count = 1 };
  conn = record { state = none; since = 0; err = none; last_event = 0 };
  table = record { rows = []; sequence = 0 };
  changed = 0;
  added = [];
}

abbrev arrival : Event → Arrival
arrival evt = record {
  event = evt;
  now = 9;
  add_fails = false;
  mark_fails = false;
  prune_fails = false;
}

abbrev unlinked : Event
unlinked = connection (record { state = logged_out; err = none })

abbrev arrivals : List Turn
arrivals =
    arrives (arrival (from_ann 7))
    ∷ arrives (arrival queue_empty)
    ∷ arrives (arrival (from_ann 8))
    ∷ arrives (arrival unlinked)
    ∷ arrives (arrival (from_ann 9))
    ∷ []

empty_inbox-IsOrdered : IsOrdered empty_inbox.table
empty_inbox-IsOrdered = record { ordered = tt; numbered = tt }

run_added : (run empty_inbox 9 false arrivals).inbox.added ≡ 2 ∷ 1 ∷ []
unfolding run receive lost_connection store_event observe add prune_old prune
run_added = refl

-- The end of the context ends Run with an error.
run_ended :
    (run empty_inbox 9 false (arrives (arrival (from_ann 7)) ∷ context_done ∷ arrivals)).err
    ≡ some context_ended
unfolding run receive lost_connection store_event observe add prune_old prune
run_ended = refl

run_stores_example :
    RunsTo empty_inbox arrivals (run empty_inbox 9 false arrivals)
    × IsOrdered (run empty_inbox 9 false arrivals).inbox.table
run_stores_example = run_stores empty_inbox 9 false arrivals empty_inbox-IsOrdered

abbrev stored_table : Table Stored
stored_table = record { rows = stored_rows; sequence = 2 }

stored_table-IsOrdered : IsOrdered stored_table
stored_table-IsOrdered = record {
  ordered = (omega arith, (omega arith, tt));
  numbered = (omega arith, (omega arith, tt));
}
