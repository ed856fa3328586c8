-- ===== src/Inbox/Receipts.antt =====
-- internal/app/receipts.go: ReadReceipts, and MarkRead of internal/app/inbox.go. Whether a receipt
-- reaches the server and whether the store fails are parameters.
use go_signal.Base.{
  ℕ, ◌+◌, Bool, true, false, Option, none, some, List, [], ◌∷◌, ◌++◌, ◌==◌, str_eq, any,
  if◌then◌else◌, map,
}
use go_signal.Types.{Recipient}
use go_signal.Events.{Event, Message, ReadMark}
use go_signal.Inbox.Table.{Row, InboxMark, mark_read}
use go_signal.Inbox.Classify.{incoming_message}
use go_signal.Inbox.Receive.{Stored, store_mark}

-- pendingReceipt
pub record PendingReceipt : Type 0 where
  pub sender : Recipient
  pub timestamps : List ℕ

abbrev pub contains : List ℕ → ℕ → Bool
contains ts t = any (λ u. u == t) ts

-- slices.Contains, and append if not.
unfoldable pub with_timestamp : PendingReceipt → ℕ → PendingReceipt
with_timestamp p t =
    if contains p.timestamps t then p else record p { timestamps = p.timestamps ++ t ∷ [] }

-- The receipt of the sender if there is one, else a new one at the end, takes the timestamp.
unfoldable pub add_pending : List PendingReceipt → Recipient → ℕ → List PendingReceipt
unfolding with_timestamp
add_pending [] sender t = record { sender = sender; timestamps = t ∷ [] } ∷ []
add_pending (p ∷ ps) sender t =
    let rest = add_pending ps sender t in
    if str_eq p.sender.aci sender.aci then with_timestamp p t ∷ ps else p ∷ rest

unfoldable pub queued : List PendingReceipt → Option Message → List PendingReceipt × Bool
queued pending none = (pending, false)
queued pending (some msg) = (add_pending pending msg.envelope.sender msg.envelope.timestamp, true)

-- ReadReceipts.Add
unfoldable pub add_receipt : List PendingReceipt → Event → List PendingReceipt × Bool
unfolding queued
add_receipt pending evt = queued pending (incoming_message evt)

unfoldable pub add_all : List PendingReceipt → List Event → List PendingReceipt
add_all pending [] = pending
add_all pending (evt ∷ evts) = add_all (add_receipt pending evt).0 evts

-- The marks of a receipt that was sent.
abbrev pub marks_of : PendingReceipt → List ReadMark
marks_of p = map (λ t. record { sender = p.sender; timestamp = t }) p.timestamps

-- What the loop of MarkRead gathers: senders, marks, and the senders of failed receipts.
pub record Sent : Type 0 where
  pub senders : ℕ
  pub marks : List ReadMark
  pub unsent : List Recipient

-- What MarkRead leaves: the rows, its result, the senders of failed receipts, and whether the store
-- failed to mark the messages.
pub record Marked : Type 0 where
  pub rows : List (Row Stored)
  pub senders : ℕ
  pub messages : ℕ
  pub unsent : List Recipient
  pub mark_failed : Bool

-- The end of MarkRead. InboxMarkRead is called if there are marks; it is one transaction, so that a
-- failure leaves the rows as they were.
unfoldable pub mark_sent : Bool → List (Row Stored) → Sent → List InboxMark → Marked
mark_sent fails rows sent [] = record {
  rows = rows;
  senders = sent.senders;
  messages = 0;
  unsent = sent.unsent;
  mark_failed = false;
}
mark_sent fails rows sent (m ∷ ms) = record {
  rows = if fails then rows else (mark_read rows (m ∷ ms)).0;
  senders = sent.senders;
  messages = if fails then 0 else (mark_read rows (m ∷ ms)).1;
  unsent = sent.unsent;
  mark_failed = fails;
}

module _ (delivers : PendingReceipt → Bool) where
  unfoldable pub send_all : List PendingReceipt → Sent
  send_all [] = record { senders = 0; marks = []; unsent = [] }
  send_all (p ∷ ps) =
      let rest = send_all ps in
      if delivers p
      then record {
        senders = 1 + rest.senders;
        marks = marks_of p ++ rest.marks;
        unsent = rest.unsent;
      }
      else record rest { unsent = p.sender ∷ rest.unsent }

  -- Flush: the senders of the receipts that failed.
  abbrev pub flush : List PendingReceipt → List Recipient
  flush pending = (send_all pending).unsent

  -- MarkRead on the entries it selects.
  unfoldable pub mark_entries : Bool → List (Row Stored) → List (Row Stored) → Marked
  unfolding mark_sent
  mark_entries fails rows entries =
      let sent = send_all (add_all [] (map (λ r. r.event.event) entries)) in
      mark_sent fails rows sent (map store_mark sent.marks)
