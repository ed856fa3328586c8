-- ===== src/Inbox/Reading.antt =====
-- What MarkRead of internal/app/inbox.go does with the read receipts of the entries it selects.
use go_signal.Base.{
  is_empty, All, not, ap, Option, none, some, true, ℕ, ◌+◌, ◌≡◌, refl, ◌∙◌, inl, inr, Bool, false,
  ◌&&◌, ◌||◌, any, List, [], ◌∷◌, ◌++◌, str_eq, ◌==◌, if◌then◌else◌, map, length, arith, Bool-cases,
}
use go_signal.Types.{Recipient}
use go_signal.Events.{ReadMark, Event, Message}
use go_signal.Inbox.Table.{Row, InboxMark, mark_read, timestamp_arg}
use go_signal.Inbox.Marks.{unread, read_by, named_by, mark_read_lem}
use go_signal.Inbox.Classify.{incoming_message}
use go_signal.Inbox.Receive.{Stored, store_mark}
use go_signal.Inbox.Receipts.{
  PendingReceipt, with_timestamp, add_pending, queued, add_receipt, mark_sent, Sent, contains,
  add_all, marks_of, send_all, mark_entries,
}

-- The receipt names the row's message, as the table holds its timestamp.
abbrev pub receipt_names : Row Stored → PendingReceipt → Bool
receipt_names r p =
    any (λ t. str_eq r.sender p.sender.aci && r.timestamp == timestamp_arg t) p.timestamps

-- The row, unread no more if a receipt that was delivered names it.
abbrev pub read_of : (PendingReceipt → Bool) → List PendingReceipt → Row Stored → Row Stored
read_of delivers batch r =
    if r.unread && any (λ p. delivers p && receipt_names r p) batch
    then record r { unread = false }
    else r

any-marks_append :
    (r : Row Stored) (ms ns : List ReadMark)
    → any (λ m. named_by m r) (map store_mark (ms ++ ns))
      ≡ (any (λ m. named_by m r) (map store_mark ms) || any (λ m. named_by m r) (map store_mark ns))
any-marks_append r [] ns = refl
any-marks_append r (m ∷ ms) ns = ground (arith, any-marks_append r ms ns)

any-marks_of :
    (r : Row Stored) (sender : Recipient) (ts : List ℕ)
    → any
        (λ m. named_by m r)
        (map store_mark (map (λ t. record { sender = sender; timestamp = t }) ts))
      ≡ any (λ t. str_eq r.sender sender.aci && r.timestamp == timestamp_arg t) ts
any-marks_of r sender [] = refl
any-marks_of r sender (t ∷ ts) = ground (arith, any-marks_of r sender ts)

-- The receipt has a timestamp.
abbrev IsFull : PendingReceipt → Type 0
IsFull p = is_empty p.timestamps ≡ false

with_timestamp-IsFull : (p : PendingReceipt) (t : ℕ) → IsFull p → IsFull (with_timestamp p t)
unfolding with_timestamp
with_timestamp-IsFull p t f = elim (Bool-cases (contains p.timestamps t)) [
  | inl h ↦ rw h f
  | inr h ↦ rw h (appended p.timestamps t)
]
  where
    appended : (ts : List ℕ) (t : ℕ) → is_empty (ts ++ t ∷ []) ≡ false
    appended [] t = refl
    appended (x ∷ ts) t = refl

add_pending-IsFull :
    (ps : List PendingReceipt) (sender : Recipient) (t : ℕ)
    → All IsFull ps
    → All IsFull (add_pending ps sender t)
unfolding add_pending
add_pending-IsFull [] sender t f = (refl, tt)
add_pending-IsFull (p ∷ ps) sender t f = elim (Bool-cases (str_eq p.sender.aci sender.aci)) [
  | inl h ↦ rw h (with_timestamp-IsFull p t f.0, f.1)
  | inr h ↦ rw h (f.0, add_pending-IsFull ps sender t f.1)
]

queued-IsFull :
    (ps : List PendingReceipt) (msg : Option Message) → All IsFull ps → All IsFull (queued ps msg).0
unfolding queued
queued-IsFull ps none f = f
queued-IsFull ps (some msg) f = add_pending-IsFull ps _ _ f

add_all-IsFull :
    (ps : List PendingReceipt) (evts : List Event) → All IsFull ps → All IsFull (add_all ps evts)
unfolding add_all add_receipt
add_all-IsFull ps [] f = f
add_all-IsFull ps (evt ∷ evts) f =
    add_all-IsFull (queued ps (incoming_message evt)).0 evts
      (queued-IsFull ps (incoming_message evt) f)

first_mark :
    (sender : Recipient) (ts : List ℕ) (more : List ReadMark)
    → is_empty ts ≡ false
    → is_empty (map store_mark (map (λ t. record { sender = sender; timestamp = t }) ts ++ more))
      ≡ false
first_mark sender [] more h = cc
first_mark sender (t ∷ ts) more h = refl

-- The end of MarkRead, whatever the receipts came to.
mark_sent_lem :
    (fails : Bool) (rows : List (Row Stored)) (sent : Sent) (ms : List InboxMark)
    → ((mark_sent fails rows sent ms).rows ≡ (if fails then rows else map (read_by ms) rows))
      × ((mark_sent fails rows sent ms).messages + unread (mark_sent fails rows sent ms).rows
          ≡ unread rows)
      × ((mark_sent fails rows sent ms).mark_failed ≡ (fails && not (is_empty ms)))
      × ((mark_sent fails rows sent ms).senders + length (mark_sent fails rows sent ms).unsent
          ≡ sent.senders + length sent.unsent)
unfolding mark_sent
mark_sent_lem true rows sent [] = (refl, omega arith, refl, refl)
mark_sent_lem true rows sent (m ∷ ms) = (refl, omega arith, refl, refl)
mark_sent_lem false rows sent [] =
    ((unfold mark_read in (mark_read_lem rows []).0), omega arith, refl, refl)
mark_sent_lem false rows sent (m ∷ ms) =
    let (after, counted) = mark_read_lem rows (m ∷ ms) in (after, counted, refl, refl)

module _ (delivers : PendingReceipt → Bool) where
  any-send_all :
      (r : Row Stored) (ps : List PendingReceipt)
      → any (λ m. named_by m r) (map store_mark (send_all delivers ps).marks)
        ≡ any (λ p. delivers p && receipt_names r p) ps
  unfolding send_all
  any-send_all r [] = refl
  any-send_all r (p ∷ ps) =
      let rest = any-send_all r ps in
      elim (Bool-cases (delivers p)) [
        | inl h ↦
            rw
              (
                h,
                any-marks_append r (marks_of p) (send_all delivers ps).marks,
                any-marks_of r p.sender p.timestamps,
                rest,
              )
              refl
        | inr h ↦ rw h rest
      ]

  read_by-send_all :
      (ps : List PendingReceipt) (rows : List (Row Stored))
      → map (read_by (map store_mark (send_all delivers ps).marks)) rows
        ≡ map (read_of delivers ps) rows
  read_by-send_all ps [] = refl
  read_by-send_all ps (r ∷ rows) = rw (any-send_all r ps, read_by-send_all ps rows) refl

  length-send_all :
      (ps : List PendingReceipt)
      → (send_all delivers ps).senders + length (send_all delivers ps).unsent ≡ length ps
  unfolding send_all
  length-send_all [] = refl
  length-send_all (p ∷ ps) = ground (arith, length-send_all ps)

  marks-send_all :
      (ps : List PendingReceipt)
      → All IsFull ps
      → is_empty (map store_mark (send_all delivers ps).marks) ≡ not (any delivers ps)
  unfolding send_all
  marks-send_all [] f = refl
  marks-send_all (p ∷ ps) f = elim (Bool-cases (delivers p)) [
    | inl h ↦ rw h (first_mark p.sender p.timestamps (send_all delivers ps).marks f.0)
    | inr h ↦ rw h (marks-send_all ps f.1)
  ]

  -- Marking entries as read sends the receipts collected from them. Unless the store fails, it
  -- clears the unread flag of exactly the unread rows that a delivered receipt names, and it returns
  -- how many these are; a receipt that fails leaves the rows that only it names unread and stops no
  -- other receipt. If the store fails, which it can only if a receipt is delivered, the rows stay as
  -- they are, and the failure is reported. Each receipt counts either as a sender or as a failure.
  pub mark_entries_lem :
      (fails : Bool) (rows entries : List (Row Stored))
      → ((mark_entries delivers fails rows entries).rows ≡ (
          if fails
          then rows
          else map (read_of delivers (add_all [] (map (λ r. r.event.event) entries))) rows))
        × ((mark_entries delivers fails rows entries).messages
              + unread (mark_entries delivers fails rows entries).rows
            ≡ unread rows)
        × ((mark_entries delivers fails rows entries).mark_failed
            ≡ (fails && any delivers (add_all [] (map (λ r. r.event.event) entries))))
        × ((mark_entries delivers fails rows entries).senders
              + length (mark_entries delivers fails rows entries).unsent
            ≡ length (add_all [] (map (λ r. r.event.event) entries)))
  unfolding mark_entries
  mark_entries_lem fails rows entries =
      let batch = add_all [] (map (λ r. r.event.event) entries) in
      let sent = send_all delivers batch in
      let (after, counted, failed, senders) =
        mark_sent_lem fails rows sent (map store_mark sent.marks) in
      (
        after ∙ ap (λ x. if fails then rows else x) (read_by-send_all batch rows),
        counted,
        failed ∙ ground (arith, marks-send_all batch (add_all-IsFull [] _ tt)),
        senders ∙ length-send_all batch,
      )
