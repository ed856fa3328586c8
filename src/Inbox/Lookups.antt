-- ===== src/Inbox/Lookups.antt =====
-- What markReadEntries and Message of internal/app/inbox.go find.
use go_signal.Base.{
  ℕ, ◌^◌, ◌<◌, ◌≡◌, refl, inl, inr, Bool, false, ◌&&◌, ◌||◌, Option, none, some, List, [], ◌∷◌,
  Bytes, ◌==◌, leb, str_eq, is_empty, select, find, arith, Bool-cases,
}
use go_signal.Inbox.Table.{Row, Table, matches, records}
use go_signal.Inbox.Order.{Ordered, IsOrdered}
use go_signal.Inbox.Receive.{Stored}
use go_signal.Inbox.Pages.{format_cursor, parse_cursor}
use go_signal.Inbox.Paging.{parse_cursor-format_cursor}
use go_signal.Inbox.Entries.{
  MarkReadRequest, entries_of, unread_query, entry_query, unread_entries, until_entries,
  mark_read_entries, MessageResult, unknown_entry, as_message, first_message, found_message,
  message_at, find_message,
}

module _ {E : Type 0} where
  -- The row is an unread one of the chat, if one is asked for, up to the ID.
  abbrev pub unread_until : Bytes → ℕ → Row E → Bool
  unread_until chat until r = leb r.id until && (is_empty chat || str_eq r.chat chat) && r.unread

  select-until :
      (chat : Bytes) (until lo : ℕ) (rows : List (Row E))
      → 0 < until
      → select (matches (unread_query chat until)) rows ≡ select (unread_until chat until) rows
  unfolding matches
  select-until chat until lo [] h = refl
  select-until chat until lo (r ∷ rows) h = ground (arith, select-until chat until r.id rows h)

  select-zero :
      (chat : Bytes) (lo : ℕ) (rows : List (Row E))
      → Ordered lo rows
      → select (unread_until chat 0) rows ≡ []
  select-zero chat lo [] o = refl
  select-zero chat lo (r ∷ rows) o = ground (arith, select-zero chat r.id rows o.1)

  -- With a cursor, MarkRead selects exactly the unread rows of the chat up to it: none for the
  -- cursor of an empty inbox, which the store's filter would take for no bound.
  pub mark_read_entries_lem :
      (t : Table E) (req : MarkReadRequest) (until : ℕ)
      → IsOrdered t
      → is_empty req.cursor ≡ false
      → parse_cursor req.cursor ≡ some until
      → mark_read_entries (some t) req ≡ entries_of (select (unread_until req.chat until) t.rows)
  unfolding mark_read_entries until_entries unread_entries records
  mark_read_entries_lem t req until w c p = elim (Bool-cases (until == 0)) [
    | inl z ↦
        let e : until ≡ 0 = ground arith in
        let none_left : select (unread_until req.chat until) t.rows ≡ [] =
          rw e (select-zero req.chat 0 t.rows w.ordered) in
        rw (p, c, z, none_left) refl
    | inr z ↦ rw (p, c, z, select-until req.chat until 0 t.rows (ground arith)) refl
  ]

select-entry :
    (id lo : ℕ) (rows : List (Row Stored))
    → 0 < id
    → Ordered lo rows
    → select (matches (entry_query id)) rows ≡ select (λ r. r.id == id) rows
unfolding matches
select-entry id lo [] h o = refl
select-entry id lo (r ∷ rows) h o = ground (arith, select-entry id r.id rows h o.1)

-- The message of the row with the ID, if there is one and it is a message.
abbrev pub message_of_row : Option (Row Stored) → MessageResult
message_of_row none = unknown_entry
message_of_row (some r) = as_message r.event.event

first-select :
    (p : Row Stored → Bool) (rows : List (Row Stored))
    → first_message (select p rows) ≡ message_of_row (find p rows)
unfolding first_message
first-select p [] = refl
first-select p (r ∷ rows) = elim (Bool-cases (p r)) [
  | inl h ↦ rw h refl
  | inr h ↦ rw h (first-select p rows)
]

-- The ID that List and Wait give for an entry, as text, finds the message of the row with that ID.
pub find_message-format_cursor :
    (t : Table Stored) (id : ℕ)
    → IsOrdered t
    → 0 < id
    → id < 2 ^ 63
    → find_message (some t) (format_cursor id) ≡ message_of_row (find (λ r. r.id == id) t.rows)
unfolding find_message message_at found_message records
find_message-format_cursor t id w h b =
    let nonzero : (id == 0) ≡ false = ground arith in
    rw (parse_cursor-format_cursor id b, nonzero, select-entry id 0 t.rows h w.ordered)
      (first-select (λ r. r.id == id) t.rows)
