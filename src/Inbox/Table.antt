-- ===== src/Inbox/Table.antt =====
-- internal/store/inbox.go: the table gosignal_inbox, by ascending ID, over any encoding `E` of the
-- events. A time in the table is in milliseconds since Go's zero time; a filter's zero does not
-- filter. What SQLite does is written out: AUTOINCREMENT numbers a row above every row there ever
-- was.
use go_signal.Base.{
  ℕ, ◌+◌, ◌-◌, ◌*◌, ◌/◌, ◌^◌, min, Bool, false, not, ◌&&◌, ◌||◌, List, [], ◌∷◌, ◌++◌, Bytes, ◌==◌,
  ltb, leb, str_eq, is_empty, length, take, drop, select, any, reverse, if◌then◌else◌,
}

-- time.UnixMilli, from Go's zero time.
abbrev pub unix_milli : ℕ → ℕ
unix_milli t = t / 1_000_000

-- UnixMilli of a stored number.
abbrev pub from_milli : ℕ → ℕ
from_milli ms = ms * 1_000_000

abbrev pub max_int64 : ℕ
max_int64 = 2 ^ 63 - 1

-- timestampArg
unfoldable pub timestamp_arg : ℕ → ℕ
timestamp_arg ts = min ts max_int64

module _ (E : Type 0) where
  -- InboxRecord, with its times as the table holds them.
  pub record Row : Type 0 where
    pub id : ℕ
    pub received_at : ℕ
    pub time : ℕ
    pub chat : Bytes
    pub sender : Bytes
    pub timestamp : ℕ
    pub unread : Bool
    pub event : E

  pub record Table : Type 0 where
    pub rows : List Row
    -- The largest ID that was ever given (sqlite_sequence).
    pub sequence : ℕ

-- InboxFilter
pub record InboxFilter : Type 0 where
  pub after : ℕ
  pub until : ℕ
  pub chat : Bytes
  pub since : ℕ
  pub unread : Bool
  pub limit : ℕ
  pub newest : Bool

-- InboxMark
pub record InboxMark : Type 0 where
  pub sender : Bytes
  pub timestamp : ℕ

pub record ChatSummary (E : Type 0) : Type 0 where
  pub chat : Bytes
  pub entries : ℕ
  pub unread : ℕ
  pub last : Row E

-- What AddInboxRecord is given: a record without its ID.
pub record NewRecord (E : Type 0) : Type 0 where
  pub received_at : ℕ
  pub time : ℕ
  pub chat : Bytes
  pub sender : Bytes
  pub timestamp : ℕ
  pub unread : Bool
  pub event : E

-- LIMIT, which zero leaves out.
abbrev pub limited {ℓ} : {A : Type ℓ} → ℕ → List A → List A
limited limit l = if limit == 0 then l else take limit l

module _ {E : Type 0} where
  -- Store.AddInboxRecord
  unfoldable pub add : Table E → NewRecord E → Table E × ℕ
  unfolding timestamp_arg
  add t r = (
    record {
      rows =
          t.rows
          ++ record {
            id = t.sequence + 1;
            received_at = unix_milli r.received_at;
            time = unix_milli r.time;
            chat = r.chat;
            sender = r.sender;
            timestamp = timestamp_arg r.timestamp;
            unread = r.unread;
            event = r.event;
          }
            ∷ [];
      sequence = t.sequence + 1;
    },
    t.sequence + 1,
  )

  -- InboxFilter.where: the conditions on a row.
  unfoldable pub matches : InboxFilter → Row E → Bool
  matches f r =
      (f.after == 0 || ltb f.after r.id)
      && (f.until == 0 || leb r.id f.until)
      && (is_empty f.chat || str_eq r.chat f.chat)
      && (f.since == 0 || leb (unix_milli f.since) r.time)
      && (not f.unread || r.unread)

  -- Store.InboxRecords: the rows by ascending ID, cut from either end.
  unfoldable pub records : Table E → InboxFilter → List (Row E)
  unfolding matches
  records t f =
      if f.newest
      then reverse (limited f.limit (reverse (select (matches f) t.rows)))
      else limited f.limit (select (matches f) t.rows)

  abbrev of_chat : Bytes → Row E → Bool
  of_chat chat r = str_eq r.chat chat

  -- Store.InboxChats: the rows are walked from the newest, and the first of a chat is its last.
  summarize : List (Row E) → List Bytes → List (Row E) → List (ChatSummary E)
  summarize rows seen [] = []
  summarize rows seen (r ∷ older) =
      let rest = summarize rows (r.chat ∷ seen) older in
      if is_empty r.chat || any (str_eq r.chat) seen
      then rest
      else record {
        chat = r.chat;
        entries = length (select (of_chat r.chat) rows);
        unread = length (select (λ q. of_chat r.chat q && q.unread) rows);
        last = r;
      }
        ∷ rest

  unfoldable pub chats : Table E → List (ChatSummary E)
  unfolding summarize
  chats t = summarize t.rows [] (reverse t.rows)

  -- UPDATE … SET unread=false WHERE unread AND sender=$1 AND timestamp=$2
  unfoldable pub is_marked : InboxMark → Row E → Bool
  unfolding timestamp_arg
  is_marked m r = r.unread && str_eq r.sender m.sender && r.timestamp == timestamp_arg m.timestamp

  unfoldable pub mark_row : InboxMark → Row E → Row E
  unfolding is_marked
  mark_row m r = if is_marked m r then record r { unread = false } else r

  unfoldable pub mark_rows : InboxMark → List (Row E) → List (Row E) × ℕ
  unfolding is_marked mark_row
  mark_rows m [] = ([], 0)
  mark_rows m (r ∷ rs) =
      let rest = mark_rows m rs in
      (mark_row m r ∷ rest.0, (if is_marked m r then 1 else 0) + rest.1)

  -- Store.MarkInboxRead: one transaction for all marks.
  unfoldable pub mark_read : List (Row E) → List InboxMark → List (Row E) × ℕ
  unfolding mark_rows
  mark_read rows [] = (rows, 0)
  mark_read rows (m ∷ ms) =
      let first = mark_rows m rows in let rest = mark_read first.0 ms in (rest.0, first.1 + rest.1)

  -- Store.PruneInbox. The second DELETE removes the rows up to the one that `keep` rows are newer
  -- than, if there is one: all but the last `keep`.
  unfoldable pub expired : ℕ → Row E → Bool
  expired before r = ltb r.received_at (unix_milli before)

  unfoldable pub drop_expired : ℕ → List (Row E) → List (Row E)
  unfolding expired
  drop_expired before rows = if before == 0 then rows else select (λ r. not (expired before r)) rows

  -- RowsAffected of the first DELETE.
  unfoldable pub expired_count : ℕ → List (Row E) → ℕ
  unfolding expired
  expired_count before rows =
      if before == 0 then 0 else length (select (λ r. expired before r) rows)

  unfoldable pub keep_newest : ℕ → List (Row E) → List (Row E)
  keep_newest keep rows = if keep == 0 then rows else drop (length rows - keep) rows

  -- RowsAffected of the second DELETE.
  unfoldable pub excess_count : ℕ → List (Row E) → ℕ
  excess_count keep rows = if keep == 0 then 0 else length (take (length rows - keep) rows)

  unfoldable pub prune : Table E → ℕ → ℕ → Table E × ℕ
  unfolding drop_expired expired_count keep_newest excess_count
  prune t before keep =
      let rows = drop_expired before t.rows in
      (
        record t { rows = keep_newest keep rows },
        expired_count before t.rows + excess_count keep rows,
      )

-- The changes of the table.
pub data Change (E : Type 0) : Type 0 where
  adds : NewRecord E → Change E
  marks : List InboxMark → Change E
  prunes : ℕ → ℕ → Change E

module _ {E : Type 0} where
  unfoldable pub change : Table E → Change E → Table E
  unfolding add mark_read prune
  change t (adds r) = (add t r).0
  change t (marks ms) = record t { rows = (mark_read t.rows ms).0 }
  change t (prunes before keep) = (prune t before keep).0

  unfoldable pub changes : Table E → List (Change E) → Table E
  changes t [] = t
  changes t (c ∷ cs) = changes (change t c) cs
