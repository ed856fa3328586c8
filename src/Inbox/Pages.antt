-- ===== src/Inbox/Pages.antt =====
-- internal/app/inbox.go: cursors, List, Wait's cursor and markReadEntries. A client whose InboxList
-- fails is `none`.
use go_signal.Base.{
  ℕ, ◌+◌, Bool, true, false, not, ◌&&◌, Option, none, some, List, [], ◌∷◌, Bytes, codes, ◌==◌, ltb,
  is_empty, length, take, if◌then◌else◌, min,
}
use go_signal.Std.Decimal.{format, parse, Parsed}
use go_signal.Inbox.Table.{Row, Table, InboxFilter, records}

abbrev pub default_limit : ℕ
default_limit = 50

abbrev pub max_limit : ℕ
max_limit = 200

-- FormatCursor
abbrev pub format_cursor : ℕ → Bytes
format_cursor id = format id

unfoldable pub unsigned : Option Parsed → Option ℕ
unsigned none = none
unsigned (some n) = if n.negative && not (n.value == 0) then none else some n.value

-- parseCursor; `none` is ErrInvalidCursor.
unfoldable pub parse_cursor : Bytes → Option ℕ
unfolding unsigned
parse_cursor cursor = if is_empty cursor then some 0 else unsigned (parse cursor)

-- MessagesRequest
pub record MessagesRequest : Type 0 where
  pub chat : Bytes
  pub cursor : Bytes
  pub since : ℕ
  pub limit : ℕ

module _ (E : Type 0) where
  -- MessagesPage
  pub record MessagesPage : Type 0 where
    pub entries : List (Row E)
    pub cursor : Bytes
    pub more : Bool

  pub data PageResult : Type 0 where
    page_of : MessagesPage → PageResult
    invalid_cursor store_failed : PageResult

abbrev pub limit_of : MessagesRequest → ℕ
limit_of req = min (if req.limit == 0 then default_limit else req.limit) max_limit

abbrev pub is_newest : MessagesRequest → Bool
is_newest req = is_empty req.cursor && req.since == 0

-- The query of List.
unfoldable pub query_of : MessagesRequest → ℕ → InboxFilter
query_of req after = record {
  after = after;
  until = 0;
  chat = req.chat;
  since = req.since;
  unread = false;
  limit = if is_newest req then limit_of req else limit_of req + 1;
  newest = is_newest req;
}

-- The query of latestCursor.
abbrev pub newest_one : InboxFilter
newest_one = record {
  after = 0;
  until = 0;
  chat = codes "";
  since = 0;
  unread = false;
  limit = 1;
  newest = true;
}

module _ {E : Type 0} where
  unfoldable pub last_id : List (Row E) → Option ℕ
  last_id [] = none
  last_id (r ∷ []) = some r.id
  last_id (r ∷ q ∷ rs) = last_id (q ∷ rs)

  unfoldable pub first_cursor : List (Row E) → Bytes
  first_cursor [] = format_cursor 0
  first_cursor (r ∷ rs) = format_cursor r.id

  -- latestCursor
  unfoldable pub latest_cursor : Table E → Bytes
  unfolding first_cursor
  latest_cursor t = first_cursor (records t newest_one)

  unfoldable pub page_cursor : Table E → MessagesRequest → Option ℕ → Bytes
  page_cursor t req (some id) = format_cursor id
  page_cursor t req none = if is_empty req.cursor then latest_cursor t else req.cursor

  -- The page that List makes of the entries it read.
  unfoldable pub page : Table E → MessagesRequest → List (Row E) → MessagesPage E
  unfolding page_cursor last_id
  page t req entries =
      let shown =
        if ltb (limit_of req) (length entries) then take (limit_of req) entries else entries in
      record {
        entries = shown;
        cursor = page_cursor t req (last_id shown);
        more = ltb (limit_of req) (length entries);
      }

  unfoldable pub listed : Option (Table E) → MessagesRequest → Option ℕ → PageResult E
  listed client req none = invalid_cursor
  listed none req (some after) = store_failed
  listed (some t) req (some after) = page_of (page t req (records t (query_of req after)))

  -- Inbox.List
  unfoldable pub list : Option (Table E) → MessagesRequest → PageResult E
  unfolding listed
  list client req = listed client req (parse_cursor req.cursor)
